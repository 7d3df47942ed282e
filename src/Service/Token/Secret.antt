-- ===== src/Service/Token/Secret.antt =====
-- Which secrets a token manager takes.
use cloud_native_entry_task.Prelude.{
  ◌≤◌, ◌≡◌, ◌↔◌, refl, Option, Bytes, length, is_empty, false, ltb, arith,
}
use cloud_native_entry_task.Prelude.Int.{ℤ}
use cloud_native_entry_task.GoLib.Errors.{ok}
use cloud_native_entry_task.Service.Token.{TokenManager, decoded, new_token_manager}

-- A token manager is made exactly of a secret that is not empty and stands for at least 32 bytes,
-- which it then has, with the time to live that was asked for.
pub new_token_manager_iff :
    (decode_hex : Bytes → Option Bytes) (secret : Bytes) (ttl : ℤ) (m : TokenManager)
    → (new_token_manager decode_hex secret ttl ≡ ok m) ↔ (
        (is_empty secret ≡ false)
        × (32 ≤ length (decoded decode_hex secret))
        × (m.secret ≡ decoded decode_hex secret)
        × (m.ttl ≡ ttl))
unfolding new_token_manager
new_token_manager_iff decode_hex secret ttl m = (
  λ h. ground arith,
  λ (given, long, same, lasts).
      let enough : ltb (length (decoded decode_hex secret)) 32 ≡ false = ground (arith, long) in
      rw (given, enough, ← same, ← lasts) refl,
)
