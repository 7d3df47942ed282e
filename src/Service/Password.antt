-- ===== src/Service/Password.antt =====
-- internal/service/password.go: salted password hashes. PBKDF2 with SHA-256 is a parameter.
pub mod Verify
mod Tests
use cloud_native_entry_task.Prelude.{
  ℕ, ◌≡◌, Bool, true, false, ◌&&◌, ◌||◌, not, Bytes, length, bytes_eq, is_empty, ◌==◌,
  if◌then◌else◌,
}
use cloud_native_entry_task.Prelude.Int.{ℤ, pos, leb_ℤ}
use cloud_native_entry_task.GoLib.Errors.{Error, external, Result, ok, err}

abbrev pub salt_bytes : ℕ
salt_bytes = 16

abbrev pub hash_bytes : ℕ
hash_bytes = 32

-- `pbkdf2.Key(sha256.New, password, salt, iterations, key length)`
abbrev pub Pbkdf2 : Type 0
Pbkdf2 = Bytes → Bytes → ℤ → ℕ → Result Bytes

-- "iterations must be positive"
abbrev pub bad_iterations : Error
bad_iterations = external 1

-- `crypto/subtle.ConstantTimeCompare(x, y) == 1`
abbrev constant_time_eq : Bytes → Bytes → Bool
constant_time_eq x y = (length x == length y) && bytes_eq x y

module _ (key : Pbkdf2) where
  with_salt : Bytes → Result Bytes → Result (Bytes × Bytes)
  with_salt salt (ok hash) = ok (salt, hash)
  with_salt salt (err e) = err e

  -- The salt, or the error, is what `rand.Read` gave for `salt_bytes` bytes.
  hash_with : Bytes → ℤ → Result Bytes → Result (Bytes × Bytes)
  unfolding with_salt
  hash_with password iterations (err e) = err e
  hash_with password iterations (ok salt) = with_salt salt (key password salt iterations hash_bytes)

  unfoldable pub hash_password : Bytes → ℤ → Result Bytes → Result (Bytes × Bytes)
  unfolding hash_with
  hash_password password iterations random =
      if leb_ℤ iterations (pos 0) then err bad_iterations else hash_with password iterations random

  compare_hash : Bytes → Result Bytes → Result Bool
  compare_hash expected (err e) = err e
  compare_hash expected (ok got) =
      if not (length got == length expected)
      then ok false
      else ok (constant_time_eq got expected && not (is_empty got))

  unfoldable pub verify_password : Bytes → Bytes → Bytes → ℤ → Result Bool
  unfolding compare_hash
  verify_password password salt expected iterations =
      if is_empty salt || is_empty expected || leb_ℤ iterations (pos 0)
      then ok false
      else compare_hash expected (key password salt iterations (length expected))
