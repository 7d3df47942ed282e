-- ===== src/Service/Password/Tests.antt =====
-- Runs of the password hash, as in internal/service/password_test.go.
use cloud_native_entry_task.Prelude.{
  ℕ, ◌≡◌, ◌≢◌, ◌↔◌, true, false, [], ◌∷◌, ◌++◌, ◌+◌, ◌*◌, Bytes, codes, replicate, length-replicate,
  arith,
}
use cloud_native_entry_task.Prelude.Int.{pos, leb_ℤ}
use cloud_native_entry_task.GoLib.Errors.{ok}
use cloud_native_entry_task.Service.Password.{Pbkdf2, verify_password}
use cloud_native_entry_task.Service.Password.Verify.{KeyHasLength, verify_password_iff}

checksum : Bytes → ℕ
checksum [] = 0
checksum (b ∷ bs) = b + 3 * checksum bs

-- A key that repeats a checksum of the password and the salt.
abbrev key : Pbkdf2
key = λ password salt iterations n. ok (replicate n (checksum (password ++ salt)))

key-KeyHasLength : KeyHasLength key
key-KeyHasLength password salt iterations n k h =
    ground (arith, length-replicate n (checksum (password ++ salt)))

abbrev salt : Bytes
salt = replicate 16 9

verify_password_iff_example :
    (verify_password key (codes "Password123!") salt (7 ∷ []) (pos 1000) ≡ ok true) ↔ (
      (key (codes "Password123!") salt (pos 1000) 1 ≡ ok (7 ∷ []))
      × (salt ≢ [])
      × (◌≢◌ {A = Bytes} (7 ∷ []) [])
      × (leb_ℤ (pos 1000) (pos 0) ≡ false))
verify_password_iff_example =
    verify_password_iff key (codes "Password123!") salt (7 ∷ []) (pos 1000)
