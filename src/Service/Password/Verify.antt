-- ===== src/Service/Password/Verify.antt =====
-- A hash verifies the password that it was made from, and nothing but a recomputed hash passes.
use cloud_native_entry_task.Prelude.{
  ℕ, suc, ◌≡◌, ◌≢◌, ◌↔◌, refl, true, false, [], ◌∷◌, Bytes, length, bytes_eq_sound, bytes_eq_refl,
  is_empty, arith,
}
use cloud_native_entry_task.Prelude.Int.{ℤ, pos, leb_ℤ}
use cloud_native_entry_task.GoLib.Errors.{Result, ok, err}
use cloud_native_entry_task.Service.Password.{
  Pbkdf2, salt_bytes, hash_bytes, hash_password, compare_hash, verify_password,
}

-- A derived key has the length that was asked for.
abbrev pub KeyHasLength : Pbkdf2 → Type 0
KeyHasLength key =
    (password salt : Bytes) (iterations : ℤ) (n : ℕ) (k : Bytes)
    → key password salt iterations n ≡ ok k
    → length k ≡ n

is_empty_of_length : (b : Bytes) (n : ℕ) → length b ≡ suc n → is_empty b ≡ false
unfolding is_empty
is_empty_of_length [] n h = ground arith
is_empty_of_length (x ∷ b) n h = refl

is_empty_of_ne_nil : (b : Bytes) → b ≢ [] → is_empty b ≡ false
unfolding is_empty
is_empty_of_ne_nil [] h = absurd (h refl)
is_empty_of_ne_nil (x ∷ b) h = refl

ne_nil_of_is_empty : (b : Bytes) → is_empty b ≡ false → b ≢ []
unfolding is_empty
ne_nil_of_is_empty [] h = absurd (cc)
ne_nil_of_is_empty (x ∷ b) h = λ e. cc

compare_hash_sound :
    (key : Pbkdf2) (expected : Bytes) (r : Result Bytes)
    → compare_hash key expected r ≡ ok true
    → r ≡ ok expected
unfolding compare_hash
compare_hash_sound key expected (ok got) h = ground (arith, bytes_eq_sound got expected)
compare_hash_sound key expected (err e) h = absurd (cc)

module _ (key : Pbkdf2) where
  hash_password_ok :
      (password : Bytes) (iterations : ℤ) (random : Result Bytes) (salt hash : Bytes)
      → hash_password key password iterations random ≡ ok (salt, hash)
      → (leb_ℤ iterations (pos 0) ≡ false)
        × (random ≡ ok salt)
        × (key password salt iterations hash_bytes ≡ ok hash)
  unfolding hash_password
  hash_password_ok password iterations (ok r) salt hash h = ground arith
  hash_password_ok password iterations (err e) salt hash h = ground arith

  pub hash_password_of :
      (password : Bytes) (iterations : ℤ) (salt hash : Bytes)
      → leb_ℤ iterations (pos 0) ≡ false
      → key password salt iterations hash_bytes ≡ ok hash
      → hash_password key password iterations (ok salt) ≡ ok (salt, hash)
  unfolding hash_password
  hash_password_of password iterations salt hash positive derived = rw (positive, derived) refl

  -- The password that a salt and a hash were made from verifies against them, if derived keys and
  -- random salts have the length asked for.
  pub verify-hash_password :
      (password : Bytes) (iterations : ℤ) (random : Result Bytes) (salt hash : Bytes)
      → KeyHasLength key
      → ((r : Bytes) → random ≡ ok r → length r ≡ salt_bytes)
      → hash_password key password iterations random ≡ ok (salt, hash)
      → verify_password key password salt hash iterations ≡ ok true
  unfolding verify_password
  verify-hash_password password iterations random salt hash lengths random_length h =
      let (positive, drawn, derived) = hash_password_ok password iterations random salt hash h in
      let size = lengths password salt iterations hash_bytes hash derived in
      rw (
        is_empty_of_length salt 15 (random_length salt drawn),
        is_empty_of_length hash 31 size,
        positive,
        size,
        derived,
        compare_hash,
        size,
        bytes_eq_refl hash,
        is_empty_of_length hash 31 size,
      )

  -- Verification succeeds exactly where the stored hash is the key that the password derives, the
  -- salt and the hash are not empty and the count is positive.
  pub verify_password_iff :
      (password salt expected : Bytes) (iterations : ℤ)
      → (verify_password key password salt expected iterations ≡ ok true) ↔ (
          (key password salt iterations (length expected) ≡ ok expected)
          × (salt ≢ [])
          × (expected ≢ [])
          × (leb_ℤ iterations (pos 0) ≡ false))
  unfolding verify_password
  verify_password_iff password salt expected iterations = (
    (λ h. ground (
      arith,
      compare_hash_sound key expected (key password salt iterations (length expected)),
      ne_nil_of_is_empty salt,
      ne_nil_of_is_empty expected,
    )),
    (λ (derived, salted, hashed, positive).
        rw
          (
            is_empty_of_ne_nil salt salted,
            is_empty_of_ne_nil expected hashed,
            positive,
            derived,
            compare_hash,
            bytes_eq_refl expected,
            is_empty_of_ne_nil expected hashed,
          )
          (ground arith)),
  )
