-- ===== src/Seed/Users.antt =====
-- cmd/seed/main.go, `makeUsers`: the users of a batch.
use cloud_native_entry_task.Prelude.{
  ℕ, zero, suc, ◌-◌, ◌≡◌, refl, sym, ap, ◌∙◌, true, false, some, List, [], ◌∷◌, ◌++◌, map, Bytes,
  codes, All, arith, length, drop, replicate,
}
use cloud_native_entry_task.Prelude.Int.{ℤ, pos, leb_ℤ}
use cloud_native_entry_task.GoLib.Strings.{itoa}
use cloud_native_entry_task.GoLib.Strings.Decimal.{parse_digits-itoa}
use cloud_native_entry_task.GoLib.Numbers.{parse_digits}
use cloud_native_entry_task.GoLib.Errors.{ok}
use cloud_native_entry_task.GoLib.Exec.{Exec}
use cloud_native_entry_task.Service.Password.{Pbkdf2, salt_bytes, hash_bytes, verify_password}
use cloud_native_entry_task.Service.Password.Verify.{verify_password_iff, hash_password_of}
use cloud_native_entry_task.Store.Mysql.Seeding.{SeedUser}
use cloud_native_entry_task.Seed.{Job, format_08d, hash_default, seed_user, make_users}

-- The numbers from one on.
unfoldable pub count_up : ℕ → ℕ → List ℕ
count_up a zero = []
count_up a (suc n) = a ∷ count_up (suc a) n

parse_zeros : (k : ℕ) (s : Bytes) → parse_digits 0 (replicate k b'0' ++ s) ≡ parse_digits 0 s
unfolding parse_digits
parse_zeros zero s = refl
parse_zeros (suc k) s = parse_zeros k s

-- A padded number reads back.
pub parse_digits-format_08d : (n : ℕ) → parse_digits 0 (format_08d n) ≡ some n
unfolding format_08d
parse_digits-format_08d n = parse_zeros (8 - length (itoa n)) (itoa n) ∙ parse_digits-itoa n

abbrev pub user_name : ℕ → Bytes
user_name id = codes "user" ++ format_08d id

-- Different users have different names.
pub user_name_inj : (a b : ℕ) → user_name a ≡ user_name b → a ≡ b
user_name_inj a b e =
    let same : some a ≡ some b =
      sym (parse_digits-format_08d a)
      ∙ ap (λ s. parse_digits 0 (drop 4 s)) e
      ∙ parse_digits-format_08d b in
    cc

-- `rand.Read` gives as many bytes as asked for, in every world.
abbrev pub ReadsFully : {W : Type 0} → (ℕ → Exec W Bytes) → Type 0
ReadsFully {W} rand_read =
    (n : ℕ) (w : W) → (r : Bytes) × (w' : W) × (rand_read n w ≡ (ok r, w')) × (length r ≡ n)

-- `pbkdf2.Key` gives a key of the length asked for, at a positive iteration count.
abbrev pub DerivesFully : Pbkdf2 → Type 0
DerivesFully key =
    (password salt : Bytes) (iterations : ℤ) (n : ℕ)
    → leb_ℤ iterations (pos 0) ≡ false
    → (k : Bytes) × (key password salt iterations n ≡ ok k) × (length k ≡ n)

-- The stored hash verifies the default password.
abbrev pub Accepts : {W : Type 0} → Job W → SeedUser → Type 0
Accepts j u =
    verify_password j.outside.pbkdf2 j.password u.password_salt u.password_hash u.password_iter
    ≡ ok true

module _ {W : Type 0} (j : Job W) (positive : leb_ℤ j.iterations (pos 0) ≡ false)
    (reads : ReadsFully j.outside.rand_read) (derives : DerivesFully j.outside.pbkdf2) where
  hash_default-ok :
      (w : W)
      → (salt hash : Bytes) × (w' : W) × (hash_default j w ≡ (ok (salt, hash), w'))
        × (verify_password j.outside.pbkdf2 j.password salt hash j.iterations ≡ ok true)
  unfolding hash_default
  hash_default-ok w =
      let (salt, w', drawn, salt_length) = reads salt_bytes w in
      let (hash, derived, hash_length) = derives j.password salt j.iterations hash_bytes positive in
      let derived_again : j.outside.pbkdf2 j.password salt j.iterations (length hash) ≡ ok hash =
        ap (j.outside.pbkdf2 j.password salt j.iterations) hash_length ∙ derived in
      let hashed =
        hash_password_of j.outside.pbkdf2 j.password j.iterations salt hash positive derived in
      (
        salt,
        hash,
        w',
        rw (positive, drawn) (ap (λ r. (r, w')) hashed),
        (verify_password_iff j.outside.pbkdf2 j.password salt hash j.iterations).1 (
          derived_again,
          (λ e. omega (arith, salt_length, ap length e)),
          (λ e. omega (arith, hash_length, ap length e)),
          positive,
        ),
      )

  -- If the iteration count is positive, and salts and keys are given in full, the users of a batch are
  -- made: they are named by its numbers, in order, and each can log in with the default password.
  pub make_users-Accepts :
      (start_id n : ℕ) (w : W)
      → (users : List SeedUser) × (w' : W) × (make_users j start_id n w ≡ (ok users, w'))
        × (map (λ u. u.username) users ≡ map user_name (count_up start_id n))
        × All (Accepts j) users
  unfolding make_users seed_user count_up
  make_users-Accepts start_id zero w = ([], w, refl, refl, tt)
  make_users-Accepts start_id (suc n) w =
      let (salt, hash, w1, hashed, accepted) = hash_default-ok w in
      let (later, w2, made, names, accepts) = make_users-Accepts (suc start_id) n w1 in
      (
        seed_user j start_id (salt, hash) ∷ later,
        w2,
        rw (hashed, made) refl,
        ap (◌∷◌ (user_name start_id)) names,
        (accepted, accepts),
      )
