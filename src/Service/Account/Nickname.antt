-- ===== src/Service/Account/Nickname.antt =====
-- Which nicknames reach the store.
use cloud_native_entry_task.Prelude.{
  ℕ, ◌≤◌, ◌≡◌, ◌≢◌, refl, ◌⊎◌, inl, inr, true, false, [], ◌∷◌, Bytes, length, is_empty, arith,
  Bool-cases,
}
use cloud_native_entry_task.GoLib.Strings.{trim_space, valid_string}
use cloud_native_entry_task.GoLib.Errors.{err}
use cloud_native_entry_task.GoLib.Exec.{try, pure, raise}
use cloud_native_entry_task.Service.Interfaces.{Service}
use cloud_native_entry_task.Service.Account.{
  invalid_nickname, or_not_found, to_protocol_profile, is_valid_nickname, update_nickname,
}

pub record IsNickname (max_bytes : ℕ) (nickname : Bytes) : Type 0 where
  pub nonempty : nickname ≢ []
  pub is_utf8 : valid_string nickname ≡ true
  pub short : length nickname ≤ max_bytes

module _ {W : Type 0} (s : Service W) where
  is_valid_nickname-IsNickname :
      (n : Bytes) → is_valid_nickname s n ≡ true → IsNickname s.max_nickname_bytes n
  unfolding is_valid_nickname is_empty
  is_valid_nickname-IsNickname [] h = unfold is_empty in absurd (cc)
  is_valid_nickname-IsNickname (x ∷ n) h = record {
    nonempty = λ e. cc;
    is_utf8 = ground arith;
    short = ground arith;
  }

  not_IsNickname : (n : Bytes) → is_valid_nickname s n ≡ false → ¬ IsNickname s.max_nickname_bytes n
  unfolding is_valid_nickname is_empty
  not_IsNickname [] e v = v.nonempty refl
  not_IsNickname (x ∷ n) e v = ground (arith, v.is_utf8, v.short)

  -- A change of nickname either writes the trimmed nickname, which is then not empty, valid UTF-8
  -- and within the limit, and answers as the store does, or is refused with the world as it was.
  pub update_nickname_cases :
      (w : W) (user_id : ℕ) (raw : Bytes)
      → (IsNickname s.max_nickname_bytes (trim_space raw)
          × (update_nickname s user_id raw w
              ≡ try
                  (s.store.update_nickname user_id (trim_space raw))
                  (λ e. raise (or_not_found e))
                  (λ p. pure (to_protocol_profile s p))
                  w))
        ⊎ ((¬ IsNickname s.max_nickname_bytes (trim_space raw))
            × (update_nickname s user_id raw w ≡ (err invalid_nickname, w)))
  update_nickname_cases w user_id raw = elim (Bool-cases (is_valid_nickname s (trim_space raw))) [
    | inl e ↦ inl (
      is_valid_nickname-IsNickname (trim_space raw) e,
      unfold update_nickname in rw (e, update_nickname),
    )
    | inr e ↦
        inr (not_IsNickname (trim_space raw) e, unfold update_nickname in rw (e, update_nickname))
  ]
