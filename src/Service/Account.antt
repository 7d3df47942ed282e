-- ===== src/Service/Account.antt =====
-- internal/service/service.go: log in and out, the authenticated user, the profile and the nickname.
pub mod Nickname
pub mod Sessions
pub mod Rejection
pub mod Revocation
use cloud_native_entry_task.Prelude.{
  ℕ, suc, ◌+◌, ◌-◌, ◌*◌, Bool, true, false, not, ◌&&◌, ◌||◌, Option, none, some, List, [], ◌∷◌,
  ◌++◌, Bytes, length, codes, ltb, ◌==◌, if◌then◌else◌, is_empty,
}
use cloud_native_entry_task.Prelude.Int.{ℤ, pos, negsuc, ◌-ℤ◌}
use cloud_native_entry_task.GoLib.Strings.{trim_space, contains, valid_string, itoa}
use cloud_native_entry_task.Protocol.Messages
use cloud_native_entry_task.Protocol.Messages.{LoginBody, LoginResult}
use cloud_native_entry_task.GoLib.Errors.{
  Error, unauthorized, not_found, bad_request, app_error, is_store_not_found, Result, ok, err,
}
use cloud_native_entry_task.GoLib.Exec.{Exec, pure, raise, lift, try, ◌>>=◌, ◌>>◌}
use cloud_native_entry_task.Service.Token.{issue, verify}
use cloud_native_entry_task.Service.Password.{verify_password}
use cloud_native_entry_task.Service.Interfaces.{SessionStore, Service, now}
use cloud_native_entry_task.Store.Mysql.{UserAuth, UserProfile, NullString}

-- Errors with a code and a message of their own.
abbrev pub invalid_credentials : Error
invalid_credentials = app_error "invalid_credentials" "Invalid username or password." unauthorized

abbrev pub invalid_nickname : Error
invalid_nickname =
    app_error "invalid_nickname" "Nickname must be valid UTF-8 and within the configured length."
      bad_request

-- `profile.ProfilePicturePath.Valid && profile.ProfilePicturePath.String != ""`
abbrev pub has_picture : NullString → Bool
has_picture path = path.valid && not (is_empty path.string)

-- A store's "not found" becomes the service's; other errors pass.
abbrev pub or_not_found : Error → Error
or_not_found e = if is_store_not_found e then not_found else e

-- `time.Until(time.Unix(exp, 0))` at a time
abbrev pub seconds : ℤ → ℤ
seconds (pos n) = pos (n * 1_000_000_000)
seconds (negsuc n) = negsuc (suc n * 1_000_000_000 - 1)

module _ {W : Type 0} (s : Service W) where
  unfoldable pub to_protocol_profile : UserProfile → Messages.UserProfile
  to_protocol_profile profile = record {
    id = profile.id;
    username = profile.username;
    nickname = profile.nickname;
    profile_picture_url =
        if has_picture profile.profile_picture_path
        then s.profile_picture_base_url
          ++ ((if contains s.profile_picture_base_url b'?' then codes "&" else codes "?")
              ++ (codes "v=" ++ itoa profile.profile_version))
        else [];
  }

  save_login : Option (SessionStore W) → Bytes → ℕ → ℤ → Exec W (Unit {0})
  unfolding ◌-ℤ◌
  save_login none token user_id exp = pure tt
  save_login (some sessions) token user_id exp = do
    t ← now s.host
    sessions.save_session token user_id (seconds exp -ℤ t)

  start_session : UserAuth → Exec W LoginResult
  start_session user = do
    t ← now s.host
    nonce ← s.host.rand_read 16
    let issued = issue s.host.token_codec s.tokens user.id t nonce
    save_login s.sessions issued.0 user.id issued.1
    profile ← s.store.get_user_profile_by_id user.id
    pure (record { token = issued.0; expires_at = issued.1; user = to_protocol_profile profile })

  check_password : Bytes → UserAuth → Exec W (Unit {0})
  check_password password user = do
    matches ← lift (
        verify_password s.host.pbkdf2 password user.password_salt user.password_hash
          user.password_iter)
    if matches then pure tt else raise invalid_credentials

  find_user : Bytes → Exec W UserAuth
  find_user username =
      try (s.store.get_user_auth_by_username username)
        (λ e. raise (if is_store_not_found e then invalid_credentials else e)) pure

  unfoldable pub login : LoginBody → Exec W LoginResult
  unfolding find_user check_password start_session save_login to_protocol_profile
  login body =
      let username = trim_space body.username in
      if is_empty username || is_empty body.password
      then raise invalid_credentials
      else do user ← find_user username; check_password body.password user; start_session user

  unfoldable pub get_profile : ℕ → Exec W Messages.UserProfile
  unfolding to_protocol_profile is_store_not_found
  get_profile user_id =
      try (s.store.get_user_profile_by_id user_id) (λ e. raise (or_not_found e))
        (λ profile. pure (to_protocol_profile profile))

  unfoldable pub is_valid_nickname : Bytes → Bool
  is_valid_nickname nickname = not (
      is_empty nickname
      || not (valid_string nickname)
      || ltb s.max_nickname_bytes (length nickname))

  unfoldable pub update_nickname : ℕ → Bytes → Exec W Messages.UserProfile
  unfolding to_protocol_profile is_valid_nickname
  update_nickname user_id raw =
      let nickname = trim_space raw in
      if is_valid_nickname nickname
      then try (s.store.update_nickname user_id nickname) (λ e. raise (or_not_found e))
          (λ profile. pure (to_protocol_profile profile))
      else raise invalid_nickname

  delete_login : Option (SessionStore W) → Bytes → Exec W (Unit {0})
  delete_login none token = pure tt
  delete_login (some sessions) token = sessions.delete_session token

  unfoldable pub logout : Bytes → Exec W (Unit {0})
  unfolding delete_login
  logout token = if is_empty (trim_space token) then pure tt else delete_login s.sessions token

  check_session : Option (SessionStore W) → Bytes → ℕ → Exec W ℕ
  check_session none token user_id = pure user_id
  check_session (some sessions) token user_id = do
    stored ← sessions.get_session token
    elim stored [
      | none ↦ raise unauthorized
      | some stored_id ↦ if stored_id == user_id then pure user_id else raise unauthorized
    ]

  unfoldable pub require_user : Bytes → Exec W ℕ
  unfolding check_session
  require_user token = if is_empty (trim_space token) then raise unauthorized else do
    t ← now s.host
    user_id ← lift (verify s.host.token_codec s.tokens token t)
    check_session s.sessions token user_id
