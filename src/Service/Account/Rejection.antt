-- ===== src/Service/Account/Rejection.antt =====
-- What a login that fails tells, and what it leaves undone.
use cloud_native_entry_task.Prelude.{◌≡◌, true, false, is_empty, ◌||◌, if◌then◌else◌}
use cloud_native_entry_task.GoLib.Strings.{trim_space}
use cloud_native_entry_task.Protocol.Messages.{LoginBody}
use cloud_native_entry_task.GoLib.Errors.{Error, is_store_not_found, ok, err}
use cloud_native_entry_task.Service.Password.{verify_password}
use cloud_native_entry_task.Service.Interfaces.{Service}
use cloud_native_entry_task.Service.Account.{invalid_credentials, login}
use cloud_native_entry_task.Store.Mysql.{UserAuth}

module _ {W : Type 0} (s : Service W) (body : LoginBody) (w : W) where
  -- The ways to give wrong credentials: a blank name or password, a name that the store does not
  -- know, a password that does not verify.
  pub data IsWrong : Type 0 where
    blank : (is_empty (trim_space body.username) || is_empty body.password) ≡ true → IsWrong
    unknown :
        (e : Error)
        → (is_empty (trim_space body.username) || is_empty body.password) ≡ false
        → (s.store.get_user_auth_by_username (trim_space body.username) w).0 ≡ err e
        → is_store_not_found e ≡ true
        → IsWrong
    mismatch :
        (user : UserAuth)
        → (is_empty (trim_space body.username) || is_empty body.password) ≡ false
        → (s.store.get_user_auth_by_username (trim_space body.username) w).0 ≡ ok user
        → verify_password s.host.pbkdf2 body.password user.password_salt user.password_hash
            user.password_iter
          ≡ ok false
        → IsWrong

  -- Wrong credentials of every kind give the same error, and nothing is done but the lookup: no
  -- token is issued and no session is saved.
  pub login_wrong :
      IsWrong
      → login s body w ≡ (
        err invalid_credentials,
        if is_empty (trim_space body.username) || is_empty body.password
            then w
            else (s.store.get_user_auth_by_username (trim_space body.username) w).1,
      )
  unfolding login
  login_wrong (blank h) = rw (h, login)
  login_wrong (unknown e given missing known) = rw (given, login, missing, known)
  login_wrong (mismatch user given found wrong) = rw (given, login, found, wrong)
