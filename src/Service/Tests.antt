-- ===== src/Service/Tests.antt =====
-- Runs of the sample service.
use cloud_native_entry_task.Prelude.{
  ◌≢◌, ◌≡◌, ◌↔◌, ap, if◌then◌else◌, refl, inl, true, false, none, some, [], ◌∷◌, Bytes, codes,
  arith, is_empty, bytes_eq,
}
use cloud_native_entry_task.Prelude.Int.{ℤ, pos, leb_ℤ}
use cloud_native_entry_task.GoLib.Errors.{unauthorized, ok, err}
use cloud_native_entry_task.GoLib.Strings.{trim_space}
use cloud_native_entry_task.Protocol.Messages.{
  Request, LoginResult, UploadProfilePictureBody, op_get_profile,
}
use cloud_native_entry_task.Service.Token.{issue, verify, unix}
use cloud_native_entry_task.Service.Token.Sample.{sample, sample-TokenCodecLaws}
use cloud_native_entry_task.Service.Password.{verify_password}
use cloud_native_entry_task.Service.Account.{
  invalid_credentials, to_protocol_profile, login, logout, require_user,
}
use cloud_native_entry_task.Service.Account.Sessions.{
  SessionAgrees, Started, require_user_iff, login_sound,
}
use cloud_native_entry_task.Service.Account.Revocation.{logout_revokes}
use cloud_native_entry_task.Service.Account.Rejection.{mismatch, login_wrong}
use cloud_native_entry_task.Service.Picture.Upload.{UploadCases, upload_cases}
use cloud_native_entry_task.Service.Handle.{handle}
use cloud_native_entry_task.Service.Handle.Guard.{handle-require_user}
use cloud_native_entry_task.Service.Sample.{
  World, put_session, sessions, sample_key, sample_session, sessions-IsSessionStore, user, profile,
  service, world, no_json, right_login, wrong_login,
}

require_user_iff_example : (require_user service (codes "a.b") world ≡ (ok 7, world)) ↔ (
    (is_empty (trim_space (codes "a.b")) ≡ false)
    × (verify sample service.tokens (codes "a.b") (pos 5_000_000_000) ≡ ok 7)
    × SessionAgrees service service.sessions (codes "a.b") 7 world world)
require_user_iff_example = require_user_iff service (codes "a.b") world world 7

abbrev picture : UploadProfilePictureBody
picture = record {
  file_name = codes "a.png";
  content_type = codes "image/png";
  data_base64 = codes "AAEC";
}

upload_cases_example : UploadCases service picture 7 world
upload_cases_example = upload_cases service picture 7 world

login_wrong_example : login service wrong_login world ≡ (err invalid_credentials, world)
unfolding is_empty bytes_eq trim_space
login_wrong_example =
    login_wrong service wrong_login world (mismatch user refl refl (unfold verify_password in refl))

abbrev issued : Bytes × ℤ
issued =
    issue sample service.tokens 7 (pos 5_000_000_000)
      (3 ∷ 3 ∷ 3 ∷ 3 ∷ 3 ∷ 3 ∷ 3 ∷ 3 ∷ 3 ∷ 3 ∷ 3 ∷ 3 ∷ 3 ∷ 3 ∷ 3 ∷ 3 ∷ [])

abbrev logged_in : LoginResult
logged_in = record {
  token = issued.0;
  expires_at = issued.1;
  user = to_protocol_profile service (profile world);
}

login_right :
    login service right_login world
    ≡ (ok logged_in, record world { session = put_session issued.0 (some 7) world.session })
unfolding login trim_space verify_password is_empty bytes_eq
login_right = refl

login_sound_example :
    (verify_password service.host.pbkdf2 right_login.password user.password_salt user.password_hash
        user.password_iter
      ≡ ok true)
    × (verify sample service.tokens issued.0 (pos 6_000_000_000)
        ≡ (if leb_ℤ issued.1 (unix (pos 6_000_000_000)) then err unauthorized else ok 7))
    × Started service 7 logged_in
        (record world { session = put_session issued.0 (some 7) world.session })
unfolding bytes_eq trim_space
login_sound_example =
    login_sound service right_login world
      (record world { session = put_session issued.0 (some 7) world.session }) logged_in user
      (pos 6_000_000_000) sample-TokenCodecLaws refl (omega arith) login_right

abbrev anonymous : Request
anonymous = record {
  version = 1;
  request_id = [];
  op = op_get_profile;
  token = codes " ";
  body = [];
}

refused : require_user service (codes " ") world ≡ (err unauthorized, world)
unfolding require_user trim_space is_empty
refused = refl

handle-require_user_example :
    handle service no_json anonymous world
    ≡ (err unauthorized, (require_user service (codes " ") world).1)
handle-require_user_example =
    handle-require_user service no_json anonymous world unauthorized (inl refl)
      (ap (λ q. q.0) refused)

abbrev logged_in_world : World
logged_in_world = record world { session = put_session issued.0 (some 7) world.session }

logged_out :
    logout service (codes "abc") world
    ≡ (ok tt, record world { session = put_session (codes "abc") none world.session })
unfolding logout trim_space is_empty
logged_out = refl

logout_revokes_example :
    require_user service
      (codes "abc")
      (record world { session = put_session (codes "abc") none world.session })
    ≢ (ok 7, world)
logout_revokes_example =
    logout_revokes service sessions sample_key sample_session refl sessions-IsSessionStore
      (λ w t. refl) (codes "abc") world
      (record world { session = put_session (codes "abc") none world.session }) world 7 logged_out
