-- ===== src/Service/Handle.antt =====
-- internal/service/service.go: `Handle`, which dispatches a request of the TCP protocol.
pub mod Guard
use cloud_native_entry_task.Prelude.{
  ℕ, Bool, true, false, Option, none, some, List, [], ◌∷◌, Bytes, codes, String, str_eq,
  if◌then◌else◌, is_empty,
}
use cloud_native_entry_task.Protocol.Messages
use cloud_native_entry_task.Protocol.Messages.{
  Request, LoginBody, LoginResult, UpdateNicknameBody, UploadProfilePictureBody,
  ProfilePictureResult, op_login, op_get_profile, op_get_profile_picture, op_update_nickname,
  op_upload_profile_picture, op_logout,
}
use cloud_native_entry_task.GoLib.Errors.{Error, bad_request, external, app_error, Result, ok, err}
use cloud_native_entry_task.GoLib.Exec.{Exec, pure, raise, try, ◌>>=◌, ◌>>◌}
use cloud_native_entry_task.Service.Interfaces.{Service}
use cloud_native_entry_task.Service.Account.{
  login, get_profile, update_nickname, logout, require_user,
}
use cloud_native_entry_task.Service.Picture.{get_profile_picture, upload_profile_picture}

-- encoding/json at the bodies: `json.Unmarshal`, where `none` is an error, and `json.Marshal`.
pub record BodyCodec : Type 0 where
  pub unmarshal_login : Bytes → Option LoginBody
  pub unmarshal_nickname : Bytes → Option UpdateNicknameBody
  pub unmarshal_upload : Bytes → Option UploadProfilePictureBody
  pub marshal_login : LoginResult → Bytes
  pub marshal_profile : Messages.UserProfile → Bytes
  pub marshal_picture : ProfilePictureResult → Bytes

-- The cause inside an error is `ErrBadRequest` for an empty body, else the JSON decoder's.
abbrev pub syntax_error : Error
syntax_error = external 2

abbrev pub bad_body : String → Error → Error
bad_body message cause = app_error "bad_request" message cause

unfoldable pub decode_body {ℓ} : {A : Type ℓ} → (Bytes → Option A) → Bytes → Result A
decode_body unmarshal raw =
    if is_empty raw
    then err bad_request
    else elim (unmarshal raw) [ none ↦ err syntax_error | some a ↦ ok a ]

-- A body that does not decode ends the request with a message of its own.
abbrev pub with_body : {W A B : Type 0} → String → Result A → (A → Exec W B) → Exec W B
with_body message (ok a) f = f a
with_body message (err e) f = raise (bad_body message e)

abbrev pub unknown_operation : Error
unknown_operation = app_error "unknown_operation" "Unknown TCP operation." bad_request

module _ {W : Type 0} (s : Service W) (c : BodyCodec) where
  -- `marshal(v, err)`
  abbrev marshal : {A : Type 0} → (A → Bytes) → Exec W A → Exec W Bytes
  marshal write m = do a ← m; pure (write a)

  unfoldable pub handle : Request → Exec W Bytes
  unfolding decode_body
  handle req =
      if str_eq req.op op_login
      then with_body "Invalid login body." (decode_body c.unmarshal_login req.body)
          (λ body. marshal c.marshal_login (login s body))
      else if str_eq req.op op_get_profile
      then (do
        user_id ← require_user s req.token
        marshal c.marshal_profile (get_profile s user_id))
      else if str_eq req.op op_get_profile_picture
      then (do
        user_id ← require_user s req.token
        marshal c.marshal_picture (get_profile_picture s user_id))
      else if str_eq req.op op_update_nickname
      then (do
        user_id ← require_user s req.token
        with_body "Invalid nickname body." (decode_body c.unmarshal_nickname req.body)
            (λ body. marshal c.marshal_profile (update_nickname s user_id body.nickname)))
      else if str_eq req.op op_upload_profile_picture
      then (do
        user_id ← require_user s req.token
        with_body "Invalid upload body." (decode_body c.unmarshal_upload req.body)
            (λ body. marshal c.marshal_profile (upload_profile_picture s user_id body)))
      else if str_eq req.op op_logout
      then (do logout s req.token; pure (codes "{}"))
      else raise unknown_operation
