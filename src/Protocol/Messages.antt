-- ===== src/Protocol/Messages.antt =====
-- internal/protocol/protocol.go: the messages of the TCP protocol and their bodies. Their JSON forms
-- are encoding/json's, and a parameter of the code that uses them.
use cloud_native_entry_task.Prelude.{ℕ, Bool, Bytes, String}
use cloud_native_entry_task.Prelude.Int.{ℤ}

abbrev pub version : ℕ
version = 1

abbrev pub op_login : String
op_login = "Login"

abbrev pub op_get_profile : String
op_get_profile = "GetProfile"

abbrev pub op_get_profile_picture : String
op_get_profile_picture = "GetProfilePicture"

abbrev pub op_update_nickname : String
op_update_nickname = "UpdateNickname"

abbrev pub op_upload_profile_picture : String
op_upload_profile_picture = "UploadProfilePicture"

abbrev pub op_logout : String
op_logout = "Logout"

pub record Request : Type 0 where
  pub version : ℕ
  pub request_id : Bytes
  pub op : String
  pub token : Bytes
  pub body : Bytes

pub record Response : Type 0 where
  pub version : ℕ
  pub request_id : Bytes
  pub ok : Bool
  pub error_code : String
  pub message : String
  pub body : Bytes

pub record LoginBody : Type 0 where
  pub username : Bytes
  pub password : Bytes

pub record UserProfile : Type 0 where
  pub id : ℕ
  pub username : Bytes
  pub nickname : Bytes
  pub profile_picture_url : Bytes

pub record LoginResult : Type 0 where
  pub token : Bytes
  pub expires_at : ℤ
  pub user : UserProfile

pub record UpdateNicknameBody : Type 0 where
  pub nickname : Bytes

pub record UploadProfilePictureBody : Type 0 where
  pub file_name : Bytes
  pub content_type : Bytes
  pub data_base64 : Bytes

pub record ProfilePictureResult : Type 0 where
  pub content_type : Bytes
  pub data_base64 : Bytes
