-- ===== src/Gateway/Http.antt =====
-- net/http as internal/httpapi uses it: requests, cookies and what a handler writes.
use cloud_native_entry_task.Prelude.{ℕ, Bool, Option, List, Bytes, String}
use cloud_native_entry_task.Prelude.Int.{ℤ}
use cloud_native_entry_task.Protocol.Messages.{
  LoginBody, LoginResult, UserProfile, UpdateNicknameBody, UploadProfilePictureBody,
  ProfilePictureResult,
}

-- A part of a multipart form, with its `Content-Type` header; reading it may fail with a text.
pub record UploadedFile : Type 0 where
  pub file_name : Bytes
  pub content_type : Bytes
  pub content : Bytes
  pub read_error : Option String

-- The deadline that is left of the request's context, the cookies by name, and the body.
pub record HttpRequest : Type 0 where
  pub remaining : Option ℤ
  pub cookie : Bytes → Option Bytes
  pub body : Bytes

pub record Cookie : Type 0 where
  pub name : Bytes
  pub value : Bytes
  pub path : Bytes
  pub http_only : Bool
  pub same_site_lax : Bool
  pub expires : Option ℤ
  pub max_age : ℤ

pub record HttpResponse : Type 0 where
  pub status : ℕ
  pub headers : List (String × Bytes)
  pub cookies : List Cookie
  pub body : Bytes

-- encoding/json at the bodies of requests and responses, where the decoders of requests refuse
-- unknown fields, and the form and the content type that net/http reads.
pub record WebCodec : Type 0 where
  pub decode_login : Bytes → Option LoginBody
  pub decode_nickname : Bytes → Option UpdateNicknameBody
  -- `ParseMultipartForm`, then `FormFile("picture")`
  pub parse_form : ℤ → Bytes → Option (Option UploadedFile)
  pub detect_content_type : Bytes → Bytes
  pub marshal_login : LoginBody → Bytes
  pub marshal_nickname : UpdateNicknameBody → Bytes
  pub marshal_upload : UploadProfilePictureBody → Bytes
  pub unmarshal_login : Bytes → Option LoginResult
  pub unmarshal_profile : Bytes → Option UserProfile
  pub unmarshal_picture : Bytes → Option ProfilePictureResult
  pub encode_login : LoginResult → Bytes
  pub encode_profile : UserProfile → Bytes
  pub encode_error : String → String → Bytes
  pub encode_ok : Bytes
