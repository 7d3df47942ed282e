-- ===== src/Gateway/Responses.antt =====
-- internal/httpapi/server.go: what the handlers read of a request, and the responses they write.
use cloud_native_entry_task.Prelude.{
  ℕ, true, Option, none, some, [], ◌∷◌, Bytes, String, codes, length, take, if◌then◌else◌, is_empty,
}
use cloud_native_entry_task.Prelude.Int.{pos, negsuc, pos_part, leb_ℤ, ◌+ℤ◌}
use cloud_native_entry_task.GoLib.Base64.{std, encode, decode}
use cloud_native_entry_task.GoLib.Strings.{trim_space}
use cloud_native_entry_task.Config.Types.{HttpConfig}
use cloud_native_entry_task.Protocol.Messages.{
  UserProfile, LoginResult, ProfilePictureResult, UploadProfilePictureBody,
}
use cloud_native_entry_task.Gateway.Http.{UploadedFile, HttpRequest, Cookie, HttpResponse, WebCodec}
use cloud_native_entry_task.Gateway.Client.{Target, CallError, remote}
use cloud_native_entry_task.Gateway.Status.{
  status_for, status_ok, status_bad_request, status_unauthorized, status_internal_error,
  status_bad_gateway,
}

abbrev zero_profile : UserProfile
zero_profile = record { id = 0; username = []; nickname = []; profile_picture_url = [] }

-- The uploaded file, or why it cannot be sent.
pub data Upload : Type 0 where
  accepted : UploadProfilePictureBody → Upload
  rejected : String → Upload

module _ (cfg : HttpConfig) (web : WebCodec) where
  abbrev pub write_json : ℕ → Bytes → HttpResponse
  write_json status content = record {
    status = status;
    headers = ("Content-Type", codes "application/json; charset=utf-8") ∷ [];
    cookies = [];
    body = content;
  }

  abbrev pub write_protocol_error : ℕ → String → String → HttpResponse
  write_protocol_error status code message = write_json status (web.encode_error code message)

  unfoldable pub write_error : CallError → HttpResponse
  write_error (remote code message) = write_protocol_error (status_for code) code message
  write_error _ =
      write_protocol_error status_bad_gateway "tcp_backend_unavailable"
        "Backend service is unavailable."

  abbrev pub unauthenticated : HttpResponse
  unauthenticated =
      write_protocol_error status_unauthorized "unauthorized" "Authentication required."

  unfoldable pub token_from_cookie : HttpRequest → Option Bytes
  token_from_cookie r = elim (r.cookie cfg.cookie_name) [
    | none ↦ none
    | some value ↦ if is_empty (trim_space value) then none else some value
  ]

  -- What `MaxBytesReader` lets through of the body.
  abbrev pub limited_body : HttpRequest → Bytes
  limited_body r = take (pos_part cfg.max_body_bytes) r.body

  abbrev pub bad_json_body : HttpResponse
  bad_json_body = write_protocol_error status_bad_request "bad_request" "Invalid JSON body."

  unfoldable pub upload_body : UploadedFile → Upload
  upload_body file =
      let data_read = take (pos_part (cfg.max_body_bytes +ℤ pos 1)) file.content in
      elim file.read_error [
        | some message ↦ rejected message
        | none ↦
            if leb_ℤ (pos (length data_read)) cfg.max_body_bytes
            then accepted (record {
              file_name = file.file_name;
              content_type =
                  if is_empty file.content_type
                  then web.detect_content_type data_read
                  else file.content_type;
              data_base64 = encode std data_read;
            })
            else rejected "uploaded file is too large"
      ]

  abbrev pub session_cookie : LoginResult → Cookie
  session_cookie result = record {
    name = cfg.cookie_name;
    value = result.token;
    path = codes "/";
    http_only = true;
    same_site_lax = true;
    expires = some result.expires_at;
    max_age = pos 0;
  }

  -- The browser drops the cookie.
  abbrev pub cleared_cookie : Cookie
  cleared_cookie = record {
    name = cfg.cookie_name;
    value = [];
    path = codes "/";
    http_only = true;
    same_site_lax = true;
    expires = none;
    max_age = negsuc 0;
  }

  abbrev pub login_response : LoginResult → HttpResponse
  login_response result = record (write_json status_ok (web.encode_login result)) {
    cookies = session_cookie result ∷ [];
  }

  unfoldable pub picture_response : ProfilePictureResult → HttpResponse
  picture_response result = elim (decode std result.data_base64) [
    | none ↦
        write_protocol_error status_internal_error "invalid_picture_cache"
          "Profile picture data is invalid."
    | some content ↦ record {
      status = status_ok;
      headers =
          ("Content-Type", result.content_type)
          ∷ ("Cache-Control", codes "private, max-age=300")
          ∷ [];
      cookies = [];
      body = content;
    }
  ]

  abbrev pub profile_response : UserProfile → HttpResponse
  profile_response profile = write_json status_ok (web.encode_profile profile)

  abbrev pub ok_response : HttpResponse
  ok_response = write_json status_ok web.encode_ok

  abbrev pub to_login : Target LoginResult
  to_login = record {
    zero_value = record { token = []; expires_at = pos 0; user = zero_profile };
    unmarshal = some web.unmarshal_login;
  }

  abbrev pub to_profile : Target UserProfile
  to_profile = record { zero_value = zero_profile; unmarshal = some web.unmarshal_profile }

  abbrev pub to_picture : Target ProfilePictureResult
  to_picture = record {
    zero_value = record { content_type = []; data_base64 = [] };
    unmarshal = some web.unmarshal_picture;
  }

  abbrev pub nowhere : Target (Unit {0})
  nowhere = record { zero_value = tt; unmarshal = none }
