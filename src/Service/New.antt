-- ===== src/Service/New.antt =====
-- internal/service/service.go, `New`: a service from the configuration.
pub mod Sound
use cloud_native_entry_task.Prelude.{ℕ, ◌*◌, Option, Bytes}
use cloud_native_entry_task.GoLib.Errors.{Result, ok, err}
use cloud_native_entry_task.GoLib.Strings.{trim_right}
use cloud_native_entry_task.Config.{profile_picture_dir_abs}
use cloud_native_entry_task.Config.Types.{Config}
use cloud_native_entry_task.Service.Interfaces.{
  Host, UserStore, SessionStore, PictureCache, Service,
}
use cloud_native_entry_task.Service.Token.{TokenManager, new_token_manager}

-- `Options`: what of Redis is there.
pub record Options (W : Type 0) : Type 0 where
  pub sessions : Option (SessionStore W)
  pub picture_cache : Option (PictureCache W)

module _ {W : Type 0} (host : Host W) (decode_hex : Bytes → Option Bytes) (getwd : Result Bytes)
    (store : UserStore W) (cfg : Config) (options : Options W) where
  unfoldable pub service_of : TokenManager → Bytes → Service W
  service_of tokens upload_dir = record {
    host = host;
    store = store;
    sessions = options.sessions;
    picture_cache = options.picture_cache;
    tokens = tokens;
    upload_dir = upload_dir;
    allowed_mimes = cfg.upload.allowed_mime_types;
    max_upload_bytes = cfg.upload.max_bytes;
    profile_picture_base_url = trim_right cfg.http.profile_picture_base_url b'/';
    max_nickname_bytes = 191 * 4;
  }

  unfoldable pub new : Result (Service W)
  unfolding service_of
  new = elim (new_token_manager decode_hex cfg.security.token_secret cfg.security.session_ttl) [
    | err e ↦ err e
    | ok tokens ↦ elim (profile_picture_dir_abs getwd host.file_join cfg) [
      | err e ↦ err e
      | ok upload_dir ↦ ok (service_of tokens upload_dir)
    ]
  ]
