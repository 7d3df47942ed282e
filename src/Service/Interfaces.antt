-- ===== src/Service/Interfaces.antt =====
-- What the service is built from: the interfaces that service.go declares, over a world `W`, and the
-- parts of Go's library that reach outside (clock, random bytes, files, the host's MIME tables).
use cloud_native_entry_task.Prelude.{ℕ, Option, List, Bytes}
use cloud_native_entry_task.Prelude.Int.{ℤ}
use cloud_native_entry_task.Prelude.{◌^◌, ◌<◌, ◌≡◌, some, none, bytes_eq, if◌then◌else◌}
use cloud_native_entry_task.GoLib.Errors.{Result, ok}
use cloud_native_entry_task.GoLib.Exec.{Exec}
use cloud_native_entry_task.Service.Token.{TokenManager, TokenCodec}
use cloud_native_entry_task.Service.Password.{Pbkdf2}
use cloud_native_entry_task.Store.Mysql.{UserAuth, UserProfile}

pub record UserStore (W : Type 0) : Type 0 where
  pub get_user_auth_by_username : Bytes → Exec W UserAuth
  pub get_user_profile_by_id : ℕ → Exec W UserProfile
  pub update_nickname : ℕ → Bytes → Exec W UserProfile
  pub update_profile_picture : ℕ → Bytes → Bytes → ℕ → Exec W UserProfile

-- `none` stands for a result `(0, false, nil)`.
pub record SessionStore (W : Type 0) : Type 0 where
  pub save_session : Bytes → ℕ → ℤ → Exec W (Unit {0})
  pub get_session : Bytes → Exec W (Option ℕ)
  pub delete_session : Bytes → Exec W (Unit {0})

-- What the service relies on in a session store: the session that each token has in a world, by a key
-- of the token; it is as last saved, until it is deleted.
pub record IsSessionStore {W : Type 0} (st : SessionStore W) (key : Bytes → Bytes)
    (session : W → Bytes → Result (Option ℕ)) : Type 0 where
  pub get :
      (token : Bytes) (w : W)
      → ((st.get_session token w).0 ≡ session w token)
        × ((t : Bytes) → session (st.get_session token w).1 t ≡ session w t)
  pub save :
      (token : Bytes) (id : ℕ) (ttl : ℤ) (w w' : W)
      → id < 2 ^ 64
      → st.save_session token id ttl w ≡ (ok tt, w')
      → (t : Bytes)
      → session w' t ≡ (if bytes_eq (key t) (key token) then ok (some id) else session w t)
  pub delete :
      (token : Bytes) (w w' : W)
      → st.delete_session token w ≡ (ok tt, w')
      → (t : Bytes) → session w' t ≡ (if bytes_eq (key t) (key token) then ok none else session w t)

pub record PictureCache (W : Type 0) : Type 0 where
  pub save_profile_picture : ℕ → ℕ → Bytes → Bytes → Exec W (Unit {0})
  pub get_profile_picture : ℕ → ℕ → Exec W (Option (Bytes × Bytes))
  pub delete_profile_picture : ℕ → ℕ → Exec W (Unit {0})

pub record Host (W : Type 0) : Type 0 where
  -- `time.Now`, in nanoseconds
  pub clock : W → ℤ × W
  pub rand_read : ℕ → Exec W Bytes
  pub mkdir_all : Bytes → Exec W (Unit {0})
  pub write_file : Bytes → Bytes → Exec W (Unit {0})
  pub remove : Bytes → Exec W (Unit {0})
  pub read_file : Bytes → Exec W Bytes
  pub file_join : Bytes → Bytes → Bytes
  pub file_dir : Bytes → Bytes
  pub file_clean : Bytes → Bytes
  pub detect_content_type : Bytes → Bytes
  -- `mime.ExtensionsByType`; `none` stands for an error
  pub extensions_by_type : Bytes → Option (List Bytes)
  pub pbkdf2 : Pbkdf2
  pub token_codec : TokenCodec

pub record Service (W : Type 0) : Type 0 where
  pub host : Host W
  pub store : UserStore W
  pub sessions : Option (SessionStore W)
  pub picture_cache : Option (PictureCache W)
  pub tokens : TokenManager
  pub upload_dir : Bytes
  pub allowed_mimes : List Bytes
  pub max_upload_bytes : ℤ
  pub profile_picture_base_url : Bytes
  pub max_nickname_bytes : ℕ

abbrev pub now : {W : Type 0} → Host W → Exec W ℤ
now host w = let (t, w') = host.clock w in (ok t, w')
