-- ===== src/Service/Sample.antt =====
-- A small concrete service: one user, one remembered session, and a file system of one file.
use cloud_native_entry_task.Prelude.{
  ◌≡◌, refl, sym, ap, ◌∙◌, inl, inr, Bool-cases, ℕ, false, Option, none, some, [], ◌∷◌, ◌++◌, Bytes,
  codes, length, replicate, bytes_eq, ◌==◌, if◌then◌else◌,
}
use cloud_native_entry_task.Prelude.Int.{pos}
use cloud_native_entry_task.GoLib.Errors.{store_not_found, not_exist, Result, ok, err}
use cloud_native_entry_task.GoLib.Exec.{pure, raise}
use cloud_native_entry_task.Protocol.Messages.{LoginBody}
use cloud_native_entry_task.Service.Token.{TokenManager}
use cloud_native_entry_task.Service.Token.Sample.{sample}
use cloud_native_entry_task.Service.Handle.{BodyCodec}
use cloud_native_entry_task.Service.Interfaces.{
  UserStore, IsSessionStore, SessionStore, Host, Service,
}
use cloud_native_entry_task.Store.Mysql.{UserAuth, UserProfile}

pub record World : Type 0 where
  pub time : ℕ
  pub nickname : Bytes
  pub session : Bytes → Option ℕ
  pub file : Option (Bytes × Bytes)

abbrev pub no_bytes : Bytes
no_bytes = []

abbrev pub user : UserAuth
user = record {
  id = 7;
  username = codes "user_0000007";
  nickname = codes "Seven";
  password_salt = replicate 16 9;
  password_hash = replicate 32 5;
  password_iter = pos 1000;
  profile_picture_path = record { valid = false; string = [] };
  profile_picture_version = 0;
}

abbrev pub profile : World → UserProfile
profile w = record {
  id = 7;
  username = codes "user_0000007";
  nickname = w.nickname;
  profile_picture_path = record { valid = false; string = [] };
  profile_picture_mime = record { valid = false; string = [] };
  profile_picture_size = 0;
  profile_version = 0;
}

-- A key that repeats the length of the password.
abbrev pub host : Host World
host = record {
  clock = λ w. (pos w.time, w);
  rand_read = λ n. pure (replicate n 3);
  mkdir_all = λ path. pure tt;
  write_file = λ path content w. (ok tt, record w { file = some (path, content) });
  remove = λ path w. (ok tt, record w { file = none });
  read_file = λ path. raise not_exist;
  file_join = λ a b. a ++ (b'/' ∷ b);
  file_dir = λ path. path;
  file_clean = λ path. path;
  detect_content_type = λ content. codes "image/png";
  extensions_by_type = λ content_type. some (codes ".png" ∷ []);
  pbkdf2 = λ password salt iterations n. ok (replicate n (length password));
  token_codec = sample;
}

-- The row of the picture is never updated.
abbrev pub store : UserStore World
store = record {
  get_user_auth_by_username =
      λ name. if bytes_eq name user.username then pure user else raise store_not_found;
  get_user_profile_by_id =
      λ id w. if id == 7 then (ok (profile w), w) else (err store_not_found, w);
  update_nickname = λ id nickname w.
      if id == 7
      then (ok (profile (record w { nickname = nickname })), record w { nickname = nickname })
      else (err store_not_found, w);
  update_profile_picture = λ id path mime size. raise store_not_found;
}

abbrev pub put_session : Bytes → Option ℕ → (Bytes → Option ℕ) → Bytes → Option ℕ
put_session token v session t = if bytes_eq t token then v else session t

abbrev pub sessions : SessionStore World
sessions = record {
  save_session =
      λ token id ttl w. (ok tt, record w { session = put_session token (some id) w.session });
  get_session = λ token w. (ok (w.session token), w);
  delete_session = λ token w. (ok tt, record w { session = put_session token none w.session });
}

-- The key of a token is the token.
abbrev pub sample_key : Bytes → Bytes
sample_key token = token

abbrev pub sample_session : World → Bytes → Result (Option ℕ)
sample_session w token = ok (w.session token)

put_session_cases :
    (token t : Bytes) (v : Option ℕ) (session : Bytes → Option ℕ)
    → ◌≡◌ {A = Result (Option ℕ)}
        (ok (put_session token v session t))
        (if bytes_eq t token then ok v else ok (session t))
put_session_cases token t v session = elim (Bool-cases (bytes_eq t token)) [
  | inl e ↦ rw e refl
  | inr e ↦ rw e refl
]

pub sessions-IsSessionStore : IsSessionStore sessions sample_key sample_session
sessions-IsSessionStore = record {
  get = λ token w. (refl, λ t. refl);
  save = λ token id ttl w w' small saved t.
      ap (λ (r : Result (Unit {0}) × World). sample_session r.1 t) (sym saved)
      ∙ put_session_cases token t (some id) w.session;
  delete = λ token w w' deleted t.
      ap (λ (r : Result (Unit {0}) × World). sample_session r.1 t) (sym deleted)
      ∙ put_session_cases token t none w.session;
}

abbrev pub manager : TokenManager
manager = record { secret = codes "0123456789abcdef"; ttl = pos 60_000_000_000 }

abbrev pub service : Service World
service = record {
  host = host;
  store = store;
  sessions = some sessions;
  picture_cache = none;
  tokens = manager;
  upload_dir = codes "runtime";
  allowed_mimes = codes "image/png" ∷ [];
  max_upload_bytes = pos 16;
  profile_picture_base_url = codes "/api/me/profile-picture";
  max_nickname_bytes = 8;
}

abbrev pub world : World
world = record {
  time = 5_000_000_000;
  nickname = codes "Seven";
  session = λ token. none;
  file = none;
}

abbrev pub right_login : LoginBody
right_login = record { username = codes " user_0000007"; password = codes "Pass!" }

abbrev pub wrong_login : LoginBody
wrong_login = record { username = codes "user_0000007"; password = codes "Password" }

abbrev pub no_json : BodyCodec
no_json = record {
  unmarshal_login = λ raw. none;
  unmarshal_nickname = λ raw. none;
  unmarshal_upload = λ raw. none;
  marshal_login = λ result. [];
  marshal_profile = λ profile. [];
  marshal_picture = λ picture. [];
}
