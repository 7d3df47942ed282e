-- ===== src/Config.antt =====
-- internal/config/config.go: `Load`, which reads a file, the environment, and checks the result.
pub mod Types
pub mod Precedence
mod Tests
use cloud_native_entry_task.Prelude.{
  ℕ, Bool, false, ◌==◌, Option, none, some, List, [], ◌∷◌, ◌++◌, Bytes, codes, String, is_empty,
  if◌then◌else◌,
}
use cloud_native_entry_task.Prelude.Int.{ℤ, pos, leb_ℤ}
use cloud_native_entry_task.GoLib.Errors.{Error, Result, ok, err}
use cloud_native_entry_task.Config.Types.{
  DbcpConfig, TcpConfig, HttpConfig, DatabaseConfig, RedisConfig, SecurityConfig, UploadConfig,
  SeedConfig, Config, default_config,
}

-- What the code asks of its surroundings: `os.Getenv`, strconv's and time's parsers (`none` is an
-- error), `os.ReadFile`, and `json.Unmarshal` into a configuration that has values already.
pub record Surroundings : Type 0 where
  pub getenv : String → Bytes
  pub atoi : Bytes → Option ℤ
  pub parse_int : Bytes → Option ℤ
  pub parse_uint32 : Bytes → Option ℕ
  pub parse_duration : Bytes → Option ℤ
  pub read_file : Bytes → Result Bytes
  pub unmarshal : Bytes → Config → Result Config

-- The value in the environment, if it is not empty.
abbrev pub set_string : Bytes → Bytes → Bytes
set_string dst v = if is_empty v then dst else v

-- The same for a value that is parsed: one that does not parse changes nothing.
abbrev pub or_kept {ℓ} : {A : Type ℓ} → A → Option A → A
or_kept dst none = dst
or_kept dst (some parsed) = parsed

abbrev pub set_parsed {ℓ} : {A : Type ℓ} → (Bytes → Option A) → A → Bytes → A
set_parsed parse dst v = if is_empty v then dst else or_kept dst (parse v)

unfoldable pub apply_dbcp : Config → Config
apply_dbcp c = record c {
  database = record c.database { dsn = set_string c.database.dsn c.dbcp.target_db };
  redis = record c.redis { addr = set_string c.redis.addr c.dbcp.target_redis };
}

module _ (o : Surroundings) where
  -- Every variable sets a field of its own.
  read_env : Config → Config
  read_env c = record {
    dbcp = record {
      target_db = set_string c.dbcp.target_db (o.getenv "DBCP_TARGET_DB");
      target_redis = set_string c.dbcp.target_redis (o.getenv "DBCP_TARGET_REDIS");
      service_export_port =
          set_parsed o.atoi c.dbcp.service_export_port (o.getenv "DBCP_SERVICE_EXPORT_PORT");
    };
    tcp = record {
      addr = set_string c.tcp.addr (o.getenv "APP_TCP_ADDR");
      read_timeout =
          set_parsed o.parse_duration c.tcp.read_timeout (o.getenv "APP_TCP_READ_TIMEOUT");
      write_timeout =
          set_parsed o.parse_duration c.tcp.write_timeout (o.getenv "APP_TCP_WRITE_TIMEOUT");
      max_frame_bytes =
          set_parsed o.parse_uint32 c.tcp.max_frame_bytes (o.getenv "APP_TCP_MAX_FRAME_BYTES");
      worker_count = set_parsed o.atoi c.tcp.worker_count (o.getenv "APP_TCP_WORKERS");
      queue_size = set_parsed o.atoi c.tcp.queue_size (o.getenv "APP_TCP_QUEUE_SIZE");
    };
    http = record {
      addr = set_string c.http.addr (o.getenv "APP_HTTP_ADDR");
      tcp_addr = set_string c.http.tcp_addr (o.getenv "APP_HTTP_TCP_ADDR");
      request_timeout =
          set_parsed o.parse_duration c.http.request_timeout (o.getenv "APP_HTTP_REQUEST_TIMEOUT");
      max_body_bytes =
          set_parsed o.parse_int c.http.max_body_bytes (o.getenv "APP_HTTP_MAX_BODY_BYTES");
      cookie_name = set_string c.http.cookie_name (o.getenv "APP_COOKIE_NAME");
      profile_picture_base_url =
          set_string c.http.profile_picture_base_url (o.getenv "APP_PROFILE_PICTURE_BASE_URL");
    };
    database = record {
      dsn = set_string c.database.dsn (o.getenv "APP_DB_DSN");
      max_open_conns =
          set_parsed o.atoi c.database.max_open_conns (o.getenv "APP_DB_MAX_OPEN_CONNS");
      max_idle_conns =
          set_parsed o.atoi c.database.max_idle_conns (o.getenv "APP_DB_MAX_IDLE_CONNS");
      conn_max_lifetime =
          set_parsed o.parse_duration c.database.conn_max_lifetime
            (o.getenv "APP_DB_CONN_MAX_LIFETIME");
    };
    redis = record {
      addr = set_string c.redis.addr (o.getenv "APP_REDIS_ADDR");
      password = set_string c.redis.password (o.getenv "APP_REDIS_PASSWORD");
      db = set_parsed o.atoi c.redis.db (o.getenv "APP_REDIS_DB");
      key_prefix = set_string c.redis.key_prefix (o.getenv "APP_REDIS_KEY_PREFIX");
      dial_timeout =
          set_parsed o.parse_duration c.redis.dial_timeout (o.getenv "APP_REDIS_DIAL_TIMEOUT");
      io_timeout = set_parsed o.parse_duration c.redis.io_timeout (o.getenv "APP_REDIS_IO_TIMEOUT");
    };
    security = record {
      token_secret = set_string c.security.token_secret (o.getenv "APP_TOKEN_SECRET");
      password_iterations =
          set_parsed o.atoi c.security.password_iterations (o.getenv "APP_PASSWORD_ITERATIONS");
      session_ttl = set_parsed o.parse_duration c.security.session_ttl (o.getenv "APP_SESSION_TTL");
    };
    upload = record {
      profile_picture_dir =
          set_string c.upload.profile_picture_dir (o.getenv "APP_PROFILE_PICTURE_DIR");
      max_bytes = set_parsed o.parse_int c.upload.max_bytes (o.getenv "APP_UPLOAD_MAX_BYTES");
      allowed_mime_types = c.upload.allowed_mime_types;
    };
    seed = record {
      count = set_parsed o.atoi c.seed.count (o.getenv "APP_SEED_COUNT");
      batch_size = set_parsed o.atoi c.seed.batch_size (o.getenv "APP_SEED_BATCH_SIZE");
      concurrency = set_parsed o.atoi c.seed.concurrency (o.getenv "APP_SEED_CONCURRENCY");
      default_password = set_string c.seed.default_password (o.getenv "APP_SEED_DEFAULT_PASSWORD");
    };
  }

  unfoldable pub apply_env : Config → Config
  unfolding read_env apply_dbcp
  apply_env c = apply_dbcp (read_env c)

  -- The configuration in a file, or the defaults where no file is named.
  unfoldable pub config_of : Bytes → Result Config
  config_of path = if is_empty path then ok default_config else elim (o.read_file path) [
    | err e ↦ err e
    | ok content ↦ o.unmarshal content default_config
  ]

abbrev pub when_empty : Bytes → String → List String
when_empty v name = if is_empty v then name ∷ [] else []

-- The names of the required values that are missing.
unfoldable pub missing : Config → List String
missing c =
    when_empty c.tcp.addr "tcp.addr"
    ++ (when_empty c.http.addr "http.addr"
        ++ (when_empty c.http.tcp_addr "http.tcp_addr"
            ++ (when_empty c.database.dsn "database.dsn"
                ++ when_empty c.security.token_secret "security.token_secret")))

pub data Invalid : Type 0 where
  missing_required : List String → Invalid
  no_frame_bytes no_upload_bytes : Invalid
  failed : Error → Invalid

-- The result of `Validate`; `none` stands for `nil`.
unfoldable pub validate : Config → Option Invalid
unfolding missing
validate c = elim (missing c) [
  | x ∷ xs ↦ some (missing_required (x ∷ xs))
  | [] ↦
      if c.tcp.max_frame_bytes == 0
      then some no_frame_bytes
      else if leb_ℤ c.upload.max_bytes (pos 0)
      then some no_upload_bytes
      else none
]

pub data Loaded : Type 0 where
  loaded : Config → Loaded
  invalid : Invalid → Loaded

checked : Config → Option Invalid → Loaded
checked c none = loaded c
checked c (some e) = invalid e

-- `Load`
unfoldable pub load : Surroundings → Bytes → Loaded
unfolding checked
load o path = elim (config_of o path) [
  | err e ↦ invalid (failed e)
  | ok c ↦ let c' = apply_env o (apply_dbcp c) in checked c' (validate c')
]

-- `filepath.IsAbs`, on Unix
unfoldable pub is_abs : Bytes → Bool
is_abs [] = false
is_abs (c ∷ path) = c == b'/'

-- `Config.ProfilePictureDirAbs`; `os.Getwd` and `filepath.Join` are parameters.
unfoldable pub profile_picture_dir_abs :
    Result Bytes → (Bytes → Bytes → Bytes) → Config → Result Bytes
unfolding is_abs
profile_picture_dir_abs getwd join c =
    let dir = c.upload.profile_picture_dir in
    if is_abs dir then ok dir else elim getwd [ err e ↦ err e | ok wd ↦ ok (join wd dir) ]
