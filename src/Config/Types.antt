-- ===== src/Config/Types.antt =====
-- internal/config/config.go: the configuration and its defaults.
use cloud_native_entry_task.Prelude.{ℕ, List, [], ◌∷◌, Bytes, codes}
use cloud_native_entry_task.Prelude.Int.{ℤ, pos}

-- A duration is a number of nanoseconds.
pub record DbcpConfig : Type 0 where
  pub target_db : Bytes
  pub target_redis : Bytes
  pub service_export_port : ℤ

pub record TcpConfig : Type 0 where
  pub addr : Bytes
  pub read_timeout : ℤ
  pub write_timeout : ℤ
  pub max_frame_bytes : ℕ
  pub worker_count : ℤ
  pub queue_size : ℤ

pub record HttpConfig : Type 0 where
  pub addr : Bytes
  pub tcp_addr : Bytes
  pub request_timeout : ℤ
  pub max_body_bytes : ℤ
  pub cookie_name : Bytes
  pub profile_picture_base_url : Bytes

pub record DatabaseConfig : Type 0 where
  pub dsn : Bytes
  pub max_open_conns : ℤ
  pub max_idle_conns : ℤ
  pub conn_max_lifetime : ℤ

pub record RedisConfig : Type 0 where
  pub addr : Bytes
  pub password : Bytes
  pub db : ℤ
  pub key_prefix : Bytes
  pub dial_timeout : ℤ
  pub io_timeout : ℤ

pub record SecurityConfig : Type 0 where
  pub token_secret : Bytes
  pub password_iterations : ℤ
  pub session_ttl : ℤ

pub record UploadConfig : Type 0 where
  pub profile_picture_dir : Bytes
  pub max_bytes : ℤ
  pub allowed_mime_types : List Bytes

pub record SeedConfig : Type 0 where
  pub count : ℤ
  pub batch_size : ℤ
  pub concurrency : ℤ
  pub default_password : Bytes

pub record Config : Type 0 where
  pub dbcp : DbcpConfig
  pub tcp : TcpConfig
  pub http : HttpConfig
  pub database : DatabaseConfig
  pub redis : RedisConfig
  pub security : SecurityConfig
  pub upload : UploadConfig
  pub seed : SeedConfig

abbrev pub default_config : Config
default_config = record {
  dbcp = record { target_db = []; target_redis = []; service_export_port = pos 0 };
  tcp = record {
    addr = codes "127.0.0.1:9000";
    read_timeout = pos 5_000_000_000;
    write_timeout = pos 5_000_000_000;
    max_frame_bytes = 8_388_608;
    worker_count = pos 64;
    queue_size = pos 2048;
  };
  http = record {
    addr = codes "127.0.0.1:8081";
    tcp_addr = codes "127.0.0.1:9000";
    request_timeout = pos 5_000_000_000;
    max_body_bytes = pos 4_194_304;
    cookie_name = codes "session_token";
    profile_picture_base_url = codes "/profile-pictures/";
  };
  database = record {
    dsn = [];
    max_open_conns = pos 128;
    max_idle_conns = pos 32;
    conn_max_lifetime = pos 300_000_000_000;
  };
  redis = record {
    addr = [];
    password = [];
    db = pos 0;
    key_prefix = codes "go-entry-task";
    dial_timeout = pos 2_000_000_000;
    io_timeout = pos 2_000_000_000;
  };
  security = record {
    token_secret = [];
    password_iterations = pos 210_000;
    session_ttl = pos 86_400_000_000_000;
  };
  upload = record {
    profile_picture_dir = codes "runtime/profile-pictures";
    max_bytes = pos 2_097_152;
    allowed_mime_types =
        codes "image/jpeg" ∷ codes "image/png" ∷ codes "image/webp" ∷ codes "image/gif" ∷ [];
  };
  seed = record {
    count = pos 10_000_000;
    batch_size = pos 1000;
    concurrency = pos 4;
    default_password = codes "Password123!";
  };
}
