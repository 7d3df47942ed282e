-- ===== src/Tcpd/Tests.antt =====
-- A backend beside the small Redis server, whose database takes 191 bytes for a nickname.
use cloud_native_entry_task.Prelude.{
  ap, ◌↔◌, ◌≡◌, ◌≢◌, ◌≤◌, ◌⊎◌, refl, true, false, none, some, [], ◌∷◌, ◌++◌, Bytes, codes, arith,
  length, ltb, replicate, is_empty, if◌then◌else◌,
}
use cloud_native_entry_task.Prelude.Int.{pos}
use cloud_native_entry_task.GoLib.Errors.{Error, no_rows, not_exist, Result, ok, err}
use cloud_native_entry_task.GoLib.Exec.{pure, raise, try, ◌>>=◌}
use cloud_native_entry_task.GoLib.Strings.{trim_space}
use cloud_native_entry_task.Config.{profile_picture_dir_abs, is_abs}
use cloud_native_entry_task.Config.Types.{Config, default_config}
use cloud_native_entry_task.Service.Errors.{error_code}
use cloud_native_entry_task.Service.Interfaces.{Host, Service}
use cloud_native_entry_task.Service.Token.{new_token_manager, decoded}
use cloud_native_entry_task.Service.Token.Sample.{sample}
use cloud_native_entry_task.Service.New.{service_of, new}
use cloud_native_entry_task.Service.Account.{logout, require_user, update_nickname}
use cloud_native_entry_task.Store.Mysql.{Db, open_pool}
use cloud_native_entry_task.Store.Redis.Sample.{
  Server, server, lookup, server-IsRedis, config, no_keys, config_addressed,
}
use cloud_native_entry_task.Tcpd.{
  Surroundings, start, mysql_store, with_redis, redis_options, without_redis,
}
use cloud_native_entry_task.Store.Redis.{ping, delete_session}
use cloud_native_entry_task.Store.Redis.Server.{ping_ok}
use cloud_native_entry_task.Store.Redis.Session.{
  save_session_total, session, redis_sessions-IsSessionStore,
}
use cloud_native_entry_task.Service.New.Sound.{HasDirectory, new_iff}
use cloud_native_entry_task.Tcpd.Logout.{IsPinged, tcpd_logout}
use cloud_native_entry_task.Tcpd.LongNickname.{RefusesLong, data_too_long, long_nickname}

abbrev host : Host Server
host = record {
  clock = λ w. (pos 5_000_000_000, w);
  rand_read = λ n. pure (replicate n 3);
  mkdir_all = λ path. pure tt;
  write_file = λ path content. pure tt;
  remove = λ path. pure tt;
  read_file = λ path. raise not_exist;
  file_join = λ a b. a ++ (b'/' ∷ b);
  file_dir = λ path. path;
  file_clean = λ path. path;
  detect_content_type = λ content. codes "image/png";
  extensions_by_type = λ content_type. some (codes ".png" ∷ []);
  pbkdf2 = λ password salt iterations n. ok (replicate n (length password));
  token_codec = sample;
}

abbrev narrow : Db Server
narrow = record {
  query_user_auth = λ username. raise no_rows;
  query_user_profile = λ id. raise no_rows;
  exec_update_nickname =
      λ nickname id w. (if ltb 191 (length nickname) then err data_too_long else ok (ok 1), w);
  exec_update_profile_picture = λ path mime size id. raise no_rows;
}

abbrev surroundings : Surroundings Server
surroundings = record {
  host = host;
  sql_open = λ dsn. ok tt;
  ping_db = λ pool. pure tt;
  db = narrow;
  peer = server;
  sha256_hex = λ token. token;
  picture_codec = record { marshal_picture = λ picture. []; unmarshal_picture = λ v. none };
  decode_hex = λ secret. none;
  getwd = ok (codes "/srv");
}

abbrev cfg : Config
cfg = record default_config {
  security = record default_config.security { token_secret = replicate 32 7 };
  redis = config;
}

abbrev backend : Service Server
backend =
    service_of host (λ secret. none) (ok (codes "/srv")) (mysql_store surroundings) cfg
      (with_redis surroundings config)
      (record { secret = replicate 32 7; ttl = cfg.security.session_ttl })
      (codes "/srv/runtime/profile-pictures")

abbrev found :
    (w : Server) × (ping server config no_keys ≡ (ok tt, w))
    × ((k : Bytes) → lookup w k ≡ lookup no_keys k)
found = ping_ok server lookup config server-IsRedis config_addressed no_keys

started : start surroundings cfg no_keys ≡ (ok backend, found.0)
unfolding start open_pool redis_options new new_token_manager profile_picture_dir_abs is_abs
    is_empty
started = rw (found.1, ◌>>=◌, try) refl

abbrev token : Bytes
token = codes "a.b"

abbrev deleted : Result (Unit {0}) × Server
deleted = delete_session server config (λ t. t) token no_keys

logged_out : logout backend token no_keys ≡ (ok tt, deleted.1)
unfolding logout service_of trim_space is_empty
logged_out =
    ap (λ r. (r, deleted.1))
      (save_session_total server lookup config server-IsRedis config_addressed (λ t. t) token 7
        (pos 1_000_000_000) no_keys refl).1

tcpd_logout_example :
    (w1 : Server) × IsPinged surroundings no_keys w1
    × (((is_empty cfg.redis.addr ≡ false)
          × ((ping server config w1).0 ≡ ok tt)
          × (require_user backend token deleted.1 ≢ (ok 7, deleted.1)))
        ⊎ (((is_empty cfg.redis.addr ≡ true) ⊎ ((e : Error) × ((ping server config w1).0 ≡ err e)))
            × (backend.sessions ≡ none)
            × (deleted.1 ≡ no_keys)))
tcpd_logout_example =
    tcpd_logout surroundings (session server lookup config server-IsRedis config_addressed (λ t. t))
      cfg
      (redis_sessions-IsSessionStore server lookup config server-IsRedis config_addressed (λ t. t))
      (λ v t. refl) no_keys found.0 backend token no_keys deleted.1 deleted.1 7 started logged_out

narrow-RefusesLong : RefusesLong narrow
narrow-RefusesLong nickname id w ascii long = ground (arith, long)

long_nickname_example :
    (e : Error) × ((update_nickname backend 7 (replicate 192 65) no_keys).0 ≡ err e)
    × (error_code e ≡ ("internal_error", "Internal server error."))
long_nickname_example =
    long_nickname surroundings narrow-RefusesLong cfg no_keys found.0 backend 7 (replicate 192 65)
      no_keys started (unfold trim_space in refl) (omega arith) (omega arith) (omega arith)

new_iff_example :
    ((s : Service Server) × (new host
          (λ v. none)
          (ok (codes "/srv"))
          (mysql_store surroundings)
          cfg
          (without_redis surroundings)
        ≡ ok s))
    ↔ ((is_empty cfg.security.token_secret ≡ false)
        × (32 ≤ length (decoded (λ v. none) cfg.security.token_secret))
        × HasDirectory host
            (λ v. none)
            (ok (codes "/srv"))
            (mysql_store surroundings)
            cfg
            (without_redis surroundings))
new_iff_example =
    new_iff host (λ v. none) (ok (codes "/srv")) (mysql_store surroundings) cfg
      (without_redis surroundings)
