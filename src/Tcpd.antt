-- ===== src/Tcpd.antt =====
-- cmd/tcpd/main.go: the backend put together: the database, Redis if it is there, and the service.
pub mod Logout
pub mod LongNickname
mod Tests
use cloud_native_entry_task.Prelude.{Option, none, some, Bytes, is_empty, if◌then◌else◌}
use cloud_native_entry_task.GoLib.Errors.{Result, ok, err}
use cloud_native_entry_task.GoLib.Exec.{Exec, pure, lift, try, ◌>>=◌, ◌>>◌}
use cloud_native_entry_task.Config.Types.{Config, RedisConfig}
use cloud_native_entry_task.Service.Interfaces.{
  Host, UserStore, SessionStore, PictureCache, Service,
}
use cloud_native_entry_task.Service.New
use cloud_native_entry_task.Service.New.{Options}
use cloud_native_entry_task.Store.Mysql
use cloud_native_entry_task.Store.Mysql.{Db, Pool, open_pool}
use cloud_native_entry_task.Store.Redis
use cloud_native_entry_task.Store.Redis.{Peer, PictureCodec, ping}

-- What the program is given: the host, the database's driver (`sql.Open`, `Ping` and the statements),
-- the network to Redis, and the parts of Go's library that are parameters of the stores.
pub record Surroundings (W : Type 0) : Type 0 where
  pub host : Host W
  pub sql_open : Bytes → Result (Unit {0})
  pub ping_db : Pool → Exec W (Unit {0})
  pub db : Db W
  pub peer : Peer W
  pub sha256_hex : Bytes → Bytes
  pub picture_codec : PictureCodec
  pub decode_hex : Bytes → Option Bytes
  pub getwd : Result Bytes

module _ {W : Type 0} (o : Surroundings W) where
  -- `*mysqlstore.Store`, as the service sees it
  abbrev pub mysql_store : UserStore W
  mysql_store = record {
    get_user_auth_by_username = Mysql.get_user_auth_by_username o.db;
    get_user_profile_by_id = Mysql.get_user_profile_by_id o.db;
    update_nickname = Mysql.update_nickname o.db;
    update_profile_picture = Mysql.update_profile_picture o.db;
  }

  -- `*redisstore.Store`, as the service sees it, for the sessions and for the pictures
  abbrev pub redis_sessions : RedisConfig → SessionStore W
  redis_sessions cfg = record {
    save_session = Redis.save_session o.peer cfg o.sha256_hex;
    get_session = Redis.get_session o.peer cfg o.sha256_hex;
    delete_session = Redis.delete_session o.peer cfg o.sha256_hex;
  }

  abbrev pub redis_pictures : RedisConfig → PictureCache W
  redis_pictures cfg = record {
    save_profile_picture = Redis.save_profile_picture o.peer cfg o.picture_codec;
    get_profile_picture = Redis.get_profile_picture o.peer cfg o.picture_codec;
    delete_profile_picture = Redis.delete_profile_picture o.peer cfg;
  }

  abbrev pub without_redis : Options W
  without_redis = record { sessions = none; picture_cache = none }

  abbrev pub with_redis : RedisConfig → Options W
  with_redis cfg = record {
    sessions = some (redis_sessions cfg);
    picture_cache = some (redis_pictures cfg);
  }

  -- Redis is used if it has an address and answers.
  unfoldable pub redis_options : RedisConfig → Exec W (Options W)
  redis_options cfg =
      if is_empty cfg.addr
      then pure without_redis
      else try (ping o.peer cfg) (λ e. pure without_redis) (λ pong. pure (with_redis cfg))

  -- `main` up to the service, after the configuration is loaded; an error ends the program.
  unfoldable pub start : Config → Exec W (Service W)
  unfolding redis_options
  start cfg = do
    pool ← lift (
        open_pool o.sql_open cfg.database.dsn cfg.database.max_open_conns
          cfg.database.max_idle_conns cfg.database.conn_max_lifetime)
    o.ping_db pool
    options ← redis_options cfg.redis
    lift (New.new o.host o.decode_hex o.getwd mysql_store cfg options)
