-- ===== src/Config/Tests.antt =====
-- A configuration that takes its database from the environment.
use cloud_native_entry_task.Prelude.{
  ◌≡◌, ◌↔◌, refl, none, [], Bytes, codes, str_eq, if◌then◌else◌, is_empty,
}
use cloud_native_entry_task.GoLib.Errors.{ok}
use cloud_native_entry_task.Config.Types.{Config, default_config}
use cloud_native_entry_task.Config.{
  Surroundings, apply_dbcp, apply_env, config_of, load, loaded, missing, validate,
}
use cloud_native_entry_task.Config.Precedence.{IsComplete, load_iff}

abbrev secret : Bytes
secret = codes "0123456789abcdef0123456789abcdef"

abbrev one_target : Surroundings
one_target = record {
  getenv = λ name.
      if str_eq name "DBCP_TARGET_DB"
      then codes "target"
      else if str_eq name "APP_DB_DSN"
      then codes "other"
      else if str_eq name "APP_TOKEN_SECRET"
      then secret
      else [];
  atoi = λ v. none;
  parse_int = λ v. none;
  parse_uint32 = λ v. none;
  parse_duration = λ v. none;
  read_file = λ path. ok [];
  unmarshal = λ content c. ok c;
}

abbrev result : Config
result = record default_config {
  dbcp = record default_config.dbcp { target_db = codes "target" };
  database = record default_config.database { dsn = codes "target" };
  security = record default_config.security { token_secret = secret };
}

load_run : load one_target (codes "config.json") ≡ loaded result
unfolding load config_of apply_env apply_dbcp missing validate is_empty
load_run = refl

load_iff_example : (load one_target [] ≡ loaded result) ↔ (
    (f : Config) × (config_of one_target [] ≡ ok f)
    × (result ≡ apply_env one_target (apply_dbcp f))
    × IsComplete result)
load_iff_example = load_iff one_target [] result
