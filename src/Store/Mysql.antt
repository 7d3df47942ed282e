-- ===== src/Store/Mysql.antt =====
-- internal/store/mysqlstore/store.go: the user table behind `database/sql`. The statements that the
-- store sends are the operations of `Db`, whose state is the world `W`.
pub mod Affected
pub mod Schema
pub mod Seeding
use cloud_native_entry_task.Prelude.{
  ℕ, Bool, ◌==◌, if◌then◌else◌, Bytes, List, [], ◌∷◌, Option, false,
}
use cloud_native_entry_task.Prelude.Int.{ℤ}
use cloud_native_entry_task.GoLib.Errors.{Error, store_not_found, is_no_rows, Result, ok, err}
use cloud_native_entry_task.GoLib.Exec.{Exec, pure, raise, try, ◌>>=◌}

-- `sql.NullString`
pub record NullString : Type 0 where
  pub valid : Bool
  pub string : Bytes

pub record UserAuth : Type 0 where
  pub id : ℕ
  pub username : Bytes
  pub nickname : Bytes
  pub password_salt : Bytes
  pub password_hash : Bytes
  pub password_iter : ℤ
  pub profile_picture_path : NullString
  pub profile_picture_version : ℕ

pub record UserProfile : Type 0 where
  pub id : ℕ
  pub username : Bytes
  pub nickname : Bytes
  pub profile_picture_path : NullString
  pub profile_picture_mime : NullString
  pub profile_picture_size : ℕ
  pub profile_version : ℕ

-- The statements, by what they are given: a query scans one row, and fails with `sql.ErrNoRows` if
-- there is none; an update answers with `RowsAffected`, which may itself fail.
pub record Db (W : Type 0) : Type 0 where
  pub query_user_auth : Bytes → Exec W UserAuth
  pub query_user_profile : ℕ → Exec W UserProfile
  pub exec_update_nickname : Bytes → ℕ → Exec W (Result ℕ)
  pub exec_update_profile_picture : Bytes → Bytes → ℕ → ℕ → Exec W (Result ℕ)

-- A `*sql.DB` as `Open` sets it up.
pub record Pool : Type 0 where
  pub dsn : Bytes
  pub max_open_conns : ℤ
  pub max_idle_conns : ℤ
  pub conn_max_lifetime : ℤ

-- `sql.Open` of the driver "mysql" is a parameter.
unfoldable pub open_pool : (Bytes → Result (Unit {0})) → Bytes → ℤ → ℤ → ℤ → Result Pool
open_pool sql_open dsn max_open max_idle max_lifetime = elim (sql_open dsn) [
  | err e ↦ err e
  | ok _ ↦ ok (record {
    dsn = dsn;
    max_open_conns = max_open;
    max_idle_conns = max_idle;
    conn_max_lifetime = max_lifetime;
  })
]

unfoldable pub map_no_rows : Error → Error
unfolding is_no_rows
map_no_rows e = if is_no_rows e then store_not_found else e

-- `affected, err := res.RowsAffected(); err == nil && affected == 0`
abbrev pub affects_none : Result ℕ → Bool
affects_none (ok affected) = affected == 0
affects_none (err e) = false

module _ {W : Type 0} (db : Db W) where
  unfoldable pub get_user_auth_by_username : Bytes → Exec W UserAuth
  unfolding map_no_rows
  get_user_auth_by_username username =
      try (db.query_user_auth username) (λ e. raise (map_no_rows e)) pure

  unfoldable pub get_user_profile_by_id : ℕ → Exec W UserProfile
  unfolding map_no_rows
  get_user_profile_by_id id = try (db.query_user_profile id) (λ e. raise (map_no_rows e)) pure

  unfoldable pub update_nickname : ℕ → Bytes → Exec W UserProfile
  unfolding get_user_profile_by_id
  update_nickname id nickname = do
    affected ← db.exec_update_nickname nickname id
    if affects_none affected then raise store_not_found else get_user_profile_by_id id

  unfoldable pub update_profile_picture : ℕ → Bytes → Bytes → ℕ → Exec W UserProfile
  unfolding get_user_profile_by_id
  update_profile_picture id rel_path mime size = do
    affected ← db.exec_update_profile_picture rel_path mime size id
    if affects_none affected then raise store_not_found else get_user_profile_by_id id
