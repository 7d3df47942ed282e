-- ===== src/Store/Mysql/Seeding.antt =====
-- internal/store/mysqlstore/store.go: `InsertSeedUsers`, one INSERT for many users, and `CountUsers`.
pub mod Placeholders
use mathlib.Core.List.{List, [], ◌∷◌, ◌++◌}
use cloud_native_entry_task.Prelude.{ℕ, Bytes, codes}
use cloud_native_entry_task.Prelude.Int.{ℤ}
use cloud_native_entry_task.GoLib.Exec.{Exec, pure}

pub record SeedUser : Type 0 where
  pub username : Bytes
  pub nickname : Bytes
  pub password_salt : Bytes
  pub password_hash : Bytes
  pub password_iter : ℤ

-- An argument of a statement: a `string`, a `[]byte` or an `int`.
pub data Arg : Type 0 where
  text blob : Bytes → Arg
  number : ℤ → Arg

-- The row of one user in the statement, after a comma for all but the first.
abbrev pub row : Bytes
row = codes "(?, ?, ?, ?, ?)"

later_rows : List SeedUser → Bytes
later_rows [] = []
later_rows (u ∷ users) = b',' ∷ (row ++ later_rows users)

rows : List SeedUser → Bytes
unfolding later_rows
rows [] = []
rows (u ∷ users) = row ++ later_rows users

pub insert_statement : List SeedUser → Bytes
unfolding rows
insert_statement users =
    codes
      "INSERT INTO users (username, nickname, password_salt, password_hash, password_iter) VALUES "
    ++ (rows users ++ codes " ON DUPLICATE KEY UPDATE username = username")

abbrev pub user_args : SeedUser → List Arg
user_args u =
    text u.username
    ∷ text u.nickname
    ∷ blob u.password_salt
    ∷ blob u.password_hash
    ∷ number u.password_iter
    ∷ []

pub insert_args : List SeedUser → List Arg
insert_args [] = []
insert_args (u ∷ users) = user_args u ++ insert_args users

module _ {W : Type 0} where
  -- `ExecContext` is a parameter: a statement and its arguments.
  unfoldable pub insert_seed_users :
      (Bytes → List Arg → Exec W (Unit {0})) → List SeedUser → Exec W (Unit {0})
  unfolding insert_statement insert_args
  insert_seed_users exec [] = pure tt
  insert_seed_users exec (u ∷ users) = exec (insert_statement (u ∷ users)) (insert_args (u ∷ users))

  -- `QueryRowContext` and `Scan`, of a statement without arguments.
  pub count_users : (Bytes → Exec W ℕ) → Exec W ℕ
  count_users query = query (codes "SELECT COUNT(*) FROM users")
