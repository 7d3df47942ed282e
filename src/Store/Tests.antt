-- ===== src/Store/Tests.antt =====
-- Runs of a user table that counts changed rows, and of a migration.
use cloud_native_entry_task.Prelude.{
  arith, ◌≡◌, refl, [], ◌∷◌, List, ◌⊎◌, length, ltb, false, Bytes, codes, is_empty, bytes_eq,
  bytes_eq_refl, if◌then◌else◌,
}
use cloud_native_entry_task.GoLib.Strings.{split, trim_space}
use cloud_native_entry_task.GoLib.Errors.{Error, external, store_not_found, no_rows, ok, err}
use cloud_native_entry_task.GoLib.Exec.{Exec, pure, raise}
use cloud_native_entry_task.Store.Mysql.Schema.{split_sql, statement_failed, migrate}
use cloud_native_entry_task.Store.Mysql.Schema.Statements.{Executed, StoppedAt, migrate_cases}
use cloud_native_entry_task.Store.Mysql.{UserProfile, Db, update_nickname}
use cloud_native_entry_task.Store.Mysql.Affected.{CountsChangedRows, update_nickname_same}

abbrev row : Bytes → UserProfile
row nickname = record {
  id = 7;
  username = codes "user_0000007";
  nickname = nickname;
  profile_picture_path = record { valid = false; string = [] };
  profile_picture_mime = record { valid = false; string = [] };
  profile_picture_size = 0;
  profile_version = 0;
}

-- A table of one row, whose world is the nickname there.
abbrev one_row : Db Bytes
one_row = record {
  query_user_auth = λ username. raise no_rows;
  query_user_profile = λ id nickname. (ok (row nickname), nickname);
  exec_update_nickname = λ new id old. (ok (ok (if bytes_eq new old then 0 else 1)), new);
  exec_update_profile_picture = λ path mime size id. raise no_rows;
}

one_row-CountsChangedRows : CountsChangedRows one_row
one_row-CountsChangedRows w id p found = ground (arith, found, bytes_eq_refl w)

update_nickname_same_example :
    (update_nickname one_row 7 (codes "Seven") (codes "Seven")).0 ≡ err store_not_found
update_nickname_same_example =
    update_nickname_same one_row (codes "Seven") 7 (row (codes "Seven")) one_row-CountsChangedRows
      refl

-- A database that keeps the statements it was sent, the last one first, and refuses any after two.
abbrev keep_statement : Bytes → Exec (List Bytes) (Unit {0})
keep_statement stmt w = if ltb (length w) 2 then (ok tt, stmt ∷ w) else (err (external 1), w)

abbrev schema : Bytes
schema = codes "A ;; B; C; D"

-- Blank statements are not sent, and none is after the one that fails.
migrates :
    migrate keep_statement (λ path. pure schema) (codes "schema.sql") []
    ≡ (err (statement_failed (external 1)), codes "B" ∷ codes "A" ∷ [])
unfolding migrate split_sql trim_space split is_empty
migrates = refl

migrate_cases_example :
    let r = migrate keep_statement (λ path. pure schema) (codes "schema.sql") [] in
    ((w' : List Bytes) × (r ≡ (ok tt, w')) × Executed keep_statement (split_sql schema) [] w')
    ⊎ ((e : Error) × (w' : List Bytes) × (r ≡ (err (statement_failed e), w'))
        × StoppedAt keep_statement (split_sql schema) [] e w')
migrate_cases_example =
    migrate_cases keep_statement (λ path. pure schema) (codes "schema.sql") schema [] [] refl
