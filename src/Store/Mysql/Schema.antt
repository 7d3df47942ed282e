-- ===== src/Store/Mysql/Schema.antt =====
-- internal/store/mysqlstore/store.go, `Migrate`: the statements of the schema file, sent one by one.
pub mod Statements
use mathlib.Core.List.{List, [], ◌∷◌, ◌++◌}
use cloud_native_entry_task.Prelude.{Bytes, codes, Option, is_empty, if◌then◌else◌}
use cloud_native_entry_task.GoLib.Strings.{split, trim_space}
use cloud_native_entry_task.GoLib.Errors.{Error, Result, ok, err, wrapped}
use cloud_native_entry_task.GoLib.Exec.{Exec, pure, raise, try, ◌>>=◌, ◌>>◌}

-- The statements that are not blank, trimmed.
keep_statements : List Bytes → List Bytes
keep_statements [] = []
keep_statements (part ∷ parts) =
    let rest = keep_statements parts in
    let trimmed = trim_space part in if is_empty trimmed then rest else trimmed ∷ rest

unfoldable pub split_sql : Bytes → List Bytes
unfolding keep_statements
split_sql sql_text = keep_statements (split b';' sql_text)

-- "exec schema statement: %w"
abbrev pub statement_failed : Error → Error
statement_failed e = wrapped "exec schema statement" e

module _ {W : Type 0} (exec : Bytes → Exec W (Unit {0})) where
  run_statements : List Bytes → Exec W (Unit {0})
  run_statements [] = pure tt
  run_statements (stmt ∷ stmts) =
      if is_empty (trim_space stmt)
      then run_statements stmts
      else try (exec stmt) (λ e. raise (statement_failed e)) (λ done. run_statements stmts)

  unfoldable pub migrate : (Bytes → Exec W Bytes) → Bytes → Exec W (Unit {0})
  unfolding run_statements
  migrate read_file schema_path = do
    data_read ← read_file schema_path
    run_statements (split_sql data_read)
