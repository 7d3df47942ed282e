-- ===== src/Store/Mysql/Schema/Statements.antt =====
-- What `Migrate` sends, and where it stops.
use cloud_native_entry_task.Prelude.{
  ◌≡◌, refl, ap, ◌⊎◌, inl, inr, false, List, [], ◌∷◌, ◌++◌, Bytes, All, Bool-cases, is_empty,
}
use cloud_native_entry_task.GoLib.Strings.{split, trim_space}
use cloud_native_entry_task.GoLib.Strings.Trimmed.{trim_space-trim_space}
use cloud_native_entry_task.GoLib.Errors.{Error, Result, ok, err}
use cloud_native_entry_task.GoLib.Exec.{Exec, raise, on_error}
use cloud_native_entry_task.Store.Mysql.Schema.{
  keep_statements, split_sql, statement_failed, run_statements, migrate,
}

-- A statement with something in it and no spaces around it.
abbrev pub IsStatement : Bytes → Type 0
IsStatement stmt = (trim_space stmt ≡ stmt) × (is_empty stmt ≡ false)

keep_statements-IsStatement : (parts : List Bytes) → All IsStatement (keep_statements parts)
unfolding keep_statements
keep_statements-IsStatement [] = tt
keep_statements-IsStatement (part ∷ parts) = elim (Bool-cases (is_empty (trim_space part))) [
  | inl blank ↦ rw blank (keep_statements-IsStatement parts)
  | inr full ↦ rw full ((trim_space-trim_space part, full), keep_statements-IsStatement parts)
]

pub split_sql-IsStatement : (sql_text : Bytes) → All IsStatement (split_sql sql_text)
unfolding split_sql
split_sql-IsStatement sql_text = keep_statements-IsStatement (split b';' sql_text)

module _ {W : Type 0} (exec : Bytes → Exec W (Unit {0})) where
  -- Statements that were executed one after the other, each with success.
  pub data Executed : List Bytes → W → W → Type 0 where
    none_left : {w : W} → Executed [] w w
    followed :
        {w w1 w2 : W} (stmt : Bytes) {stmts : List Bytes}
        → exec stmt w ≡ (ok tt, w1)
        → Executed stmts w1 w2
        → Executed (stmt ∷ stmts) w w2

  -- A first statement that failed, with nothing sent after it.
  pub record StoppedAt (stmts : List Bytes) (w : W) (e : Error) (w' : W) : Type 0 where
    pub before : List Bytes
    pub stmt : Bytes
    pub after : List Bytes
    pub reached : W
    pub position : stmts ≡ before ++ stmt ∷ after
    pub executed : Executed before w reached
    pub refused : exec stmt reached ≡ (err e, w')

  stopped_later :
      {w w1 w' : W} {e : Error} (stmt : Bytes) (stmts : List Bytes)
      → exec stmt w ≡ (ok tt, w1)
      → StoppedAt stmts w1 e w'
      → StoppedAt (stmt ∷ stmts) w e w'
  stopped_later stmt stmts first s = record {
    before = stmt ∷ s.before;
    stmt = s.stmt;
    after = s.after;
    reached = s.reached;
    position = ap (◌∷◌ stmt) s.position;
    executed = followed stmt first s.executed;
    refused = s.refused;
  }

  abbrev Ended : List Bytes → W → Result (Unit {0}) × W → Type 0
  Ended stmts w r =
      ((w' : W) × (r ≡ (ok tt, w')) × Executed stmts w w')
      ⊎ ((e : Error) × (w' : W) × (r ≡ (err (statement_failed e), w')) × StoppedAt stmts w e w')

  run_statements_cases :
      (stmts : List Bytes) (w : W)
      → All IsStatement stmts
      → Ended stmts w (run_statements exec stmts w)
  unfolding run_statements
  run_statements_cases [] w h = inl (w, refl, none_left)
  run_statements_cases (stmt ∷ stmts) w ((trimmed, full), h) =
      rw (trimmed, full)
        (follow (λ w1. run_statements_cases stmts w1 h) (exec stmt w).0 (exec stmt w).1 refl)
    where
      follow :
          ((w1 : W) → Ended stmts w1 (run_statements exec stmts w1))
          → (r : Result (Unit {0})) (w1 : W) → exec stmt w ≡ (r, w1)
          → Ended
              (stmt ∷ stmts)
              w
              (on_error (λ e. raise (statement_failed e)) (λ done. run_statements exec stmts) r w1)
      follow rest_cases (err e) w1 sent = inr (
        e,
        w1,
        refl,
        record {
          before = [];
          stmt = stmt;
          after = stmts;
          reached = w;
          position = refl;
          executed = none_left;
          refused = sent;
        },
      )
      follow rest_cases (ok _) w1 sent = elim (rest_cases w1) [
        | inl (w', result, rest) ↦ inl (w', result, followed stmt sent rest)
        | inr (e, w', result, rest) ↦ inr (e, w', result, stopped_later stmt stmts sent rest)
      ]

  -- Once the file is read, either every statement in it was executed in order and the migration
  -- succeeds, or it fails with the error of the first statement that failed, and sends none after it.
  pub migrate_cases :
      (read_file : Bytes → Exec W Bytes) (schema_path text : Bytes) (w w1 : W)
      → read_file schema_path w ≡ (ok text, w1)
      → let r = migrate exec read_file schema_path w in
        ((w' : W) × (r ≡ (ok tt, w')) × Executed (split_sql text) w1 w')
        ⊎ ((e : Error) × (w' : W) × (r ≡ (err (statement_failed e), w'))
            × StoppedAt (split_sql text) w1 e w')
  unfolding migrate
  migrate_cases read_file schema_path text w w1 h =
      rw h (run_statements_cases (split_sql text) w1 (split_sql-IsStatement text))
