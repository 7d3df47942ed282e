-- ===== src/Config/Precedence.antt =====
-- What a configuration that was loaded holds, and which of several values counts.
use cloud_native_entry_task.Prelude.{
  List-cases, ◌≡◌, ◌↔◌, refl, sym, ap, ◌∙◌, inl, inr, false, ◌==◌, Option, none, List, [], ◌∷◌,
  Bytes, is_empty, if◌then◌else◌, arith,
}
use cloud_native_entry_task.Prelude.Int.{pos, leb_ℤ}
use cloud_native_entry_task.GoLib.Errors.{ok, Result-cases}
use cloud_native_entry_task.Config.Types.{Config}
use cloud_native_entry_task.Config.{
  Surroundings, set_string, apply_dbcp, read_env, apply_env, config_of, missing, Invalid, validate,
  loaded, checked, load,
}

-- What a valid configuration has.
pub record IsComplete (c : Config) : Type 0 where
  pub tcp_addr : is_empty c.tcp.addr ≡ false
  pub http_addr : is_empty c.http.addr ≡ false
  pub http_tcp_addr : is_empty c.http.tcp_addr ≡ false
  pub dsn : is_empty c.database.dsn ≡ false
  pub token_secret : is_empty c.security.token_secret ≡ false
  pub frame_bytes : (c.tcp.max_frame_bytes == 0) ≡ false
  pub upload_bytes : leb_ℤ c.upload.max_bytes (pos 0) ≡ false

missing_complete : (c : Config) → IsComplete c → missing c ≡ []
unfolding missing
missing_complete c h = rw (h.tcp_addr, h.http_addr, h.http_tcp_addr, h.dsn, h.token_secret) refl

validate_complete : (c : Config) → IsComplete c → validate c ≡ none
unfolding validate
validate_complete c h = rw (missing_complete c h, validate, h.frame_bytes, h.upload_bytes) refl

missing_sound :
    (c : Config)
    → missing c ≡ []
    → (is_empty c.tcp.addr ≡ false)
      × (is_empty c.http.addr ≡ false)
      × (is_empty c.http.tcp_addr ≡ false)
      × (is_empty c.database.dsn ≡ false)
      × (is_empty c.security.token_secret ≡ false)
unfolding missing
missing_sound c h = ground arith

validate_sound : (c : Config) → validate c ≡ none → IsComplete c
unfolding validate
validate_sound c h = elim (List-cases (missing c)) [
  | inr (x, xs, some_missing) ↦ absurd (cc (rw (some_missing, validate) at h))
  | inl all_given ↦
      let (a, b, d, e, f) = missing_sound c all_given in
      let h' = rw (all_given, validate) at h in
      record {
        tcp_addr = a;
        http_addr = b;
        http_tcp_addr = d;
        dsn = e;
        token_secret = f;
        frame_bytes = ground (arith, h');
        upload_bytes = ground (arith, h');
      }
]

module _ (o : Surroundings) (path : Bytes) (c : Config) where
  checked_loaded : (e : Option Invalid) (d : Config) → checked d e ≡ loaded c → (e ≡ none) × (c ≡ d)
  unfolding checked
  checked_loaded e d h = ground arith

  -- Loading gives a configuration exactly where the file, or the defaults, can be read, with the
  -- targets of that and of the environment applied, and the result is complete.
  pub load_iff :
      (load o path ≡ loaded c)
      ↔ ((f : Config) × (config_of o path ≡ ok f) × (c ≡ apply_env o (apply_dbcp f)) × IsComplete c)
  unfolding load
  load_iff = (
    λ h. elim (Result-cases (config_of o path)) [
      | inr (e, unread) ↦ absurd (cc (rw (unread, load) at h))
      | inl (f, read) ↦
          let (valid, same) =
            checked_loaded (validate (apply_env o (apply_dbcp f))) (apply_env o (apply_dbcp f))
              (rw (read, load) at h) in
          (f, read, same, validate_sound c (ap validate same ∙ valid))
    ],
    λ (f, read, same, complete).
        rw (read, load, ap validate (sym same) ∙ validate_complete c complete, checked)
          (ap loaded (sym same)),
  )

abbrev pub first_given : List Bytes → Bytes → Bytes
first_given [] v = v
first_given (x ∷ xs) v = if is_empty x then first_given xs v else x

-- A field that a target overrides twice.
targets :
    (env target env_field field : Bytes)
    → set_string (set_string (set_string field target) env_field) (set_string target env)
      ≡ first_given (env ∷ target ∷ env_field ∷ []) field
targets env target env_field field = ground arith

-- The database of a loaded configuration is the target of the environment, else that of the file,
-- else the environment's DSN, else the file's; the same holds of Redis.
pub load_targets :
    (o : Surroundings) (path : Bytes) (c f : Config)
    → load o path ≡ loaded c
    → config_of o path ≡ ok f
    → (c.database.dsn
        ≡ first_given
            (o.getenv "DBCP_TARGET_DB" ∷ f.dbcp.target_db ∷ o.getenv "APP_DB_DSN" ∷ [])
            f.database.dsn)
      × (c.redis.addr
          ≡ first_given
              (o.getenv "DBCP_TARGET_REDIS" ∷ f.dbcp.target_redis ∷ o.getenv "APP_REDIS_ADDR" ∷ [])
              f.redis.addr)
unfolding apply_env apply_dbcp read_env
load_targets o path c f h read =
    let (g, read', same, _) = (load_iff o path c).0 h in
    let is_f : g ≡ f = ground (arith, read, read') in
    let whole : c ≡ apply_env o (apply_dbcp f) = same ∙ ap (λ k. apply_env o (apply_dbcp k)) is_f in
    (
      ap (λ (k : Config). k.database.dsn) whole
          ∙ targets (o.getenv "DBCP_TARGET_DB") f.dbcp.target_db (o.getenv "APP_DB_DSN")
              f.database.dsn,
      ap (λ (k : Config). k.redis.addr) whole
          ∙ targets (o.getenv "DBCP_TARGET_REDIS") f.dbcp.target_redis (o.getenv "APP_REDIS_ADDR")
              f.redis.addr,
    )
