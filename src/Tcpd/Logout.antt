-- ===== src/Tcpd/Logout.antt =====
-- cmd/tcpd/main.go: what logging out does in the backend, with Redis and without.
use cloud_native_entry_task.Prelude.{
  ◌≡◌, ◌≢◌, refl, subst, sym, ap, ◌∙◌, ◌⊎◌, inl, inr, true, false, Bool-cases, Option, none, Bytes,
  ℕ, is_empty,
}
use cloud_native_entry_task.GoLib.Errors.{Error, Result, ok, err, Result-cases}
use cloud_native_entry_task.GoLib.Exec.{bind_ok, lift, try}
use cloud_native_entry_task.Config.Types.{Config, RedisConfig}
use cloud_native_entry_task.Service.Interfaces.{Service, IsSessionStore}
use cloud_native_entry_task.Service.New
use cloud_native_entry_task.Service.New.{Options, service_of}
use cloud_native_entry_task.Service.New.Sound.{new_ok}
use cloud_native_entry_task.Service.Account.{logout, require_user}
use cloud_native_entry_task.Service.Account.Revocation.{logout_revokes, logout_without_sessions}
use cloud_native_entry_task.Store.Mysql.{Pool, open_pool}
use cloud_native_entry_task.Store.Redis.{session_key, ping}
use cloud_native_entry_task.Tcpd.{
  Surroundings, mysql_store, redis_sessions, without_redis, with_redis, redis_options, start,
}

module _ {W : Type 0} (o : Surroundings W) where
  -- The world after a database answered a ping.
  abbrev pub IsPinged : W → W → Type 0
  IsPinged w w1 = (pool : Pool) × (o.ping_db pool w ≡ (ok tt, w1))

  -- A backend that starts has asked for Redis, and then made the service with what there was.
  pub start_ok :
      (cfg : Config) (w w' : W) (s : Service W)
      → start o cfg w ≡ (ok s, w')
      → (options : Options W) × (w1 : W) × (w2 : W) × (redis_options o cfg.redis w1
          ≡ (ok options, w2))
        × IsPinged w w1
        × (New.new o.host o.decode_hex o.getwd (mysql_store o) cfg options ≡ ok s)
  unfolding start
  start_ok cfg w w' s h =
      let (pool, w1, opened, h1) = bind_ok (lift (pool_of cfg)) _ w w' s h in
      let (_, w2, pinged, h2) = bind_ok (o.ping_db pool) _ w1 w' s h1 in
      let (options, w3, chosen, h3) = bind_ok (redis_options o cfg.redis) _ w2 w' s h2 in
      let pinged' : o.ping_db pool w ≡ (ok tt, w2) =
        subst (λ x. o.ping_db pool x ≡ (ok tt, w2)) (sym (ap (λ r. r.1) opened)) pinged in
      (options, w2, w3, chosen, (pool, pinged'), ap (λ r. r.0) h3)
    where
      pool_of : Config → Result Pool
      pool_of cfg =
          open_pool o.sql_open cfg.database.dsn cfg.database.max_open_conns
            cfg.database.max_idle_conns cfg.database.conn_max_lifetime

-- The options are those without Redis where it has no address or does not answer, and else those
-- with it.
abbrev Uses : {W : Type 0} → Surroundings W → RedisConfig → Options W → W → Type 0
Uses o cfg options w =
    (((is_empty cfg.addr ≡ true) ⊎ ((e : Error) × ((ping o.peer cfg w).0 ≡ err e)))
      × (options ≡ without_redis o))
    ⊎ ((is_empty cfg.addr ≡ false) × ((ping o.peer cfg w).0 ≡ ok tt) × (options ≡ with_redis o cfg))

module _ {W : Type 0} (o : Surroundings W) where
  redis_options_cases :
      (cfg : RedisConfig) (w : W)
      → (options : Options W) × (w' : W) × (redis_options o cfg w ≡ (ok options, w'))
        × Uses o cfg options w
  unfolding redis_options
  redis_options_cases cfg w = elim (Bool-cases (is_empty cfg.addr)) [
    | inl unset ↦ (without_redis o, w, rw (unset, redis_options) refl, inl (inl unset, refl))
    | inr addressed ↦ elim (Result-cases (ping o.peer cfg w).0) [
      | inl (_, answered) ↦ (
        with_redis o cfg,
        (ping o.peer cfg w).1,
        rw (addressed, redis_options, try, answered) refl,
        inr (addressed, answered, refl),
      )
      | inr (e, failed) ↦ (
        without_redis o,
        (ping o.peer cfg w).1,
        rw (addressed, redis_options, try, failed) refl,
        inl (inr (e, failed), refl),
      )
    ]
  ]

  start_sessions :
      (cfg : Config) (w w' : W) (s : Service W)
      → start o cfg w ≡ (ok s, w')
      → (s.host ≡ o.host)
        × ((w1 : W) × IsPinged o w w1
            × ((options : Options W) × Uses o cfg.redis options w1
                × (s.sessions ≡ options.sessions)))
  unfolding service_of
  start_sessions cfg w w' s h =
      let (options, w1, w2, chosen, pinged, made) = start_ok o cfg w w' s h in
      let (expected, _, chosen', uses) = redis_options_cases cfg.redis w1 in
      let same : expected ≡ options = cc in
      let (_, _, _, _, shape) =
        new_ok o.host o.decode_hex o.getwd (mysql_store o) cfg options s made in
      rw shape (refl, (w1, pinged, (options, subst (λ p. Uses o cfg.redis p w1) same uses, refl)))

  -- In a backend that has started: if Redis has an address and answered the ping of the start, and is
  -- a session store that keeps what it is told, also while the clock is read, then no user is served
  -- under a token after logging out with it succeeds; if it has no address, or did not answer that
  -- ping, then the backend runs without sessions, and logging out does nothing.
  pub tcpd_logout :
      (session : W → Bytes → Result (Option ℕ)) (cfg : Config)
      → IsSessionStore
          (redis_sessions o cfg.redis)
          (session_key o.peer cfg.redis o.sha256_hex)
          session
      → ((v : W) (t : Bytes) → session (o.host.clock v).1 t ≡ session v t)
      → (w w' : W) (s : Service W) (token : Bytes) (v v' u : W) (id : ℕ)
      → start o cfg w ≡ (ok s, w')
      → logout s token v ≡ (ok tt, v')
      → (w1 : W) × IsPinged o w w1
        × (((is_empty cfg.redis.addr ≡ false)
              × ((ping o.peer cfg.redis w1).0 ≡ ok tt)
              × (require_user s token v' ≢ (ok id, u)))
            ⊎ (((is_empty cfg.redis.addr ≡ true)
                  ⊎ ((e : Error) × ((ping o.peer cfg.redis w1).0 ≡ err e)))
                × (s.sessions ≡ none)
                × (v' ≡ v)))
  tcpd_logout session cfg laws clock_keeps w w' s token v v' u id started out =
      let (same_host, (w1, pinged, (options, uses, kept))) = start_sessions cfg w w' s started in
      elim uses [
        | inl (unused, without) ↦
            let absent : s.sessions ≡ none = kept ∙ ap (λ p. p.sessions) without in
            (
              w1,
              pinged,
              inr (
                unused,
                absent,
                ap (λ r. r.1) (sym out ∙ logout_without_sessions s token v absent),
              ),
            )
        | inr (addressed, answered, using) ↦ (
          w1,
          pinged,
          inl (
            addressed,
            answered,
            logout_revokes s (redis_sessions o cfg.redis)
                (session_key o.peer cfg.redis o.sha256_hex) session
                (kept ∙ ap (λ p. p.sessions) using) laws
                (subst (λ h. (x : W) (t : Bytes) → session (h.clock x).1 t ≡ session x t)
                  (sym same_host) clock_keeps)
                token v v' u id out,
          ),
        )
      ]
