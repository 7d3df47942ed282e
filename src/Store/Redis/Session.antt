-- ===== src/Store/Redis/Session.antt =====
-- Sessions in a server that keeps what it is told.
use cloud_native_entry_task.Prelude.{
  ℕ, ◌^◌, ◌<◌, ◌≤◌, ◌≡◌, refl, ap, ◌∙◌, sym, subst, false, Option, none, some, List, [], ◌∷◌, Bytes,
  arith, Bool-cases, inl, inr, codes, is_empty, bytes_eq, if◌then◌else◌,
}
use cloud_native_entry_task.Prelude.Int.{ℤ, pos, negsuc, leb_ℤ}
use cloud_native_entry_task.GoLib.Errors.{is_redis_missing, Result, ok, err}
use cloud_native_entry_task.GoLib.Exec.{pure, raise, lift, try, ◌>>=◌, ◌>>◌, continue}
use cloud_native_entry_task.GoLib.Strings.{itoa, itoa_ℤ}
use cloud_native_entry_task.GoLib.Strings.Decimal.{parse_uint-itoa, itoa-is_empty, length-itoa}
use cloud_native_entry_task.Config.Types.{RedisConfig}
use cloud_native_entry_task.Service.Interfaces.{SessionStore, IsSessionStore}
use cloud_native_entry_task.Store.Redis.Resp.{Reply, read_reply}
use cloud_native_entry_task.Store.Redis.Resp.Replies.{
  ServerReply, simple, bulk, integer, nil, IsWellFormed, encode_reply, outcome,
}
use cloud_native_entry_task.Store.Redis.{
  Peer, whole_seconds, exchange, command, session_key, save_session, stored_user, get_session,
  delete_session,
}
use cloud_native_entry_task.Store.Redis.Server.{
  Entry, stored, Answers, Same, Changed, IsRedis, exchange_answer, read_whole, command_ok,
}

above_zero : (n : ℤ) → leb_ℤ n (pos 0) ≡ false → (m : ℕ) × (n ≡ pos m) × (1 ≤ m)
above_zero (pos m) h = (m, refl, ground arith)
above_zero (negsuc m) h = absurd (ground arith)

module _ {W : Type 0} (peer : Peer W) (lookup : W → Bytes → Option Entry) (cfg : RedisConfig)
    (redis : IsRedis peer lookup cfg) (addressed : is_empty cfg.addr ≡ false)
    (sha256_hex : Bytes → Bytes) where
  -- What a reply to GET says.
  session_of : Result (Reply × Bytes) → Result (Option ℕ)
  session_of (ok (reply, rest)) = stored_user peer cfg sha256_hex reply
  session_of (err e) = if is_redis_missing e then ok none else err e

  -- The session that a token has in a world.
  pub session : W → Bytes → Result (Option ℕ)
  session w token =
      session_of
        (read_reply (encode_reply (stored (lookup w (session_key peer cfg sha256_hex token)))))

  -- It depends on the keys only.
  pub session-Same :
      (w w' : W) (token : Bytes) → Same peer lookup w w' → session w' token ≡ session w token
  unfolding session
  session-Same w w' token same =
      ap (λ o. session_of (read_reply (encode_reply (stored o))))
        (same (session_key peer cfg sha256_hex token))

  after_get :
      (args : List Bytes) (raw : Result (Reply × Bytes)) (w w2 : W)
      → command peer cfg args w ≡ continue raw (λ answered. pure answered.0) w2
      → try
          (command peer cfg args)
          (λ e. if is_redis_missing e then pure none else raise e)
          (λ reply. lift (stored_user peer cfg sha256_hex reply))
          w
        ≡ (session_of raw, w2)
  unfolding session_of
  after_get args (ok (reply, rest)) w w2 h = rw (h, try) refl
  after_get args (err e) w w2 h = elim (Bool-cases (is_redis_missing e)) [
    | inl missing ↦ rw (h, try, missing) refl
    | inr other ↦ rw (h, try, other) refl
  ]

  get_lem :
      (token : Bytes) (w : W)
      → (w' : W) × (get_session peer cfg sha256_hex token w ≡ (session w token, w'))
        × Same peer lookup w w'
  unfolding get_session session
  get_lem token w =
      let key = session_key peer cfg sha256_hex token in
      let (w1, same1, started) =
        command_ok peer lookup cfg redis addressed (codes "GET" ∷ key ∷ []) w in
      let (w2, answered, same2) = redis.get key w1 in
      let raw = read_reply (encode_reply (stored (lookup w1 key))) in
      let ended =
        exchange_answer peer lookup (codes "GET" ∷ key ∷ []) (stored (lookup w1 key)) w1 w2
          answered in
      let command_raw : command peer cfg (codes "GET" ∷ key ∷ []) w
          ≡ continue raw (λ a. pure a.0) w2 =
        started ∙ rw (ended, ◌>>=◌) refl in
      (
        w2,
        after_get (codes "GET" ∷ key ∷ []) raw w w2 command_raw
            ∙ ap (λ o. (session_of (read_reply (encode_reply (stored o))), w2)) (same1 key),
        λ k. same2 k ∙ same1 k,
      )

  -- A command that is answered well, with a change of one key.
  change_lem :
      (args : List Bytes) (r : ServerReply) (w1 w2 w : W)
      → command peer cfg args w ≡ (exchange peer args [] >>= λ answered. pure answered.0) w1
      → Answers peer lookup w1 args r w2
      → IsWellFormed r
      → (reply : Reply) × (outcome r [] ≡ ok (reply, []))
      → (command peer cfg args >> pure tt) w ≡ (ok tt, w2)
  change_lem args r w1 w2 w started answered formed (reply, good) =
      rw
        (
          started,
          ◌>>=◌,
          exchange_answer peer lookup args r w1 w2 answered,
          read_whole peer lookup r formed,
          good,
        )
        refl

  -- The world after a session is saved for at least a second, and after one is deleted.
  save_lem :
      (token : Bytes) (id : ℕ) (ttl : ℤ) (w : W)
      → leb_ℤ (whole_seconds ttl) (pos 0) ≡ false
      → (seconds : ℕ) × (whole_seconds ttl ≡ pos seconds)
        × (1 ≤ seconds)
        × ((w' : W) × (save_session peer cfg sha256_hex token id ttl w ≡ (ok tt, w'))
            × Changed peer lookup
                (session_key peer cfg sha256_hex token)
                (some (itoa id, itoa seconds))
                w
                w')
  unfolding save_session itoa_ℤ itoa
  save_lem token id ttl w long =
      let key = session_key peer cfg sha256_hex token in
      let (seconds, is_seconds, least) = above_zero (whole_seconds ttl) long in
      let args = codes "SET" ∷ key ∷ itoa id ∷ codes "EX" ∷ itoa seconds ∷ [] in
      let (w1, same, started) = command_ok peer lookup cfg redis addressed args w in
      let (w2, answered, changed) = redis.set key (itoa id) seconds w1 least in
      (
        seconds,
        is_seconds,
        least,
        (
          w2,
          rw (long, save_session, is_seconds)
              (change_lem args (simple (codes "OK")) w1 w2 w started answered (omega arith)
                (_, refl)),
          λ j.
              changed j
              ∙ ap (λ o. if bytes_eq j key then some (itoa id, itoa seconds) else o) (same j),
        ),
      )

  delete_lem :
      (token : Bytes) (w : W)
      → (w' : W) × (delete_session peer cfg sha256_hex token w ≡ (ok tt, w'))
        × Changed peer lookup (session_key peer cfg sha256_hex token) none w w'
  unfolding delete_session
  delete_lem token w =
      let key = session_key peer cfg sha256_hex token in
      let args = codes "DEL" ∷ key ∷ [] in
      let (w1, same, started) = command_ok peer lookup cfg redis addressed args w in
      let (n, w2, small, answered, changed) = redis.del key w1 in
      (
        w2,
        change_lem args (integer n) w1 w2 w started answered small (_, refl),
        λ j. changed j ∙ ap (λ o. if bytes_eq j key then none else o) (same j),
      )

  session_some :
      (id : ℕ)
      → id < 2 ^ 64
      → session_of (read_reply (encode_reply (bulk (itoa id)))) ≡ ok (some id)
  unfolding session_of stored_user
  session_some id small =
      rw
        (
          read_whole peer lookup (bulk (itoa id)) (omega (arith, length-itoa id small)),
          session_of,
          itoa-is_empty id,
          parse_uint-itoa 64 id small,
        )
        refl

  session_none : session_of (read_reply (encode_reply nil)) ≡ ok none
  unfolding session_of is_redis_missing
  session_none = rw (read_whole peer lookup nil tt, session_of) refl

  session-Changed :
      (token : Bytes) (v : Option Entry) (o : Option ℕ) (w w' : W)
      → Changed peer lookup (session_key peer cfg sha256_hex token) v w w'
      → session_of (read_reply (encode_reply (stored v))) ≡ ok o
      → (t : Bytes)
      → session w' t ≡ (
          if bytes_eq (session_key peer cfg sha256_hex t) (session_key peer cfg sha256_hex token)
          then ok o
          else session w t)
  unfolding session
  session-Changed token v o w w' changed value t =
      let key = session_key peer cfg sha256_hex in
      elim (Bool-cases (bytes_eq (key t) (key token))) [
        | inl same ↦ rw (changed (key t), same) value
        | inr other ↦ rw (changed (key t), other) refl
      ]

  abbrev pub redis_sessions : SessionStore W
  redis_sessions = record {
    save_session = save_session peer cfg sha256_hex;
    get_session = get_session peer cfg sha256_hex;
    delete_session = delete_session peer cfg sha256_hex;
  }

  save_law :
      (token : Bytes) (id : ℕ) (ttl : ℤ) (w w' : W)
      → id < 2 ^ 64
      → save_session peer cfg sha256_hex token id ttl w ≡ (ok tt, w')
      → (t : Bytes)
      → session w' t ≡ (
          if bytes_eq (session_key peer cfg sha256_hex t) (session_key peer cfg sha256_hex token)
          then ok (some id)
          else session w t)
  save_law token id ttl w w' small saved = elim (Bool-cases (leb_ℤ (whole_seconds ttl) (pos 0))) [
    | inl short ↦ absurd (unfold save_session in cc (rw (short, save_session) at saved))
    | inr long ↦
        let (seconds, _, _, (w2, run, changed)) = save_lem token id ttl w long in
        subst
          (λ v.
            (t : Bytes)
            → session v t ≡ (
                if bytes_eq (session_key peer cfg sha256_hex t)
                  (session_key peer cfg sha256_hex token)
                then ok (some id)
                else session w t))
          (ap (λ r. r.1) (sym run ∙ saved))
          (session-Changed token (some (itoa id, itoa seconds)) (some id) w w2 changed
            (session_some id small))
  ]

  delete_law :
      (token : Bytes) (w w' : W)
      → delete_session peer cfg sha256_hex token w ≡ (ok tt, w')
      → (t : Bytes)
      → session w' t ≡ (
          if bytes_eq (session_key peer cfg sha256_hex t) (session_key peer cfg sha256_hex token)
          then ok none
          else session w t)
  delete_law token w w' deleted =
      let (w2, run, changed) = delete_lem token w in
      subst
        (λ v.
          (t : Bytes)
          → session v t ≡ (
              if bytes_eq (session_key peer cfg sha256_hex t)
                (session_key peer cfg sha256_hex token)
              then ok none
              else session w t))
        (ap (λ r. r.1) (sym run ∙ deleted))
        (session-Changed token none none w w2 changed session_none)

  get_law :
      (token : Bytes) (w : W)
      → ((get_session peer cfg sha256_hex token w).0 ≡ session w token)
        × ((t : Bytes) → session (get_session peer cfg sha256_hex token w).1 t ≡ session w t)
  get_law token w =
      let (w2, run, same) = get_lem token w in
      (ap (λ r. r.0) run, λ t. ap (λ v. session v t) (ap (λ r. r.1) run) ∙ session-Same w w2 t same)

  pub redis_sessions-IsSessionStore :
      IsSessionStore redis_sessions (session_key peer cfg sha256_hex) session
  redis_sessions-IsSessionStore = record { get = get_law; save = save_law; delete = delete_law }

  -- Against such a server, saving a session for at least a second succeeds, and so does deleting one.
  pub save_session_total :
      (token : Bytes) (id : ℕ) (ttl : ℤ) (w : W)
      → leb_ℤ (whole_seconds ttl) (pos 0) ≡ false
      → ((save_session peer cfg sha256_hex token id ttl w).0 ≡ ok tt)
        × ((delete_session peer cfg sha256_hex token w).0 ≡ ok tt)
  save_session_total token id ttl w long =
      (ap (λ r. r.0) (save_lem token id ttl w long).3.1, ap (λ r. r.0) (delete_lem token w).1)
