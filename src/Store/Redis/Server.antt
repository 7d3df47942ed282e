-- ===== src/Store/Redis/Server.antt =====
-- What a Redis server answers, and how far a command comes with it.
use mathlib.Core.List.{append-nil}
use cloud_native_entry_task.Prelude.{
  ℕ, ◌^◌, ◌<◌, ◌≤◌, ◌≡◌, refl, ap, ◌∙◌, sym, true, false, Bool, Option, none, some, List, [], ◌∷◌,
  Bytes, arith, codes, is_empty, bytes_eq, if◌then◌else◌,
}
use cloud_native_entry_task.GoLib.Errors.{ok}
use cloud_native_entry_task.GoLib.Exec.{pure, ◌>>=◌}
use cloud_native_entry_task.GoLib.Strings.{itoa, itoa_ℤ}
use cloud_native_entry_task.Config.Types.{RedisConfig}
use cloud_native_entry_task.Store.Redis.Resp.{read_reply, command_chunks}
use cloud_native_entry_task.Store.Redis.Resp.Replies.{
  ServerReply, simple, bulk, integer, nil, IsWellFormed, encode_reply, outcome,
  read_reply-encode_reply,
}
use cloud_native_entry_task.Store.Redis.{
  Peer, send, exchange, prepare, given, is_positive, connected, command, ping, pong,
}

-- What a key holds: a value, and the number of seconds that it was set for.
abbrev pub Entry : Type 0
Entry = Bytes × Bytes

abbrev pub stored : Option Entry → ServerReply
stored none = nil
stored (some (v, seconds)) = bulk v

module _ {W : Type 0} (peer : Peer W) (lookup : W → Bytes → Option Entry) where
  abbrev pub Answers : W → List Bytes → ServerReply → W → Type 0
  Answers w args r w' = send peer (command_chunks args) w ≡ (ok (encode_reply r), w')

  abbrev pub Same : W → W → Type 0
  Same w w' = (k : Bytes) → lookup w' k ≡ lookup w k

  abbrev pub Changed : Bytes → Option Entry → W → W → Type 0
  Changed k v w w' = (j : Bytes) → lookup w' j ≡ (if bytes_eq j k then v else lookup w j)

  -- The peer is a Redis server that is reached at the configured address, takes the configured
  -- password, and whose keys in the configured database are as `lookup` says; no key runs out while
  -- a command is answered.
  pub record IsRedis (cfg : RedisConfig) : Type 0 where
    pub dials : (w : W) → (w' : W) × (peer.dial cfg.addr w ≡ (ok tt, w')) × Same w w'
    pub auth :
        (w : W)
        → (w' : W) × Answers w (codes "AUTH" ∷ cfg.password ∷ []) (simple (codes "OK")) w'
          × Same w w'
    pub ping :
        (w : W) → (w' : W) × Answers w (codes "PING" ∷ []) (simple (codes "PONG")) w' × Same w w'
    pub select :
        (w : W)
        → (w' : W) × Answers w (codes "SELECT" ∷ itoa_ℤ cfg.db ∷ []) (simple (codes "OK")) w'
          × Same w w'
    pub get :
        (k : Bytes) (w : W)
        → (w' : W) × Answers w (codes "GET" ∷ k ∷ []) (stored (lookup w k)) w' × Same w w'
    pub set :
        (k v : Bytes) (seconds : ℕ) (w : W)
        → 1 ≤ seconds
        → (w' : W) × Answers w
            (codes "SET" ∷ k ∷ v ∷ codes "EX" ∷ itoa seconds ∷ [])
            (simple (codes "OK"))
            w'
          × Changed k (some (v, itoa seconds)) w w'
    pub del :
        (k : Bytes) (w : W)
        → (n : ℕ) × (w' : W) × (n < 2 ^ 63)
          × Answers w (codes "DEL" ∷ k ∷ []) (integer n) w'
          × Changed k none w w'

  pub exchange_answer :
      (args : List Bytes) (r : ServerReply) (w w' : W)
      → Answers w args r w'
      → exchange peer args [] w ≡ (read_reply (encode_reply r), w')
  unfolding exchange
  exchange_answer args r w w' h = rw (h, ◌>>=◌) refl

  pub read_whole : (r : ServerReply) → IsWellFormed r → read_reply (encode_reply r) ≡ outcome r []
  read_whole r h =
      ap read_reply (sym (append-nil (encode_reply r))) ∙ read_reply-encode_reply r [] h

  prepare_ok :
      (on : Bool) (args : List Bytes) (w w' : W)
      → Answers w args (simple (codes "OK")) w'
      → Same w w'
      → (w2 : W) × (prepare peer on args [] w ≡ (ok [], w2)) × Same w w2
  unfolding prepare
  prepare_ok false args w w' h same = (w, refl, λ k. refl)
  prepare_ok true args w w' h same = (
    w',
    rw
        (
          exchange_answer args (simple (codes "OK")) w w' h,
          read_whole (simple (codes "OK")) (omega arith),
        )
        refl,
    same,
  )

  module _ (cfg : RedisConfig) (redis : IsRedis cfg) (addressed : is_empty cfg.addr ≡ false) where
    -- A command comes down to its exchange, after a start that changes no key.
    pub command_ok :
        (args : List Bytes) (w : W)
        → (w2 : W) × Same w w2
          × (command peer cfg args w ≡ (exchange peer args [] >>= λ answered. pure answered.0) w2)
    unfolding command connected
    command_ok args w =
        let (w1, dialled, same1) = redis.dials w in
        let (a, authed, same_a) = redis.auth w1 in
        let (w2, ready, same2) =
          prepare_ok (given cfg.password) (codes "AUTH" ∷ cfg.password ∷ []) w1 a authed same_a in
        let (b, selected, same_b) = redis.select w2 in
        let (w3, ready', same3) =
          prepare_ok (is_positive cfg.db) (codes "SELECT" ∷ itoa_ℤ cfg.db ∷ []) w2 b selected
            same_b in
        (w3, λ k. same3 k ∙ same2 k ∙ same1 k, rw (addressed, command, dialled, ready, ready') refl)

    -- The server is found there.
    pub ping_ok : (w : W) → (w2 : W) × (ping peer cfg w ≡ (ok tt, w2)) × Same w w2
    unfolding ping pong
    ping_ok w =
        let (w1, same1, started) = command_ok (codes "PING" ∷ []) w in
        let (w2, answered, same2) = redis.ping w1 in
        (
          w2,
          rw
              (
                started,
                ◌>>=◌,
                exchange_answer (codes "PING" ∷ []) (simple (codes "PONG")) w1 w2 answered,
                read_whole (simple (codes "PONG")) (omega arith),
              )
              (unfold bytes_eq in refl),
          λ k. same2 k ∙ same1 k,
        )
