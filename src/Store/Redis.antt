-- ===== src/Store/Redis.antt =====
-- internal/store/redisstore/session.go: sessions and cached pictures in Redis.
--
-- `Peer` is the network and the server, whose state is the world `W`. A write is answered with the
-- bytes that the server sends before it waits for more; what was received and not yet read is passed
-- from one command of a connection to the next, as the buffered reader does. Deadlines show only as
-- the errors and the ends of streams that they cause.
pub mod Resp
pub mod Server
pub mod Session
pub mod Sample
mod Tests
use cloud_native_entry_task.Prelude.{
  ℕ, zero, suc, ◌+◌, ◌/◌, Bool, true, false, Option, none, some, List, [], ◌∷◌, ◌++◌, Bytes, codes,
  is_empty, bytes_eq, if◌then◌else◌,
}
use cloud_native_entry_task.Prelude.Int.{ℤ, pos, negsuc, leb_ℤ}
use cloud_native_entry_task.GoLib.Errors.{Error, external, is_redis_missing, Result, ok, err}
use cloud_native_entry_task.GoLib.Exec.{Exec, pure, raise, lift, try, ◌>>=◌, ◌>>◌}
use cloud_native_entry_task.GoLib.Base64.{std, encode, decode}
use cloud_native_entry_task.GoLib.Strings.{itoa, itoa_ℤ}
use cloud_native_entry_task.GoLib.Numbers.{parse_uint}
use cloud_native_entry_task.Config.Types.{RedisConfig}
use cloud_native_entry_task.Store.Redis.Resp.{Reply, text, number, read_reply, command_chunks}

pub record Peer (W : Type 0) : Type 0 where
  pub dial : Bytes → Exec W (Unit {0})
  pub write : Bytes → Exec W Bytes

-- encoding/json at `pictureValue` (content type and data), and SHA-256 in hexadecimal digits.
pub record PictureCodec : Type 0 where
  pub marshal_picture : Bytes × Bytes → Bytes
  pub unmarshal_picture : Bytes → Option (Bytes × Bytes)

abbrev pub no_address : Error
no_address = external 15

abbrev pub bad_ttl : Error
bad_ttl = external 16

abbrev pub bad_pong : Error
bad_pong = external 18

abbrev pub bad_value : Error
bad_value = external 17

-- `int(ttl.Seconds())`, which cuts off towards zero; the detour over a float is exact up to 2^23
-- seconds.
abbrev pub whole_seconds : ℤ → ℤ
whole_seconds (pos n) = pos (n / 1_000_000_000)
whole_seconds (negsuc n) = negate (suc n / 1_000_000_000)
  where
    negate : ℕ → ℤ
    negate zero = pos 0
    negate (suc n) = negsuc n

abbrev pub key_prefix_of : Bytes → Bytes
key_prefix_of prefix = if is_empty prefix then codes "go-entry-task" else prefix

module _ {W : Type 0} (peer : Peer W) where
  -- `writeCommand`: what the server sends meanwhile.
  pub send : List Bytes → Exec W Bytes
  send [] = pure []
  send (chunk ∷ chunks) = do
    received ← peer.write chunk
    more ← send chunks
    pure (received ++ more)

  -- A command and its reply, after what was received before.
  pub exchange : List Bytes → Bytes → Exec W (Reply × Bytes)
  exchange args unread = do more ← send (command_chunks args); lift (read_reply (unread ++ more))

  -- A command whose reply is only looked at for an error.
  pub prepare : Bool → List Bytes → Bytes → Exec W Bytes
  prepare false args unread = pure unread
  prepare true args unread = do answered ← exchange args unread; pure answered.1

abbrev is_positive : ℤ → Bool
is_positive n = if leb_ℤ n (pos 0) then false else true

abbrev given : Bytes → Bool
given v = if is_empty v then false else true

module _ {W : Type 0} (peer : Peer W) (cfg : RedisConfig) where
  connected : List Bytes → Exec W Reply
  connected args = do
    peer.dial cfg.addr
    unread ← prepare peer (given cfg.password) (codes "AUTH" ∷ cfg.password ∷ []) []
    unread' ← prepare peer (is_positive cfg.db) (codes "SELECT" ∷ itoa_ℤ cfg.db ∷ []) unread
    answered ← exchange peer args unread'
    pure answered.0

  unfoldable pub command : List Bytes → Exec W Reply
  unfolding connected
  command args = if is_empty cfg.addr then raise no_address else connected args

  pong : Reply → Exec W (Unit {0})
  pong (text v) = if bytes_eq v (codes "PONG") then pure tt else raise bad_pong
  pong (number n) = raise bad_pong

  unfoldable pub ping : Exec W (Unit {0})
  unfolding pong
  ping = do reply ← command (codes "PING" ∷ []); pong reply

  module _ (sha256_hex : Bytes → Bytes) where
    unfoldable pub session_key : Bytes → Bytes
    session_key token = key_prefix_of cfg.key_prefix ++ (codes ":session:" ++ sha256_hex token)

    unfoldable pub save_session : Bytes → ℕ → ℤ → Exec W (Unit {0})
    unfolding session_key
    save_session token user_id ttl =
        if leb_ℤ (whole_seconds ttl) (pos 0) then raise bad_ttl else (do
          command (
              codes "SET"
              ∷ session_key token
              ∷ itoa user_id
              ∷ codes "EX"
              ∷ itoa_ℤ (whole_seconds ttl)
              ∷ [])
          pure tt)

    -- A reply that is no text, or an empty one, is no session.
    stored_user : Reply → Result (Option ℕ)
    stored_user (number n) = ok none
    stored_user (text v) =
        if is_empty v
        then ok none
        else elim (parse_uint 64 v) [ none ↦ err bad_value | some id ↦ ok (some id) ]

    unfoldable pub get_session : Bytes → Exec W (Option ℕ)
    unfolding session_key stored_user
    get_session token =
        try (command (codes "GET" ∷ session_key token ∷ []))
          (λ e. if is_redis_missing e then pure none else raise e)
          (λ reply. lift (stored_user reply))

    unfoldable pub delete_session : Bytes → Exec W (Unit {0})
    unfolding session_key
    delete_session token = do command (codes "DEL" ∷ session_key token ∷ []); pure tt

  unfoldable pub picture_key : ℕ → ℕ → Bytes
  picture_key user_id version =
      key_prefix_of cfg.key_prefix
      ++ (codes ":profile-picture:" ++ (itoa user_id ++ (b':' ∷ itoa version)))

  module _ (json : PictureCodec) where
    unfoldable pub save_profile_picture : ℕ → ℕ → Bytes → Bytes → Exec W (Unit {0})
    unfolding picture_key
    save_profile_picture user_id version mime_type content = do
      command (
          codes "SET"
          ∷ picture_key user_id version
          ∷ json.marshal_picture (mime_type, encode std content)
          ∷ [])
      pure tt

    decoded_picture : Option (Bytes × Bytes) → Result (Option (Bytes × Bytes))
    decoded_picture none = err bad_value
    decoded_picture (some (mime_type, base64)) = elim (decode std base64) [
      | none ↦ err bad_value
      | some content ↦ ok (some (mime_type, content))
    ]

    stored_picture : Reply → Result (Option (Bytes × Bytes))
    unfolding decoded_picture
    stored_picture (number n) = ok none
    stored_picture (text v) =
        if is_empty v then ok none else decoded_picture (json.unmarshal_picture v)

    unfoldable pub get_profile_picture : ℕ → ℕ → Exec W (Option (Bytes × Bytes))
    unfolding picture_key stored_picture
    get_profile_picture user_id version =
        try (command (codes "GET" ∷ picture_key user_id version ∷ []))
          (λ e. if is_redis_missing e then pure none else raise e)
          (λ reply. lift (stored_picture reply))

  unfoldable pub delete_profile_picture : ℕ → ℕ → Exec W (Unit {0})
  unfolding picture_key
  delete_profile_picture user_id version = do
    command (codes "DEL" ∷ picture_key user_id version ∷ [])
    pure tt
