-- ===== src/Store/Redis/Sample.antt =====
-- A small Redis server: it collects the arguments of a command chunk by chunk, and then runs it.
use mathlib.Core.List.{append-nil}
use cloud_native_entry_task.Prelude.{
  ℕ, ◌-◌, ◌≡◌, refl, ap, ◌∙◌, sym, false, Option, none, some, inl, inr, List, [], ◌∷◌, ◌++◌, Bytes,
  arith, length, codes, is_empty, bytes_eq, ◌==◌, if◌then◌else◌,
}
use cloud_native_entry_task.Prelude.Int.{pos}
use cloud_native_entry_task.GoLib.Errors.{Result, ok, Result-cases}
use cloud_native_entry_task.GoLib.Exec.{◌>>=◌}
use cloud_native_entry_task.GoLib.Strings.{itoa, itoa_ℤ}
use cloud_native_entry_task.Config.Types.{RedisConfig}
use cloud_native_entry_task.Store.Redis.Resp.{crlf, argument_chunk, command_chunks}
use cloud_native_entry_task.Store.Redis.Resp.Commands.{
  read_mark, read_counted, read_mark-itoa, read_mark-other, read_counted-append,
}
use cloud_native_entry_task.Store.Redis.Resp.Replies.{
  ServerReply, simple, integer, nil, encode_reply,
}
use cloud_native_entry_task.Store.Redis.{Peer, send}
use cloud_native_entry_task.Store.Redis.Server.{Entry, stored, IsRedis}

abbrev pub Keys : Type 0
Keys = Bytes → Option Entry

pub record Server : Type 0 where
  pub keys : Keys
  pub need : ℕ
  pub args : List Bytes

abbrev pub put : Bytes → Option Entry → Keys → Keys
put k v keys j = if bytes_eq j k then v else keys j

abbrev one_key : Bytes → Bytes → Keys → ServerReply × Keys
one_key name k keys =
    if bytes_eq name (codes "GET")
    then (stored (keys k), keys)
    else if bytes_eq name (codes "DEL")
    then (integer 1, put k none keys)
    else (simple (codes "OK"), keys)

abbrev execute : List Bytes → Keys → ServerReply × Keys
execute (name ∷ []) keys = (simple (codes "PONG"), keys)
execute (name ∷ k ∷ []) keys = one_key name k keys
execute (name ∷ k ∷ v ∷ ex ∷ seconds ∷ []) keys =
    (simple (codes "OK"), put k (some (v, seconds)) keys)
execute _ keys = (nil, keys)

abbrev finish : ServerReply × Keys → Result Bytes × Server
finish (reply, keys) = (ok (encode_reply reply), record { keys = keys; need = 0; args = [] })

abbrev receive : Bytes → Server → Result Bytes × Server
receive arg w =
    if w.need == 1
    then finish (execute (w.args ++ arg ∷ []) w.keys)
    else (ok [], record w { need = w.need - 1; args = w.args ++ arg ∷ [] })

take_argument : Option (Bytes × Bytes) → Server → Result Bytes × Server
take_argument none w = (ok [], w)
take_argument (some (arg, rest)) w = receive arg w

take_chunk : Option (ℕ × Bytes) → Bytes → Server → Result Bytes × Server
unfolding take_argument
take_chunk none chunk w = take_argument (read_counted (read_mark b'$' chunk)) w
take_chunk (some (n, rest)) chunk w = (ok [], record w { need = n; args = [] })

pub write_chunk : Bytes → Server → Result Bytes × Server
unfolding take_chunk
write_chunk chunk w = take_chunk (read_mark b'*' chunk) chunk w

abbrev pub server : Peer Server
server = record { dial = λ addr w. (ok tt, w); write = write_chunk }

abbrev pub lookup : Server → Keys
lookup w = w.keys

write_header :
    (n : ℕ) (w : Server)
    → write_chunk (b'*' ∷ (itoa n ++ crlf)) w ≡ (ok [], record w { need = n; args = [] })
unfolding write_chunk
write_header n w =
    let e : read_mark b'*' (b'*' ∷ (itoa n ++ crlf)) ≡ some (n, []) = read_mark-itoa b'*' n [] in
    rw (e, take_chunk) refl

write_argument : (arg : Bytes) (w : Server) → write_chunk (argument_chunk arg) w ≡ receive arg w
unfolding write_chunk take_argument
write_argument arg w =
    let e : read_counted (read_mark b'$' (argument_chunk arg)) ≡ some (arg, []) =
      ap read_counted (read_mark-itoa b'$' (length arg) (arg ++ crlf))
      ∙ read_counted-append arg [] in
    rw (read_mark-other b'*' b'$' (itoa (length arg) ++ (crlf ++ (arg ++ crlf))) refl, take_chunk)
      (rw (e, take_argument) refl)

-- A chunk that is answered with nothing, and the last one.
send_step :
    (chunk : Bytes) (chunks : List Bytes) (w w' : Server)
    → write_chunk chunk w ≡ (ok [], w')
    → send server (chunk ∷ chunks) w ≡ send server chunks w'
unfolding send
send_step chunk chunks w w' h = elim (Result-cases (send server chunks w').0) [
  | inl (more, e) ↦ rw (h, ◌>>=◌, e) (ap (λ r. (r, (send server chunks w').1)) (sym e))
  | inr (x, e) ↦ rw (h, ◌>>=◌, e) (ap (λ r. (r, (send server chunks w').1)) (sym e))
]

send_last :
    (chunk reply : Bytes) (w w' : Server)
    → write_chunk chunk w ≡ (ok reply, w')
    → send server (chunk ∷ []) w ≡ (ok reply, w')
unfolding send
send_last chunk reply w w' h = rw (h, ◌>>=◌, append-nil reply) refl

-- A command of one argument, of two and of five.
send_one :
    (a : Bytes) (w : Server)
    → send server (command_chunks (a ∷ [])) w ≡ finish (execute (a ∷ []) w.keys)
send_one a w =
    send_step _ _ w _ (write_header 1 w)
    ∙ send_last (argument_chunk a) _ (record w { need = 1; args = [] }) _ (write_argument a _)

send_two :
    (a b : Bytes) (w : Server)
    → send server (command_chunks (a ∷ b ∷ [])) w ≡ finish (execute (a ∷ b ∷ []) w.keys)
send_two a b w =
    send_step _ _ w _ (write_header 2 w)
    ∙ send_step _ _ (record w { need = 2; args = [] }) _ (write_argument a _)
    ∙ send_last (argument_chunk b) _ (record w { need = 1; args = a ∷ [] }) _ (write_argument b _)

send_five :
    (a b c d e : Bytes) (w : Server)
    → send server (command_chunks (a ∷ b ∷ c ∷ d ∷ e ∷ [])) w ≡ (
      ok (encode_reply (simple (codes "OK"))),
      record { keys = put b (some (c, e)) w.keys; need = 0; args = [] },
    )
send_five a b c d e w =
    send_step _ _ w _ (write_header 5 w)
    ∙ send_step _ _ (record w { need = 5; args = [] }) _ (write_argument a _)
    ∙ send_step _ _ (record w { need = 4; args = a ∷ [] }) _ (write_argument b _)
    ∙ send_step _ _ (record w { need = 3; args = a ∷ b ∷ [] }) _ (write_argument c _)
    ∙ send_step _ _ (record w { need = 2; args = a ∷ b ∷ c ∷ [] }) _ (write_argument d _)
    ∙ send_last (argument_chunk e) _ (record w { need = 1; args = a ∷ b ∷ c ∷ d ∷ [] }) _
        (write_argument e _)

abbrev with_keys : Keys → Server
with_keys keys = record { keys = keys; need = 0; args = [] }

abbrev pub config : RedisConfig
config = record {
  addr = codes "127.0.0.1:6379";
  password = codes "secret";
  db = pos 2;
  key_prefix = [];
  dial_timeout = pos 2_000_000_000;
  io_timeout = pos 2_000_000_000;
}

pub server-IsRedis : IsRedis server lookup config
unfolding bytes_eq
server-IsRedis = record {
  dials = λ w. (w, refl, λ k. refl);
  auth = λ w. (with_keys w.keys, send_two (codes "AUTH") config.password w, λ k. refl);
  ping = λ w. (with_keys w.keys, send_one (codes "PING") w, λ k. refl);
  select = λ w. (with_keys w.keys, send_two (codes "SELECT") (itoa_ℤ config.db) w, λ k. refl);
  get = λ k w. (with_keys w.keys, send_two (codes "GET") k w, λ j. refl);
  set = λ k v seconds w least. (
    with_keys (put k (some (v, itoa seconds)) w.keys),
    send_five (codes "SET") k v (codes "EX") (itoa seconds) w,
    λ j. refl,
  );
  del =
      λ k w. (1, with_keys (put k none w.keys), omega arith, send_two (codes "DEL") k w, λ j. refl);
}

abbrev pub no_keys : Server
no_keys = record { keys = λ k. none; need = 0; args = [] }

pub config_addressed : is_empty config.addr ≡ false
unfolding is_empty
config_addressed = refl
