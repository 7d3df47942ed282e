-- ===== src/Store/Redis/Tests.antt =====
-- Runs against the small Redis server.
use cloud_native_entry_task.Prelude.{◌≡◌, some, List, [], ◌∷◌, ◌++◌, Bytes, codes, arith}
use cloud_native_entry_task.GoLib.Errors.{ok}
use cloud_native_entry_task.Store.Redis.Resp.{command_chunks, text, read_reply}
use cloud_native_entry_task.Store.Redis.Resp.Commands.{
  concat, read_command, read_command-command_chunks,
}
use cloud_native_entry_task.Store.Redis.Resp.Replies.{bulk, encode_reply, read_reply-encode_reply}

-- An argument that looks like a command of its own.
abbrev tricky : List Bytes
tricky = codes "GET" ∷ (codes "x" ++ (b'\r' ∷ b'\n' ∷ codes "*1")) ∷ []

read_command-command_chunks_example :
    read_command (concat (command_chunks tricky) ++ codes "PING") ≡ some (tricky, codes "PING")
read_command-command_chunks_example = read_command-command_chunks tricky (codes "PING")

read_reply-encode_reply_example :
    read_reply (encode_reply (bulk (codes "7")) ++ codes "+") ≡ ok (text (codes "7"), codes "+")
read_reply-encode_reply_example =
    read_reply-encode_reply (bulk (codes "7")) (codes "+") (omega arith)

-- A hash that keeps its input.
abbrev hash : Bytes → Bytes
hash token = token
