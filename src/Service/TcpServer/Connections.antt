-- ===== src/Service/TcpServer/Connections.antt =====
-- internal/service/tcp_server.go: the server's state and the responses that it writes.
use cloud_native_entry_task.Prelude.{
  ℕ, ◌≡◌, Bool, true, false, Option, none, some, List, [], Bytes, String, ◌==◌, if◌then◌else◌,
  Bool-cases, inl, inr,
}
use cloud_native_entry_task.Prelude.Int.{pos, pos_part, leb_ℤ}
use cloud_native_entry_task.GoLib.Errors.{Result, ok, err}
use cloud_native_entry_task.Config.Types.{TcpConfig}
use cloud_native_entry_task.Protocol.Frame
use cloud_native_entry_task.Protocol.Frame.{Writer, read_frame, write_frame}
use cloud_native_entry_task.Protocol.Messages.{Request, Response, version}
use cloud_native_entry_task.Service.Errors.{error_code}

-- encoding/json at requests and responses; `none` is an error.
pub record MessageCodec : Type 0 where
  pub unmarshal_request : Bytes → Option Request
  pub marshal_response : Response → Bytes

-- A job, and the connection that waits on its channel.
pub record Job : Type 0 where
  pub conn : ℕ
  pub req : Request

-- What a worker got from `Handle`.
pub record Answer : Type 0 where
  pub job : Job
  pub result : Result Bytes

pub data Phase : Type 0 where
  unopened reading closed : Phase
  waiting : Request → Phase

-- `input` is what the client will have sent, `channel` the response channel of the last request.
pub record Connection : Type 0 where
  pub phase : Phase
  pub channel : Option Answer
  pub input : Bytes
  pub output : Writer

pub record State (W : Type 0) : Type 0 where
  pub conns : ℕ → Connection
  pub queue : List Job
  pub handling : List Job
  pub replying : List Answer
  pub idle : ℕ
  pub world : W
  pub cancelled : Bool
  pub jobs_closed : Bool

abbrev pub update : ℕ → Connection → (ℕ → Connection) → ℕ → Connection
update i c conns j = if j == i then c else conns j

abbrev pub failed_response : Bytes → String × String → Response
failed_response request_id (code, message) = record {
  version = version;
  request_id = request_id;
  ok = false;
  error_code = code;
  message = message;
  body = [];
}

-- The response that a worker makes of what `Handle` returned.
unfoldable pub response_of : Request → Result Bytes → Response
response_of req (ok body) = record {
  version = version;
  request_id = req.request_id;
  ok = true;
  error_code = "";
  message = "";
  body = body;
}
response_of req (err e) = failed_response req.request_id (error_code e)

abbrev pub bad_json : Response
bad_json = failed_response [] ("bad_request", "Invalid JSON request.")

abbrev pub busy : Request → Response
busy req = failed_response req.request_id ("server_busy", "Server is busy.")

abbrev pub worker_count : TcpConfig → ℕ
worker_count cfg = if leb_ℤ cfg.worker_count (pos 0) then 1 else pos_part cfg.worker_count

-- The size of the queue that was made
abbrev pub queue_size : TcpConfig → ℕ
queue_size cfg = pos_part cfg.queue_size

abbrev pub unopened_connection : Connection
unopened_connection = record {
  phase = unopened;
  channel = none;
  input = [];
  output = record { written = []; room = 0 };
}

-- The server that was made, with the workers that `ListenAndServe` starts.
abbrev pub init : {W : Type 0} → TcpConfig → W → State W
init cfg w = record {
  conns = λ i. unopened_connection;
  queue = [];
  handling = [];
  replying = [];
  idle = worker_count cfg;
  world = w;
  cancelled = false;
  jobs_closed = false;
}

-- `NewTCPServer` and the start of `ListenAndServe`: a queue of negative size is a panic, which is
-- `none`.
abbrev pub new_tcp_server : {W : Type 0} → TcpConfig → W → Option (State W)
new_tcp_server cfg w = if leb_ℤ (pos 0) cfg.queue_size then some (init cfg w) else none

-- A server that was made is the one that starts.
pub made-init :
    {W : Type 0} (cfg : TcpConfig) (w : W) (s : State W)
    → new_tcp_server cfg w ≡ some s
    → init cfg w ≡ s
made-init cfg w s e = elim (Bool-cases (leb_ℤ (pos 0) cfg.queue_size)) [
  | inl h ↦ cc (rw h at e)
  | inr h ↦ absurd (cc (rw h at e))
]

module _ (json : MessageCodec) (cfg : TcpConfig) where
  -- `writeResponse`; an error leaves what was written.
  unfoldable pub write_response : Connection → Response → Connection
  write_response c resp = record c {
    output = (write_frame c.output (json.marshal_response resp) cfg.max_frame_bytes).1;
  }

  -- The next frame of a connection, and the input after it.
  abbrev pub Receives : Connection → Bytes → Bytes → Type 0
  Receives c payload rest = read_frame c.input cfg.max_frame_bytes ≡ Frame.ok (payload, rest)
