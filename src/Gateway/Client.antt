-- ===== src/Gateway/Client.antt =====
-- internal/httpapi/tcp_client.go: a request to the TCP server, on a connection of its own.
pub mod Served
use cloud_native_entry_task.Prelude.{
  ℕ, ◌+◌, ◌%◌, ◌^◌, Bool, true, false, Option, none, some, List, [], Bytes, String, if◌then◌else◌,
  is_empty,
}
use cloud_native_entry_task.Prelude.Int.{ℤ, pos, leb_ℤ}
use cloud_native_entry_task.GoLib.Errors.{Error, Result, ok, err}
use cloud_native_entry_task.GoLib.Strings.{itoa}
use cloud_native_entry_task.Config.Types.{Config}
use cloud_native_entry_task.Protocol.Frame
use cloud_native_entry_task.Protocol.Frame.{FrameError, Writer, read_frame, write_frame}
use cloud_native_entry_task.Protocol.Messages.{Request, Response, version}

pub record TcpClient : Type 0 where
  pub addr : Bytes
  pub timeout : ℤ
  pub max_frame_bytes : ℕ

-- The request identifier that was given last, and the world.
pub record Gate (W : Type 0) : Type 0 where
  pub last_id : ℕ
  pub world : W

-- A connection, with a timeout or none, takes a number of bytes; the peer sees what was written to
-- it, and sends bytes until it or the timeout ends the connection.
pub record Backend (W : Type 0) : Type 0 where
  pub dial : Bytes → Option ℤ → W → Result ℕ × W
  pub receive : Bytes → W → Bytes × W

-- encoding/json at requests and responses; `none` is an error.
pub record RequestCodec : Type 0 where
  pub marshal_request : Request → Option Bytes
  pub unmarshal_response : Bytes → Option Response

-- Where `Call` leaves the body of a response: nowhere, or in a value that starts as zero.
pub record Target (A : Type 0) : Type 0 where
  pub zero_value : A
  pub unmarshal : Option (Bytes → Option A)

-- `RemoteError`, which `IsRemote` finds, and the errors of dialling, framing and JSON.
pub data CallError : Type 0 where
  remote : String → String → CallError
  not_dialled : Error → CallError
  bad_frame : FrameError → CallError
  bad_request_json bad_response_json bad_body_json : CallError

pub data CallResult (A : Type 0) : Type 0 where
  done : A → CallResult A
  failed : CallError → CallResult A

abbrev pub new_tcp_client : Config → TcpClient
new_tcp_client cfg = record {
  addr = cfg.http.tcp_addr;
  timeout = cfg.http.request_timeout;
  max_frame_bytes = cfg.tcp.max_frame_bytes;
}

-- The timeout of a call, with the time that is left of the caller's deadline.
unfoldable pub timeout_of : Option ℤ → ℤ → ℤ
timeout_of none timeout = timeout
timeout_of (some remaining) timeout =
    if leb_ℤ remaining (pos 0)
    then timeout
    else if leb_ℤ timeout remaining
    then timeout
    else remaining

abbrev pub deadline_of : ℤ → Option ℤ
deadline_of timeout = if leb_ℤ timeout (pos 0) then none else some timeout

abbrev pub request_of : ℕ → String → Bytes → Bytes → Request
request_of id op token body = record {
  version = version;
  request_id = itoa id;
  op = op;
  token = token;
  body = body;
}

module _ {A : Type 0} (out : Target A) where
  abbrev pub decode_out : Option (Bytes → Option A) → Bytes → CallResult A
  decode_out none body = done out.zero_value
  decode_out (some unmarshal) body = elim (unmarshal body) [
    | none ↦ failed bad_body_json
    | some a ↦ done a
  ]

  -- What `call` makes of a response.
  unfoldable pub outcome : Response → CallResult A
  outcome resp =
      if resp.ok
      then if is_empty resp.body then done out.zero_value else decode_out out.unmarshal resp.body
      else failed (remote resp.error_code resp.message)

module _ {W : Type 0} (backend : Backend W) (json : RequestCodec) (c : TcpClient) where
  module _ {A : Type 0} (out : Target A) where
    -- What `call` makes of the bytes that the peer sends.
    unfoldable pub answer_of : Bytes → CallResult A
    unfolding outcome
    answer_of input = elim (read_frame input c.max_frame_bytes) [
      | Frame.err e ↦ failed (bad_frame e)
      | Frame.ok (payload, rest) ↦ elim (json.unmarshal_response payload) [
        | none ↦ failed bad_response_json
        | some resp ↦ outcome out resp
      ]
    ]

    -- The peer acts on what was written, also where the write failed.
    unfoldable pub converse : Bytes → ℕ → Gate W → CallResult A × Gate W
    unfolding answer_of
    converse payload room g =
        let (sent, conn) =
          write_frame (record { written = []; room = room }) payload c.max_frame_bytes in
        let (input, w) = backend.receive conn.written g.world in
        let g' : Gate W = record g { world = w } in
        elim sent [ Frame.err e ↦ (failed (bad_frame e), g') | Frame.ok _ ↦ (answer_of input, g') ]

    -- `call`, once the connection is there.
    unfoldable pub request : String → Bytes → Bytes → ℕ → Gate W → CallResult A × Gate W
    unfolding converse
    request op token body room g =
        let id = (g.last_id + 1) % 2 ^ 64 in
        let g' : Gate W = record g { last_id = id } in
        elim (json.marshal_request (request_of id op token body)) [
          | none ↦ (failed bad_request_json, g')
          | some payload ↦ converse payload room g'
        ]

    unfoldable pub call : String → Bytes → Bytes → ℤ → Gate W → CallResult A × Gate W
    unfolding request
    call op token body timeout g =
        let (dialled, w) = backend.dial c.addr (deadline_of timeout) g.world in
        let g' : Gate W = record g { world = w } in
        elim dialled [
          | err e ↦ (failed (not_dialled e), g')
          | ok room ↦ request op token body room g'
        ]

    -- `Call`
    abbrev pub call_within : Option ℤ → String → Bytes → Bytes → Gate W → CallResult A × Gate W
    call_within remaining op token body = call op token body (timeout_of remaining c.timeout)
