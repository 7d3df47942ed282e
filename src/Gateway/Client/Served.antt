-- ===== src/Gateway/Client/Served.antt =====
-- internal/httpapi/tcp_client.go against internal/service/tcp_server.go: a call is a `Handle`.
use cloud_native_entry_task.Prelude.{
  ℕ, ◌+◌, ◌-◌, ◌%◌, ◌^◌, ◌≤◌, ◌≡◌, refl, ap, sym, subst, ◌⊎◌, inl, inr, ◌∙◌, some, [], Bytes,
  String, length, if◌then◌else◌, is_empty,
}
use cloud_native_entry_task.Prelude.Int.{ℤ}
use cloud_native_entry_task.GoLib.Errors.{Result, ok, err}
use cloud_native_entry_task.Config.Types.{TcpConfig}
use cloud_native_entry_task.Protocol.Frame
use cloud_native_entry_task.Protocol.Frame.{Writer, eof, read_full, read_frame, write_frame}
use cloud_native_entry_task.Protocol.Frame.RoundTrip.{frame, IsAcceptable, write_frame-frame}
use cloud_native_entry_task.Protocol.Messages.{Request, Response}
use cloud_native_entry_task.Service.Errors.{error_code}
use cloud_native_entry_task.Service.Interfaces.{Service}
use cloud_native_entry_task.Service.Handle.{BodyCodec, handle}
use cloud_native_entry_task.Service.TcpServer.{
  MessageCodec, State, reading, response_of, busy, Reach,
}
use cloud_native_entry_task.Service.TcpServer.Liveness.{Run}
use cloud_native_entry_task.Service.TcpServer.Exchange.{read_whole, exchange_sound}
use cloud_native_entry_task.Gateway.Client.{
  TcpClient, Gate, Backend, RequestCodec, Target, remote, bad_frame, CallResult, done, failed,
  request_of, deadline_of, decode_out, outcome, answer_of, converse, request, call,
}

-- What a call gives for what `Handle` returned.
abbrev pub told : {A : Type 0} → Target A → Result Bytes → CallResult A
told out (ok body) =
    if is_empty body then done out.zero_value else decode_out out out.unmarshal body
told out (err e) = failed (remote (error_code e).0 (error_code e).1)

-- What takes so many bytes.
abbrev pub fresh : ℕ → Writer
fresh room = record { written = []; room = room }

-- Both sides take the payload, and a connection its frame.
abbrev pub IsCarried : TcpClient → TcpConfig → ℕ → Bytes → Type 0
IsCarried c tcp room payload =
    IsAcceptable c.max_frame_bytes payload
    × IsAcceptable tcp.max_frame_bytes payload
    × (length (frame payload) ≤ room)

-- A connection that takes the frame of a payload, and a reader that is sent it.
written_frame :
    (payload : Bytes) (room max_bytes : ℕ)
    → IsAcceptable max_bytes payload
    → length (frame payload) ≤ room
    → write_frame (fresh room) payload max_bytes
      ≡ (Frame.ok tt, record { written = frame payload; room = room - length (frame payload) })
written_frame payload room max_bytes = write_frame-frame _ payload max_bytes

-- The client writes a request as a payload that both sides take, and the server reads it back.
abbrev pub IsSent :
    RequestCodec → MessageCodec → TcpClient → TcpConfig → ℕ → Request → Bytes → Type 0
IsSent json messages c tcp room req payload =
    (json.marshal_request req ≡ some payload)
    × (messages.unmarshal_request payload ≡ some req)
    × IsCarried c tcp room payload

-- A response that the server writes, both sides take, and the client reads back.
abbrev pub IsAnswered : RequestCodec → MessageCodec → TcpClient → TcpConfig → ℕ → Response → Type 0
IsAnswered json messages c tcp room resp =
    (json.unmarshal_response (messages.marshal_response resp) ≡ some resp)
    × IsCarried c tcp room (messages.marshal_response resp)

-- The request that the next call sends.
abbrev pub next_id : {W : Type 0} → Gate W → ℕ
next_id g = (g.last_id + 1) % 2 ^ 64

abbrev pub next_request : {W : Type 0} → Gate W → String → Bytes → Bytes → Request
next_request g = request_of (next_id g)

module _ {W : Type 0} (service : Service W) (bodies : BodyCodec) (messages : MessageCodec)
    (tcp : TcpConfig) where
  -- The bytes and the world are what a run of the TCP server leaves, from a state that it reached, in
  -- which the frame of a payload is what a connection of its was sent; other connections are as they
  -- may be.
  pub record IsServed (room : ℕ) (payload : Bytes) (w : W) (got : Bytes × W) : Type 0 where
    pub initial : W
    pub before : State W
    pub after : State W
    pub conn : ℕ
    pub reached : Reach service bodies messages tcp initial before
    pub phase : (before.conns conn).phase ≡ reading
    pub input : (before.conns conn).input ≡ frame payload
    pub output : (before.conns conn).output ≡ fresh room
    pub run : Run service bodies messages tcp before after
    pub begins : before.world ≡ w
    pub sends : got.0 ≡ (after.conns conn).output.written
    pub ends : got.1 ≡ after.world

  -- What a call gives: what `Handle` returned in some world, that the server is busy, or that the
  -- connection ended.
  abbrev pub CallCases : {A : Type 0} → Target A → Request → CallResult A → Type 0
  CallCases out req result =
      ((v : W) × (result ≡ told out (handle service bodies req v).0))
      ⊎ (result ≡ failed (remote "server_busy" "Server is busy."))
      ⊎ (result ≡ failed (bad_frame eof))

module _ {W : Type 0} (service : Service W) (bodies : BodyCodec) (messages : MessageCodec)
    (tcp : TcpConfig) (backend : Backend W) (c : TcpClient) (room : ℕ) (json : RequestCodec)
    {A : Type 0} (out : Target A) where
  outcome-response_of :
      (req : Request) (r : Result Bytes) → outcome out (response_of req r) ≡ told out r
  unfolding outcome response_of
  outcome-response_of req (ok body) = refl
  outcome-response_of req (err e) = refl

  outcome-busy :
      (req : Request) → outcome out (busy req) ≡ failed (remote "server_busy" "Server is busy.")
  unfolding outcome
  outcome-busy req = refl

  answered :
      (req : Request) (resp : Response)
      → IsAnswered json messages c tcp room resp
      → answer_of backend json c out
          (write_frame (fresh room) (messages.marshal_response resp) tcp.max_frame_bytes).1.written
        ≡ outcome out resp
  unfolding answer_of
  answered req resp (read, (readable, writable, fits)) =
      let payload = messages.marshal_response resp in
      rw
        (
          written_frame payload room tcp.max_frame_bytes writable fits,
          answer_of,
          read_whole payload c.max_frame_bytes readable,
          read,
        )
        refl

  unanswered : answer_of backend json c out [] ≡ failed (bad_frame eof)
  unfolding answer_of read_frame read_full
  unanswered = refl

  -- What the client makes of what it is sent.
  told_lem :
      (req : Request) (w : Writer)
      → ((v : W)
          → IsAnswered json messages c tcp room (response_of req (handle service bodies req v).0))
      → IsAnswered json messages c tcp room (busy req)
      → (w ≡ fresh room)
        ⊎ ((v : W) × (w
              ≡ (write_frame
                  (fresh room)
                  (messages.marshal_response (response_of req (handle service bodies req v).0))
                  tcp.max_frame_bytes).1))
        ⊎ (w
            ≡ (write_frame
                (fresh room)
                (messages.marshal_response (busy req))
                tcp.max_frame_bytes).1)
      → CallCases service bodies messages tcp out req (answer_of backend json c out w.written)
  told_lem req w back back_busy (inl e) =
      inr (inr (ap (λ o. answer_of backend json c out o.written) e ∙ unanswered))
  told_lem req w back back_busy (inr (inl (v, e))) = inl (
    v,
    ap (λ o. answer_of backend json c out o.written) e
        ∙ answered req (response_of req (handle service bodies req v).0) (back v)
        ∙ outcome-response_of req (handle service bodies req v).0,
  )
  told_lem req w back back_busy (inr (inr e)) = inr (
      inl (
        ap (λ o. answer_of backend json c out o.written) e
        ∙ answered req (busy req) back_busy
        ∙ outcome-busy req))

  -- A call hears what the peer sends to the frame of its request.
  call_lem :
      (op : String) (token body : Bytes) (timeout : ℤ) (g : Gate W) (payload : Bytes) (w : W)
      → backend.dial c.addr (deadline_of timeout) g.world ≡ (ok room, w)
      → IsSent json messages c tcp room (next_request g op token body) payload
      → (call backend json c out op token body timeout g).0
        ≡ answer_of backend json c out (backend.receive (frame payload) w).0
  unfolding call request converse
  call_lem op token body timeout g payload w dialled (sent, read, (readable, writable, fits)) =
      rw
        (
          call,
          dialled,
          request,
          sent,
          converse,
          written_frame payload room c.max_frame_bytes readable fits,
          dialled,
          written_frame payload room c.max_frame_bytes readable fits,
        )
        refl

  -- A call to the TCP server, whatever it does for other connections at the same time, gives what
  -- `Handle` returned in some world for the request under the next identifier (the body, read as the
  -- caller wants it, or the code and the message of the error), or that the server is busy, or that
  -- the connection ended before a response; if the connection is made, and request and responses
  -- pass between the two.
  pub call-handle :
      (op : String) (token body : Bytes) (timeout : ℤ) (g : Gate W) (payload : Bytes) (w : W)
      → backend.dial c.addr (deadline_of timeout) g.world ≡ (ok room, w)
      → IsSent json messages c tcp room (next_request g op token body) payload
      → IsServed service bodies messages tcp room payload w (backend.receive (frame payload) w)
      → ((v : W)
          → IsAnswered json messages c tcp room (
              response_of
                (next_request g op token body)
                (handle service bodies (next_request g op token body) v).0))
      → IsAnswered json messages c tcp room (busy (next_request g op token body))
      → CallCases service bodies messages tcp out
          (next_request g op token body)
          (call backend json c out op token body timeout g).0
  call-handle op token body timeout g payload w dialled (sent, read, (readable, writable, fits))
        served back back_busy =
      let req = next_request g op token body in
      subst (CallCases service bodies messages tcp out req)
        (sym (
          call_lem op token body timeout g payload w dialled
            (sent, read, (readable, writable, fits))
          ∙ ap (λ bytes. answer_of backend json c out bytes) served.sends))
        (told_lem req (served.after.conns served.conn).output back back_busy (
          exchange_sound service bodies messages tcp served.conn payload req (fresh room) writable
            read served.reached served.phase served.input served.output served.run))
