-- ===== src/Gateway/Tests.antt =====
-- Runs of the gateway, in front of a run of the TCP server with the sample service.
use cloud_native_entry_task.Prelude.{
  ℕ, ◌≡◌, refl, ap, sym, subst, ◌⊎◌, inl, inr, none, some, [], ◌∷◌, codes, arith, is_empty,
  bytes_eq, str_eq, if◌then◌else◌,
}
use cloud_native_entry_task.Prelude.Int.{pos}
use cloud_native_entry_task.GoLib.Errors.{ok, err, unauthorized}
use cloud_native_entry_task.Config.Types.{HttpConfig, TcpConfig}
use cloud_native_entry_task.Protocol.Frame
use cloud_native_entry_task.Protocol.Frame.{read_frame}
use cloud_native_entry_task.Protocol.Frame.RoundTrip.{length-frame, frame, IsAcceptable}
use cloud_native_entry_task.Protocol.Messages.{Request, op_get_profile}
use cloud_native_entry_task.GoLib.Strings.{itoa, trim_space}
use cloud_native_entry_task.Service.Token.Sample.{undotted_refused}
use cloud_native_entry_task.Service.Account.{require_user}
use cloud_native_entry_task.Service.Errors.{error_code}
use cloud_native_entry_task.Service.Handle.{handle}
use cloud_native_entry_task.Service.Handle.Guard.{handle-require_user}
use cloud_native_entry_task.Service.Sample.{World, service, world, no_json}
use cloud_native_entry_task.Service.TcpServer.{
  MessageCodec, Job, Answer, State, reading, update, init, response_of, busy, Step, accept, enqueue,
  take, handle_job, reply, deliver, start, later,
}
use cloud_native_entry_task.Service.TcpServer.Liveness.{Run, done, next}
use cloud_native_entry_task.Service.TcpServer.Exchange.{read_whole, Said, exchange_sound}
use cloud_native_entry_task.Gateway.Http.{HttpRequest, WebCodec}
use cloud_native_entry_task.Gateway.Client.{TcpClient, Gate, Backend, RequestCodec, Target, call}
use cloud_native_entry_task.Gateway.Client.Served.{
  IsCarried, IsSent, IsAnswered, IsServed, CallCases, fresh, call-handle,
}
use cloud_native_entry_task.Gateway.Responses.{token_from_cookie, write_protocol_error}
use cloud_native_entry_task.Gateway.Handlers.{me}
use cloud_native_entry_task.Gateway.Guard.{me_refused}

abbrev tcp : TcpConfig
tcp = record {
  addr = codes ":9000";
  read_timeout = pos 0;
  write_timeout = pos 0;
  max_frame_bytes = 64;
  worker_count = pos 1;
  queue_size = pos 1;
}

abbrev http : HttpConfig
http = record {
  addr = codes ":8080";
  tcp_addr = codes ":9000";
  request_timeout = pos 0;
  max_body_bytes = pos 64;
  cookie_name = codes "session";
  profile_picture_base_url = codes "/api/me/profile-picture";
}

abbrev client : TcpClient
client = record { addr = codes ":9000"; timeout = pos 0; max_frame_bytes = 64 }

-- Each payload asks for the profile with the token "a"; a response is one byte that tells whether it is
-- a success, an error of the service or that the server is busy.
abbrev profile_request : Request
profile_request = record {
  version = 1;
  request_id = codes "1";
  op = op_get_profile;
  token = codes "a";
  body = [];
}

abbrev messages : MessageCodec
messages = record {
  unmarshal_request = λ payload. some profile_request;
  marshal_response = λ resp.
      if resp.ok then 1 ∷ [] else if str_eq resp.error_code "server_busy" then 3 ∷ [] else 2 ∷ [];
}

abbrev json : RequestCodec
json = record {
  marshal_request = λ req. some (1 ∷ []);
  unmarshal_response = λ payload.
      if bytes_eq payload (2 ∷ [])
      then some (response_of profile_request (err unauthorized))
      else some (busy profile_request);
}

abbrev Moves : State World → State World → Type 0
Moves = Step service no_json messages tcp

one_byte : (b : ℕ) → IsCarried client tcp 64 (b ∷ [])
unfolding frame
one_byte b =
    let a : IsAcceptable 64 (b ∷ []) = record {
      nonempty = omega arith;
      fits = omega arith;
      limited = inr (omega arith);
    } in
    (a, a, omega (arith, length-frame (b ∷ [])))

-- A connection sends a request, and a worker answers it.
abbrev connected : State World
connected = record (init tcp world) {
  conns =
      update 0
        (record { phase = reading; channel = none; input = frame (1 ∷ []); output = fresh 64 })
        (init tcp world).conns;
}

abbrev job : Job
job = record { conn = 0; req = profile_request }

abbrev handled : Answer
handled = record { job = job; result = (handle service no_json profile_request world).0 }

receives : read_frame (frame (1 ∷ [])) 64 ≡ Frame.ok (1 ∷ [], [])
receives = read_whole (1 ∷ []) 64 (one_byte 1).0

-- A state that a run leads to.
record Scene : Type 0 where
  state : State World
  run : Run service no_json messages tcp connected state

Run-append :
    {s t u : State World}
    → Run service no_json messages tcp s t
    → Run service no_json messages tcp t u
    → Run service no_json messages tcp s u
Run-append done more = more
Run-append (next st run) more = next st (Run-append run more)

abbrev on : (x : Scene) {t : State World} → Moves x.state t → Scene
on x st = record { state = _; run = Run-append x.run (next st done) }

abbrev answered : Scene
answered =
    on
      (on
        (on
          (on
            (on (record { state = connected; run = done })
              (enqueue 0 (1 ∷ []) [] profile_request refl receives refl refl (omega arith)))
            (take job [] 0 refl refl))
          (handle_job [] job [] refl))
        (reply [] handled [] refl refl))
      (deliver 0 profile_request handled refl refl)

-- The peer of the gateway is this run.
abbrev backend : Backend World
backend = record {
  dial = λ addr deadline w. (ok 64, w);
  receive = λ written w. ((answered.state.conns 0).output.written, answered.state.world);
}

served :
    IsServed service no_json messages tcp 64 (1 ∷ []) world (backend.receive (frame (1 ∷ [])) world)
served = record {
  initial = world;
  before = connected;
  after = answered.state;
  conn = 0;
  reached = later (start refl) (accept 0 (frame (1 ∷ [])) (fresh 64) refl refl);
  phase = refl;
  input = refl;
  output = refl;
  run = answered.run;
  begins = refl;
  sends = refl;
  ends = refl;
}

abbrev nowhere : Target (Unit {0})
nowhere = record { zero_value = tt; unmarshal = none }

-- Each body is read as nothing, and written as nothing.
abbrev web : WebCodec
web = record {
  decode_login = λ body. none;
  decode_nickname = λ body. none;
  parse_form = λ limit body. none;
  detect_content_type = λ content. codes "image/png";
  marshal_login = λ body. [];
  marshal_nickname = λ body. [];
  marshal_upload = λ body. [];
  unmarshal_login = λ body. none;
  unmarshal_profile = λ body. none;
  unmarshal_picture = λ body. none;
  encode_login = λ result. [];
  encode_profile = λ profile. [];
  encode_error = λ code message. codes code;
  encode_ok = codes "{}";
}

abbrev gate : Gate World
gate = record { last_id = 0; world = world }

profile-IsSent : IsSent json messages client tcp 64 profile_request (1 ∷ [])
profile-IsSent = (refl, refl, one_byte 1)

refused_everywhere : (v : World) → (require_user service (codes "a") v).0 ≡ err unauthorized
unfolding require_user is_empty trim_space
refused_everywhere v = rw (undotted_refused service.tokens (pos v.time)) refl

profile-IsAnswered :
    IsAnswered json messages client tcp 64 (response_of profile_request (err unauthorized))
unfolding bytes_eq response_of error_code
profile-IsAnswered = (refl, one_byte 2)

busy-IsAnswered : IsAnswered json messages client tcp 64 (busy profile_request)
unfolding bytes_eq
busy-IsAnswered = (refl, one_byte 3)

IsAnswered-everywhere :
    (v : World)
    → IsAnswered json messages client tcp 64
        (response_of profile_request (handle service no_json profile_request v).0)
IsAnswered-everywhere v =
    subst (λ x. IsAnswered json messages client tcp 64 (response_of profile_request x))
      (sym (
        ap (λ q. q.0)
          (handle-require_user service no_json profile_request v unauthorized (inl refl)
            (refused_everywhere v))))
      profile-IsAnswered

abbrev with_cookie : HttpRequest
with_cookie = record { remaining = none; cookie = λ name. some (codes "a"); body = [] }

call-handle_example :
    CallCases service no_json messages tcp nowhere profile_request
      (call backend json client nowhere op_get_profile (codes "a") [] (pos 0) gate).0
unfolding itoa
call-handle_example =
    call-handle service no_json messages tcp backend client 64 json nowhere op_get_profile
      (codes "a") [] (pos 0) gate (1 ∷ []) world refl profile-IsSent served IsAnswered-everywhere
      busy-IsAnswered

me_refused_example :
    let answer = (me http web backend json client with_cookie gate).0 in
    (answer ≡ write_protocol_error http web 401 "unauthorized" "Authentication failed.")
    ⊎ (answer ≡ write_protocol_error http web 429 "server_busy" "Server is busy.")
    ⊎ (answer
        ≡ write_protocol_error http web 502 "tcp_backend_unavailable"
            "Backend service is unavailable.")
unfolding token_from_cookie trim_space is_empty itoa
me_refused_example =
    me_refused service no_json messages tcp backend client 64 json http web with_cookie gate
      (codes "a") (1 ∷ []) world refl refused_everywhere refl profile-IsSent served
      profile-IsAnswered busy-IsAnswered

exchange_sound_example :
    ((answered.state.conns 0).output ≡ fresh 64)
    ⊎ Said service no_json messages tcp 0
        (1 ∷ [])
        profile_request
        (fresh 64)
        (answered.state.conns 0).output
unfolding served
exchange_sound_example =
    exchange_sound service no_json messages tcp 0 (1 ∷ []) profile_request (fresh 64) (one_byte 1).0
      refl served.reached refl refl refl served.run
