-- ===== src/Service/TcpServer/Tests.antt =====
-- Runs of a server with one worker and room for one job.
use cloud_native_entry_task.Prelude.{◌≡◌, refl, some, [], ◌∷◌, Bytes, codes, arith}
use cloud_native_entry_task.Prelude.Int.{pos}
use cloud_native_entry_task.Config.Types.{TcpConfig}
use cloud_native_entry_task.Protocol.Frame.{read_frame}
use cloud_native_entry_task.Protocol.Messages.{Request, op_logout}
use cloud_native_entry_task.Service.Handle.{handle}
use cloud_native_entry_task.Service.Sample.{World, service, world, no_json}
use cloud_native_entry_task.Service.TcpServer.{
  MessageCodec, Answer, State, Receives, Step, accept, enqueue, take, handle_job, reply, init,
  Reach, start, later, Panics,
}
use cloud_native_entry_task.Service.TcpServer.Liveness.{Run, Responded, request_answered}
use cloud_native_entry_task.Service.TcpServer.Reachable.{own_answer}
use cloud_native_entry_task.Service.TcpServer.Shutdown.{shutdown-Panics}

abbrev cfg : TcpConfig
cfg = record {
  addr = codes ":9000";
  read_timeout = pos 0;
  write_timeout = pos 0;
  max_frame_bytes = 64;
  worker_count = pos 1;
  queue_size = pos 1;
}

-- Each payload asks to log its bytes out.
abbrev logout_of : Bytes → Request
logout_of payload = record {
  version = 1;
  request_id = payload;
  op = op_logout;
  token = payload;
  body = [];
}

abbrev json : MessageCodec
json = record {
  unmarshal_request = λ payload. some (logout_of payload);
  marshal_response = λ resp. resp.request_id;
}

abbrev request : Request
request = logout_of (7 ∷ [])

abbrev Reached : State World → Type 0
Reached = Reach service no_json json cfg world

abbrev Moves : State World → State World → Type 0
Moves = Step service no_json json cfg

-- A state that a run leads to.
record Scene : Type 0 where
  state : State World
  reach : Reached state

abbrev on : (x : Scene) {t : State World} → Moves x.state t → Scene
on x st = record { state = _; reach = later x.reach st }

abbrev connected : Scene
connected =
    on (record { state = init cfg world; reach = start refl })
      (accept 0 (0 ∷ 0 ∷ 0 ∷ 1 ∷ 7 ∷ []) (record { written = []; room = 100 }) refl refl)

receives : Receives json cfg (connected.state.conns 0) (7 ∷ []) []
unfolding read_frame
receives = refl

abbrev queued : Scene
queued = on connected (enqueue 0 (7 ∷ []) [] request refl receives refl refl (omega arith))

abbrev taken : Scene
taken = on queued (take (record { conn = 0; req = request }) [] 0 refl refl)

abbrev handled : Scene
handled = on taken (handle_job [] (record { conn = 0; req = request }) [] refl)

abbrev answer : Answer
answer = record {
  job = record { conn = 0; req = request };
  result = (handle service no_json request world).0;
}

abbrev answered : Scene
answered = on handled (reply [] answer [] refl refl)

request_answered_example :
    (t : State World) × Run service no_json json cfg queued.state t
    × Responded service no_json json cfg 0 request (queued.state.conns 0) t
request_answered_example = request_answered 0 request queued.reach refl refl

own_answer_example :
    (request ≡ request) × ((v : World) × (answer.result ≡ (handle service no_json request v).0))
own_answer_example = own_answer 0 request answer answered.reach refl refl

shutdown-Panics_example : (t : State World) × Reached t × Panics service no_json json cfg t
shutdown-Panics_example = shutdown-Panics {i = 0} {req = request} connected.reach refl receives refl
