-- ===== src/Service/TcpServer.antt =====
-- internal/service/tcp_server.go: connections, the queue of jobs and the workers, as steps.
--
-- A worker's call of `Handle` is one step on the world. Workers are alike: only how many are idle is
-- kept, and the jobs of the others. Select statements and goroutines choose freely among the steps.
mod Connections
unfoldable pub use Connections.*
mod Flight
pub mod Exchange
mod Handled
mod Invariant
pub mod Liveness
pub mod Reachable
pub mod Shutdown
mod Tests
use cloud_native_entry_task.Prelude.{
  ℕ, suc, ◌+◌, ◌≤◌, ◌<◌, ◌≡◌, Bool, true, false, Option, none, some, List, [], ◌∷◌, ◌++◌, Bytes,
  String, length, codes, ◌==◌, if◌then◌else◌,
}
use cloud_native_entry_task.Prelude.Int.{ℤ, pos, pos_part, leb_ℤ}
use cloud_native_entry_task.GoLib.Errors.{Result, ok, err}
use cloud_native_entry_task.Config.Types.{TcpConfig}
use cloud_native_entry_task.Protocol.Frame
use cloud_native_entry_task.Protocol.Frame.{Writer, read_frame, write_frame}
use cloud_native_entry_task.Protocol.Messages.{Request, Response, version}
use cloud_native_entry_task.Service.Errors.{error_code}
use cloud_native_entry_task.Service.Interfaces.{Service}
use cloud_native_entry_task.Service.Handle.{BodyCodec, handle}

module _ {W : Type 0} (service : Service W) (bodies : BodyCodec) (json : MessageCodec)
    (cfg : TcpConfig) where
  pub data Step (s : State W) : State W → Type 0 where
    -- `ListenAndServe`, until its loop has ended
    accept :
        (i : ℕ) (input : Bytes) (output : Writer)
        → (s.conns i).phase ≡ unopened
        → s.jobs_closed ≡ false
        → Step s (record s {
          conns =
              update i
                (record { phase = reading; channel = none; input = input; output = output })
                s.conns;
        })
    -- no frame can be read, or the deadline has passed
    drop :
        (i : ℕ)
        → (s.conns i).phase ≡ reading
        → Step s (record s { conns = update i (record (s.conns i) { phase = closed }) s.conns })
    refuse :
        (i : ℕ) (payload rest : Bytes)
        → (s.conns i).phase ≡ reading
        → Receives json cfg (s.conns i) payload rest
        → json.unmarshal_request payload ≡ none
        → Step s (record s {
          conns =
              update i
                (write_response json cfg (record (s.conns i) { input = rest }) bad_json)
                s.conns;
        })
    enqueue :
        (i : ℕ) (payload rest : Bytes) (req : Request)
        → (s.conns i).phase ≡ reading
        → Receives json cfg (s.conns i) payload rest
        → json.unmarshal_request payload ≡ some req
        → s.jobs_closed ≡ false
        → length s.queue < queue_size cfg
        → Step s (record s {
          conns =
              update i
                (record (s.conns i) { phase = waiting req; channel = none; input = rest })
                s.conns;
          queue = s.queue ++ record { conn = i; req = req } ∷ [];
        })
    -- a worker is waiting at the empty queue
    hand_over :
        (i : ℕ) (payload rest : Bytes) (req : Request) (n : ℕ)
        → (s.conns i).phase ≡ reading
        → Receives json cfg (s.conns i) payload rest
        → json.unmarshal_request payload ≡ some req
        → s.jobs_closed ≡ false
        → s.queue ≡ []
        → s.idle ≡ suc n
        → Step s (record s {
          conns =
              update i
                (record (s.conns i) { phase = waiting req; channel = none; input = rest })
                s.conns;
          handling = s.handling ++ record { conn = i; req = req } ∷ [];
          idle = n;
        })
    refuse_busy :
        (i : ℕ) (payload rest : Bytes) (req : Request)
        → (s.conns i).phase ≡ reading
        → Receives json cfg (s.conns i) payload rest
        → json.unmarshal_request payload ≡ some req
        → s.cancelled ≡ false
        → queue_size cfg ≤ length s.queue
        → Step s (record s {
          conns =
              update i
                (write_response json cfg (record (s.conns i) { input = rest }) (busy req))
                s.conns;
        })
    take :
        (job : Job) (rest : List Job) (n : ℕ)
        → s.queue ≡ job ∷ rest
        → s.idle ≡ suc n
        → Step s (record s { queue = rest; handling = s.handling ++ job ∷ []; idle = n })
    handle_job :
        (xs : List Job) (job : Job) (ys : List Job)
        → s.handling ≡ xs ++ job ∷ ys
        → Step s (record s {
          handling = xs ++ ys;
          replying =
              s.replying
              ++ record { job = job; result = (handle service bodies job.req s.world).0 } ∷ [];
          world = (handle service bodies job.req s.world).1;
        })
    reply :
        (xs : List Answer) (a : Answer) (ys : List Answer)
        → s.replying ≡ xs ++ a ∷ ys
        → (s.conns a.job.conn).channel ≡ none
        → Step s (record s {
          conns = update a.job.conn (record (s.conns a.job.conn) { channel = some a }) s.conns;
          replying = xs ++ ys;
          idle = suc s.idle;
        })
    deliver :
        (i : ℕ) (req : Request) (a : Answer)
        → (s.conns i).phase ≡ waiting req
        → (s.conns i).channel ≡ some a
        → Step s (record s {
          conns =
              update i
                (write_response json cfg
                  (record (s.conns i) { phase = reading; channel = none })
                  (response_of a.job.req a.result))
                s.conns;
        })
    -- the context ends
    cancel : Step s (record s { cancelled = true })
    close_jobs : s.cancelled ≡ true → Step s (record s { jobs_closed = true })
    leave_reading :
        (i : ℕ) (payload rest : Bytes) (req : Request)
        → s.cancelled ≡ true
        → (s.conns i).phase ≡ reading
        → Receives json cfg (s.conns i) payload rest
        → json.unmarshal_request payload ≡ some req
        → Step s (record s { conns = update i (record (s.conns i) { phase = closed }) s.conns })
    leave_waiting :
        (i : ℕ) (req : Request)
        → s.cancelled ≡ true
        → (s.conns i).phase ≡ waiting req
        → Step s (record s { conns = update i (record (s.conns i) { phase = closed }) s.conns })
    stop_idle : (n : ℕ) → s.cancelled ≡ true → s.idle ≡ suc n → Step s (record s { idle = n })
    stop_replying :
        (xs : List Answer) (a : Answer) (ys : List Answer)
        → s.cancelled ≡ true
        → s.replying ≡ xs ++ a ∷ ys
        → Step s (record s { replying = xs ++ ys })

  -- A send on the queue after it was closed is a panic, which ends the process.
  pub data Panics (s : State W) : Type 0 where
    send_closed :
        (i : ℕ) (payload rest : Bytes) (req : Request)
        → (s.conns i).phase ≡ reading
        → Receives json cfg (s.conns i) payload rest
        → json.unmarshal_request payload ≡ some req
        → s.jobs_closed ≡ true
        → Panics s

  pub data Reach (w : W) : State W → Type 0 where
    start : {s : State W} → new_tcp_server cfg w ≡ some s → Reach w s
    later : {s t : State W} → Reach w s → Step s t → Reach w t
