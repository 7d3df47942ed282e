-- ===== src/Service/TcpServer/Shutdown.antt =====
-- internal/service/tcp_server.go: the queue is closed while connections may still send to it.
use cloud_native_entry_task.Prelude.{ℕ, ◌≡◌, refl, true, some, Bytes, subst}
use cloud_native_entry_task.Config.Types.{TcpConfig}
use cloud_native_entry_task.Protocol.Messages.{Request}
use cloud_native_entry_task.Service.Interfaces.{Service}
use cloud_native_entry_task.Service.Handle.{BodyCodec}
use cloud_native_entry_task.Service.TcpServer.{
  MessageCodec, State, reading, Receives, cancel, close_jobs, Reach, start, later, Panics,
  made-init, send_closed,
}

module _ {W : Type 0} {service : Service W} {bodies : BodyCodec} {json : MessageCodec}
    {cfg : TcpConfig} where
  Reach-closed :
      {w : W} {s : State W}
      → Reach service bodies json cfg w s
      → s.jobs_closed ≡ true
      → s.cancelled ≡ true
  Reach-closed {w} (start made) e =
      subst (λ s. s.jobs_closed ≡ true → s.cancelled ≡ true) (made-init cfg w _ made) (λ f. cc) e
  Reach-closed (later r cancel) e = refl
  Reach-closed (later r (close_jobs c)) e = c
  Reach-closed (later r st) e = Reach-closed r e

  -- From every reachable state in which a connection is about to receive a request, a state is
  -- reachable in which the send of that request to the queue panics: the context ends and the queue
  -- is closed first.
  pub shutdown-Panics :
      {w : W} {s : State W} {i : ℕ} {payload rest : Bytes} {req : Request}
      → Reach service bodies json cfg w s
      → (s.conns i).phase ≡ reading
      → Receives json cfg (s.conns i) payload rest
      → json.unmarshal_request payload ≡ some req
      → (t : State W) × Reach service bodies json cfg w t × Panics service bodies json cfg t
  shutdown-Panics {s} {i} {payload} {rest} {req} r e f g = (
    record s { cancelled = true; jobs_closed = true },
    later (later r cancel) (close_jobs refl),
    send_closed i payload rest req e f g refl,
  )

  -- In a reachable state a send to the queue can panic only after the context has ended.
  pub Panics-cancelled :
      {w : W} {s : State W}
      → Reach service bodies json cfg w s
      → Panics service bodies json cfg s
      → s.cancelled ≡ true
  Panics-cancelled r (send_closed i payload rest req e f g c) = Reach-closed r c
