-- ===== src/Service/TcpServer/Reachable.antt =====
-- internal/service/tcp_server.go: whose response a connection gets, that it gets one, and what is
-- kept within bounds.
use cloud_native_entry_task.Prelude.{
  ℕ, ◌+◌, ◌≤◌, ◌≡◌, ap, ◌∙◌, some, length, arith, Bool-cases, String, str_eq, eq_iff, inl, inr,
}
use native.Mathlib.Decide.{ℕ_discrete}
use cloud_native_entry_task.Config.Types.{TcpConfig}
use cloud_native_entry_task.Protocol.Messages.{Request}
use cloud_native_entry_task.Service.Interfaces.{Service}
use cloud_native_entry_task.Service.Handle.{BodyCodec, handle}
use cloud_native_entry_task.Service.TcpServer.{
  MessageCodec, Answer, State, waiting, queue_size, worker_count, Reach,
}
use cloud_native_entry_task.Service.TcpServer.Flight.{counting}
use cloud_native_entry_task.Service.TcpServer.Handled
use cloud_native_entry_task.Service.TcpServer.Invariant.{Reach-Inv}

String-discrete : Discrete String
String-discrete a b = elim (Bool-cases (str_eq a b)) [
  | inl same ↦ yes ((eq_iff a b).0 same)
  | inr differ ↦ no (λ e. grind (arith, eq_iff a b))
]

Request-discrete : Discrete Request
Request-discrete = hlevel (ℕ_discrete, String-discrete)

-- 1 for the other requests
other_than : Request → Request → ℕ
other_than req r = elim (Request-discrete r req) [ yes _ ↦ 0 | no _ ↦ 1 ]

other_than_itself : (req : Request) → other_than req req ≡ 0
unfolding other_than
other_than_itself req = grind arith

same_of_other_than : (req r : Request) → other_than req r ≡ 0 → r ≡ req
unfolding other_than
same_of_other_than req r e = grind arith

module _ {W : Type 0} {service : Service W} {bodies : BodyCodec} {json : MessageCodec}
    {cfg : TcpConfig} where
  pub response-request :
      {w : W} {s : State W} {i : ℕ} {req : Request} {a : Answer}
      → Reach service bodies json cfg w s
      → (s.conns i).phase ≡ waiting req
      → (s.conns i).channel ≡ some a
      → a.job.req ≡ req
  response-request {s} {i} {req} {a} r e f =
      same_of_other_than req a.job.req
        (grind (counting, (Reach-Inv r).expected i (other_than req), other_than_itself req))

  -- The queue and the workers stay within the configured numbers.
  pub jobs_bounded :
      {w : W} {s : State W}
      → Reach service bodies json cfg w s
      → (length s.queue ≤ queue_size cfg)
        × (length s.handling + length s.replying ≤ worker_count cfg)
  jobs_bounded r = let inv = Reach-Inv r in (inv.queued, omega (arith, inv.busy_workers))

  -- A connection that waits for the response to a request is only ever given the answer to that
  -- request, and the answer is what `Handle` returned for it in some world.
  pub own_answer :
      {w : W} {s : State W} (i : ℕ) (req : Request) (a : Answer)
      → Reach service bodies json cfg w s
      → (s.conns i).phase ≡ waiting req
      → (s.conns i).channel ≡ some a
      → (a.job.req ≡ req) × ((v : W) × (a.result ≡ (handle service bodies req v).0))
  own_answer i req a r e f =
      let same : a.job.req ≡ req = response-request r e f in
      let (v, h) = (Handled.Reach-Inv r).channels i a f in
      (same, (v, h ∙ ap (λ q. (handle service bodies q v).0) same))
