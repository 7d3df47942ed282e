-- ===== src/Service/TcpServer/Liveness.antt =====
-- internal/service/tcp_server.go: a request that waits can always be answered.
use cloud_native_entry_task.Prelude.{
  ℕ, zero, suc, ◌+◌, ◌*◌, ◌<◌, ◌≡◌, refl, ◌∙◌, false, none, some, List, [], ◌∷◌, length,
  length-append, arith, Option-cases, List-cases, ◌⊎◌, inl, inr,
}
use cloud_native_entry_task.Config.Types.{TcpConfig}
use cloud_native_entry_task.Protocol.Messages.{Request}
use cloud_native_entry_task.Service.Interfaces.{Service}
use cloud_native_entry_task.Service.Handle.{BodyCodec, handle}
use cloud_native_entry_task.Service.TcpServer.{
  MessageCodec, Job, Answer, State, reading, waiting, Connection, update, response_of,
  write_response, Step, take, handle_job, reply, deliver, Reach, later,
}
use cloud_native_entry_task.Service.TcpServer.Flight.{counting}
use cloud_native_entry_task.Service.TcpServer.Handled
use cloud_native_entry_task.Service.TcpServer.Invariant.{Reach-Inv}
use cloud_native_entry_task.Service.TcpServer.Reachable.{response-request}

update_here : (i : ℕ) (c : Connection) (conns : ℕ → Connection) → update i c conns i ≡ c
update_here i c conns = grind arith

ℕ-cases : (n : ℕ) → (n ≡ 0) ⊎ ((m : ℕ) × (n ≡ suc m))
ℕ-cases zero = inl refl
ℕ-cases (suc m) = inr (m, refl)

-- How far the jobs are from their answers.
work : {W : Type 0} → State W → ℕ
work s = 3 * length s.queue + 2 * length s.handling + length s.replying

module _ {W : Type 0} (service : Service W) (bodies : BodyCodec) (json : MessageCodec)
    (cfg : TcpConfig) where
  pub data Run : State W → State W → Type 0 where
    done : {s : State W} → Run s s
    next : {s t u : State W} → Step service bodies json cfg s t → Run t u → Run s u

  -- The connection was written the response to its request, with what `Handle` gave for it.
  abbrev pub Responded : ℕ → Request → Connection → State W → Type 0
  Responded i req c t =
      (v : W) × (t.conns i
        ≡ write_response json cfg (record c { phase = reading; channel = none })
            (response_of req (handle service bodies req v).0))

  -- A step of a worker that leaves the waiting connection as it is, but for its channel.
  record Onward (i : ℕ) (s u : State W) : Type 0 where
    step : Step service bodies json cfg s u
    nearer : work u < work s
    live : u.cancelled ≡ s.cancelled
    phase : (u.conns i).phase ≡ (s.conns i).phase
    input : (u.conns i).input ≡ (s.conns i).input
    output : (u.conns i).output ≡ (s.conns i).output

module _ {W : Type 0} {service : Service W} {bodies : BodyCodec} {json : MessageCodec}
    {cfg : TcpConfig} where
  delivered :
      {w : W} {s : State W} (i : ℕ) (req : Request) (a : Answer)
      → Reach service bodies json cfg w s
      → (s.conns i).phase ≡ waiting req
      → (s.conns i).channel ≡ some a
      → (t : State W) × Run service bodies json cfg s t
        × Responded service bodies json cfg i req (s.conns i) t
  delivered {s} i req a r e f =
      let same : a.job.req ≡ req = response-request r e f in
      let (v, h) = (Handled.Reach-Inv r).channels i a f in
      (_, next (deliver i req a e f) done, (v, grind (arith, update_here i, h, same)))

  Onward-reply :
      {w : W} {s : State W} (i : ℕ) (a : Answer) (rest : List Answer)
      → Reach service bodies json cfg w s
      → s.replying ≡ a ∷ rest
      → (u : State W) × Onward service bodies json cfg i s u
  unfolding work
  Onward-reply {s} i a rest r e =
      let free : (s.conns a.job.conn).channel ≡ none =
        grind (counting, (Reach-Inv r).single a.job.conn) in
      (
        _,
        record {
          step = reply [] a rest e free;
          nearer = grind arith;
          live = refl;
          phase = grind arith;
          input = grind arith;
          output = grind arith;
        },
      )

  Onward-handle :
      {s : State W} (i : ℕ) (job : Job) (rest : List Job)
      → s.handling ≡ job ∷ rest
      → (u : State W) × Onward service bodies json cfg i s u
  unfolding work
  Onward-handle {s} i job rest e = (
    _,
    record {
      step = handle_job [] job rest e;
      nearer = grind (arith, length-append);
      live = refl;
      phase = refl;
      input = refl;
      output = refl;
    },
  )

  Onward-take :
      {s : State W} (i : ℕ) (job : Job) (rest : List Job) (n : ℕ)
      → s.queue ≡ job ∷ rest
      → s.idle ≡ suc n
      → (u : State W) × Onward service bodies json cfg i s u
  unfolding work
  Onward-take {s} i job rest n e f = (
    _,
    record {
      step = take job rest n e f;
      nearer = grind (arith, length-append);
      live = refl;
      phase = refl;
      input = refl;
      output = refl;
    },
  )

  onward :
      {w : W} {s : State W} (i : ℕ) (req : Request)
      → Reach service bodies json cfg w s
      → s.cancelled ≡ false
      → (s.conns i).phase ≡ waiting req
      → (s.conns i).channel ≡ none
      → (u : State W) × Onward service bodies json cfg i s u
  onward {s} i req r live e f = elim (List-cases s.replying) [
    | inr (a, rest, g) ↦ Onward-reply i a rest r g
    | inl no_answer ↦ elim (List-cases s.handling) [
      | inr (job, rest, g) ↦ Onward-handle i job rest g
      | inl no_job ↦ elim (List-cases s.queue) [
        | inr (job, rest, g) ↦ elim (ℕ-cases s.idle) [
          | inr (n, k) ↦ Onward-take i job rest n g k
          | inl none_idle ↦ absurd (grind (arith, (Reach-Inv r).workers live))
        ]
        | inl empty ↦ absurd (grind (counting, (Reach-Inv r).answered live i e))
      ]
    ]
  ]

  answer_within :
      {w : W} (n : ℕ) {s : State W} (i : ℕ) (req : Request)
      → Reach service bodies json cfg w s
      → s.cancelled ≡ false
      → (s.conns i).phase ≡ waiting req
      → work s < n
      → (t : State W) × Run service bodies json cfg s t
        × Responded service bodies json cfg i req (s.conns i) t
  answer_within zero i req r live e h = absurd (omega arith)
  answer_within (suc n) {s} i req r live e h = elim (Option-cases (s.conns i).channel) [
    | inr (a, f) ↦ delivered i req a r e f
    | inl f ↦
        let (u, o) = onward i req r live e f in
        let (t, run, (v, given)) =
          answer_within n i req (later r o.step) (o.live ∙ live) (o.phase ∙ e)
            (omega (arith, o.nearer)) in
        (t, next o.step run, (v, grind (arith, given, o.input, o.output)))
  ]

  -- While the context lasts, every request that waits can still be answered: from every reachable
  -- state some steps lead to one in which the connection was written the response to its request,
  -- with what `Handle` gave for it, and reads again.
  pub request_answered :
      {w : W} {s : State W} (i : ℕ) (req : Request)
      → Reach service bodies json cfg w s
      → s.cancelled ≡ false
      → (s.conns i).phase ≡ waiting req
      → (t : State W) × Run service bodies json cfg s t
        × Responded service bodies json cfg i req (s.conns i) t
  request_answered {s} i req r live e = answer_within (suc (work s)) i req r live e (omega arith)
