-- ===== src/Service/TcpServer/Invariant.antt =====
-- internal/service/tcp_server.go: what holds of every state of the server.
use cloud_native_entry_task.Prelude.{
  ℕ, ◌+◌, ◌≤◌, ◌≡◌, refl, false, List, [], ◌∷◌, length, length-append, arith, subst,
}
use cloud_native_entry_task.Config.Types.{TcpConfig}
use cloud_native_entry_task.Protocol.Messages.{Request}
use cloud_native_entry_task.Service.Interfaces.{Service}
use cloud_native_entry_task.Service.Handle.{BodyCodec}
use cloud_native_entry_task.Service.TcpServer.{
  MessageCodec, Job, Answer, State, Phase, write_response, unopened, reading, closed, waiting,
  queue_size, worker_count, Step, accept, drop, refuse, enqueue, hand_over, refuse_busy, take,
  handle_job, reply, deliver, cancel, close_jobs, leave_reading, leave_waiting, stop_idle,
  stop_replying, Reach, start, later, init, made-init,
}
use cloud_native_entry_task.Service.TcpServer.Flight.{at, tally, tally_answers, flight, counting}

-- A connection that reads has no job on its way, one that waits has only that of its request.
abbrev pub Expected : Phase → (Request → ℕ) → ℕ → Type 0
Expected unopened w n = n ≡ 0
Expected reading w n = n ≡ 0
Expected closed w n = Unit
Expected (waiting req) w n = n ≤ w req

pub record Inv {W : Type 0} (cfg : TcpConfig) (s : State W) : Type 0 where
  pub expected : (i : ℕ) (w : Request → ℕ) → Expected (s.conns i).phase w (flight i w s)
  pub single : (i : ℕ) → flight i (λ _. 1) s ≤ 1
  -- while the context lasts, what is waited for is on its way, and no worker has stopped
  pub answered :
      s.cancelled ≡ false
      → (i : ℕ) {req : Request} → (s.conns i).phase ≡ waiting req
      → flight i (λ _. 1) s ≡ 1
  pub workers :
      s.cancelled ≡ false → s.idle + length s.handling + length s.replying ≡ worker_count cfg
  pub busy_workers : s.idle + length s.handling + length s.replying ≤ worker_count cfg
  pub queued : length s.queue ≤ queue_size cfg

tally_uncounted :
    (i : ℕ) (w : Request → ℕ) (xs : List Job) → tally (at i (λ _. 1)) xs ≡ 0 → tally (at i w) xs ≡ 0
unfolding tally
tally_uncounted i w [] e = refl
tally_uncounted i w (job ∷ xs) e = grind (arith, tally_uncounted i w xs)

tally_answers_uncounted :
    (i : ℕ) (w : Request → ℕ) (xs : List Answer)
    → tally_answers (at i (λ _. 1)) xs ≡ 0
    → tally_answers (at i w) xs ≡ 0
unfolding tally_answers
tally_answers_uncounted i w [] e = refl
tally_answers_uncounted i w (a ∷ xs) e = grind (arith, tally_answers_uncounted i w xs)

init-Inv : {W : Type 0} (cfg : TcpConfig) (w : W) → Inv cfg (init cfg w)
init-Inv cfg w = record {
  expected = λ i w. grind counting;
  single = λ i. grind counting;
  answered = λ live i q. grind arith;
  workers = λ live. omega arith;
  busy_workers = omega arith;
  queued = omega arith;
}

module _ {W : Type 0} {service : Service W} {bodies : BodyCodec} {json : MessageCodec}
    {cfg : TcpConfig} where
  Step-Expected :
      {s t : State W}
      → Step service bodies json cfg s t
      → Inv cfg s
      → (j : ℕ) (w : Request → ℕ) → Expected (t.conns j).phase w (flight j w t)
  unfolding write_response
  Step-Expected {s} (deliver i req a e f) inv j w = grind (
    counting,
    inv.expected j w,
    inv.single i,
    tally_uncounted i w s.queue,
    tally_uncounted i w s.handling,
    tally_answers_uncounted i w s.replying,
  )
  Step-Expected cancel inv j w = inv.expected j w
  Step-Expected (close_jobs c) inv j w = inv.expected j w
  Step-Expected (stop_idle n c e) inv j w = inv.expected j w
  Step-Expected (accept i input output e f) inv j w = grind (counting, inv.expected j w)
  Step-Expected (drop i e) inv j w = grind (counting, inv.expected j w)
  Step-Expected (refuse i payload rest e f g) inv j w = grind (counting, inv.expected j w)
  Step-Expected (enqueue i payload rest req e f g k l) inv j w = grind (counting, inv.expected j w)
  Step-Expected (hand_over i payload rest req n e f g k l m) inv j w =
      grind (counting, inv.expected j w)
  Step-Expected (refuse_busy i payload rest req e f g k l) inv j w =
      grind (counting, inv.expected j w)
  Step-Expected (take job rest n e f) inv j w = grind (counting, inv.expected j w)
  Step-Expected (handle_job xs job ys e) inv j w = grind (counting, inv.expected j w)
  Step-Expected (reply xs a ys e f) inv j w = grind (counting, inv.expected j w)
  Step-Expected (leave_reading i payload rest req c e f g) inv j w =
      grind (counting, inv.expected j w)
  Step-Expected (leave_waiting i req c e) inv j w = grind (counting, inv.expected j w)
  Step-Expected (stop_replying xs a ys c e) inv j w = grind (counting, inv.expected j w)

  Step-single :
      {s t : State W}
      → Step service bodies json cfg s t
      → Inv cfg s
      → (j : ℕ) → flight j (λ _. 1) t ≤ 1
  unfolding write_response
  Step-single cancel inv j = inv.single j
  Step-single (close_jobs c) inv j = inv.single j
  Step-single (stop_idle n c e) inv j = inv.single j
  Step-single (enqueue i payload rest req e f g k l) inv j =
      grind (counting, inv.single j, inv.expected j (λ _. 1))
  Step-single (hand_over i payload rest req n e f g k l m) inv j =
      grind (counting, inv.single j, inv.expected j (λ _. 1))
  Step-single (accept i input output e f) inv j =
      grind (counting, inv.single j, inv.expected j (λ _. 1))
  Step-single (take job rest n e f) inv j = grind (counting, inv.single j)
  Step-single (handle_job xs job ys e) inv j = grind (counting, inv.single j)
  Step-single (reply xs a ys e f) inv j = grind (counting, inv.single j)
  Step-single (stop_replying xs a ys c e) inv j = grind (counting, inv.single j)
  Step-single st inv j = grind (counting, inv.single j, inv.expected j (λ _. 1))

  Step-answered :
      {s t : State W}
      → Step service bodies json cfg s t
      → Inv cfg s
      → t.cancelled ≡ false
      → (j : ℕ) {req : Request} → (t.conns j).phase ≡ waiting req
      → flight j (λ _. 1) t ≡ 1
  unfolding write_response
  Step-answered cancel inv live j q = grind arith
  Step-answered (close_jobs c) inv live j q = grind arith
  Step-answered (stop_idle n c e) inv live j q = grind arith
  Step-answered (leave_reading i payload rest req c e f g) inv live j q = grind arith
  Step-answered (leave_waiting i req c e) inv live j q = grind arith
  Step-answered (stop_replying xs a ys c e) inv live j q = grind arith
  Step-answered (accept i input output e f) inv live j q = grind (counting, inv.answered live j)
  Step-answered (drop i e) inv live j q = grind (counting, inv.answered live j)
  Step-answered (refuse i payload rest e f g) inv live j q = grind (counting, inv.answered live j)
  Step-answered (enqueue i payload rest req e f g k l) inv live j q =
      grind (counting, inv.answered live j, inv.expected j (λ _. 1))
  Step-answered (hand_over i payload rest req n e f g k l m) inv live j q =
      grind (counting, inv.answered live j, inv.expected j (λ _. 1))
  Step-answered (refuse_busy i payload rest req e f g k l) inv live j q =
      grind (counting, inv.answered live j)
  Step-answered (take job rest n e f) inv live j q = grind (counting, inv.answered live j)
  Step-answered (handle_job xs job ys e) inv live j q = grind (counting, inv.answered live j)
  Step-answered (reply xs a ys e f) inv live j q = grind (counting, inv.answered live j)
  Step-answered (deliver i req a e f) inv live j q = grind (counting, inv.answered live j)

  Step-workers :
      {s t : State W}
      → Step service bodies json cfg s t
      → Inv cfg s
      → t.cancelled ≡ false
      → t.idle + length t.handling + length t.replying ≡ worker_count cfg
  Step-workers cancel inv live = grind arith
  Step-workers (stop_idle n c e) inv live = grind arith
  Step-workers (stop_replying xs a ys c e) inv live = grind arith
  Step-workers (hand_over i payload rest req n e f g k l m) inv live =
      grind (arith, length-append, inv.workers live)
  Step-workers (take job rest n e f) inv live = grind (arith, length-append, inv.workers live)
  Step-workers (handle_job xs job ys e) inv live = grind (arith, length-append, inv.workers live)
  Step-workers (reply xs a ys e f) inv live = grind (arith, length-append, inv.workers live)
  Step-workers st inv live = inv.workers live

  Step-busy_workers :
      {s t : State W}
      → Step service bodies json cfg s t
      → Inv cfg s
      → t.idle + length t.handling + length t.replying ≤ worker_count cfg
  Step-busy_workers (hand_over i payload rest req n e f g k l m) inv =
      grind (arith, length-append, inv.busy_workers)
  Step-busy_workers (take job rest n e f) inv = grind (arith, length-append, inv.busy_workers)
  Step-busy_workers (handle_job xs job ys e) inv = grind (arith, length-append, inv.busy_workers)
  Step-busy_workers (reply xs a ys e f) inv = grind (arith, length-append, inv.busy_workers)
  Step-busy_workers (stop_idle n c e) inv = grind (arith, inv.busy_workers)
  Step-busy_workers (stop_replying xs a ys c e) inv = grind (arith, length-append, inv.busy_workers)
  Step-busy_workers st inv = inv.busy_workers

  Step-queued :
      {s t : State W}
      → Step service bodies json cfg s t
      → Inv cfg s
      → length t.queue ≤ queue_size cfg
  Step-queued (enqueue i payload rest req e f g k l) inv = grind (arith, length-append)
  Step-queued (take job rest n e f) inv = grind (arith, length-append, inv.queued)
  Step-queued st inv = inv.queued

  pub Step-Inv : {s t : State W} → Step service bodies json cfg s t → Inv cfg s → Inv cfg t
  Step-Inv st inv = record {
    expected = Step-Expected st inv;
    single = Step-single st inv;
    answered = Step-answered st inv;
    workers = Step-workers st inv;
    busy_workers = Step-busy_workers st inv;
    queued = Step-queued st inv;
  }

  pub Reach-Inv : {w : W} {s : State W} → Reach service bodies json cfg w s → Inv cfg s
  Reach-Inv {w} (start made) = subst (Inv cfg) (made-init cfg w _ made) (init-Inv cfg w)
  Reach-Inv (later r st) = Step-Inv st (Reach-Inv r)
