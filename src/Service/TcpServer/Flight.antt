-- ===== src/Service/TcpServer/Flight.antt =====
-- internal/service/tcp_server.go: the jobs of a connection that are on their way through the server.
use cloud_native_entry_task.Prelude.{
  ℕ, ◌+◌, ◌≤◌, ◌≡◌, refl, Bool, true, false, Option, none, some, List, [], ◌∷◌, ◌++◌, arith, ◌==◌,
  if◌then◌else◌,
}
use cloud_native_entry_task.Protocol.Messages.{Request}
use cloud_native_entry_task.Service.TcpServer.{Job, Answer, State}

-- The weight of a job of connection `i`.
abbrev pub at : ℕ → (Request → ℕ) → Job → ℕ
at i w job = if job.conn == i then w job.req else 0

unfoldable pub tally : (Job → ℕ) → List Job → ℕ
tally w [] = 0
tally w (job ∷ jobs) = w job + tally w jobs

unfoldable pub tally_answers : (Job → ℕ) → List Answer → ℕ
tally_answers w [] = 0
tally_answers w (a ∷ answers) = w a.job + tally_answers w answers

abbrev pub held : (Request → ℕ) → Option Answer → ℕ
held w none = 0
held w (some a) = w a.job.req

-- The weight of the jobs of connection `i` that are queued, handled, answered or delivered.
abbrev pub flight : {W : Type 0} → ℕ → (Request → ℕ) → State W → ℕ
flight i w s =
    tally (at i w) s.queue
    + tally (at i w) s.handling
    + tally_answers (at i w) s.replying
    + held w (s.conns i).channel

pub tally_add : (w : Job → ℕ) (xs ys : List Job) → tally w (xs ++ ys) ≡ tally w xs + tally w ys
unfolding tally
tally_add w [] ys = omega arith
tally_add w (job ∷ xs) ys = omega (arith, tally_add w xs ys)

pub tally_answers_add :
    (w : Job → ℕ) (xs ys : List Answer)
    → tally_answers w (xs ++ ys) ≡ tally_answers w xs + tally_answers w ys
unfolding tally_answers
tally_answers_add w [] ys = omega arith
tally_answers_add w (a ∷ xs) ys = omega (arith, tally_answers_add w xs ys)

pub tally_cons : (w : Job → ℕ) (job : Job) (xs : List Job) → tally w (job ∷ xs) ≡ w job + tally w xs
unfolding tally
tally_cons w job xs = refl

pub tally_answers_cons :
    (w : Job → ℕ) (a : Answer) (xs : List Answer)
    → tally_answers w (a ∷ xs) ≡ w a.job + tally_answers w xs
unfolding tally_answers
tally_answers_cons w a xs = refl

pub tally_none : (w : Job → ℕ) → tally w [] ≡ 0
unfolding tally
tally_none w = refl

pub tally_answers_none : (w : Job → ℕ) → tally_answers w [] ≡ 0
unfolding tally_answers
tally_answers_none w = refl

pub ruleset counting = (
  arith, tally_add, tally_answers_add, tally_cons, tally_answers_cons, tally_none,
  tally_answers_none,
)
