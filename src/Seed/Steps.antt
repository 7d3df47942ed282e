-- ===== src/Seed/Steps.antt =====
-- cmd/seed/main.go, `seed`: the sender of the starts and the workers that receive them, step by step.
pub mod Termination
use cloud_native_entry_task.Prelude.{
  ℕ, suc, ◌+◌, ◌*◌, ◌^◌, ◌≤◌, ◌<◌, ◌≡◌, Bool, true, false, List, [], ◌∷◌, ◌++◌, length, ltb,
  if◌then◌else◌,
}
use cloud_native_entry_task.Prelude.Int.{ℤ, pos, leb_ℤ}
use cloud_native_entry_task.GoLib.Errors.{Error, external, Result, ok, err}
use cloud_native_entry_task.Config.Types.{Config}
use cloud_native_entry_task.Seed.{Job, Outside, job_of, batch_length, insert_batch}

-- The next start to send, the starts in the channel, those that a worker has in hand, and `done`. The
-- batches that have ended, the last one first, and whether they were inserted, are kept for the
-- statements: the code logs them.
pub record Progress (W : Type 0) : Type 0 where
  pub next_start : ℕ
  pub jobs : List ℕ
  pub busy : List ℕ
  pub done : ℕ
  pub ended : List (ℕ × Bool)
  pub world : W

unfoldable pub begin : {W : Type 0} → W → Progress W
begin w = record { next_start = 1; jobs = []; busy = []; done = 0; ended = []; world = w }

-- "seed inserted %d of %d users"
abbrev pub not_all_inserted : Error
not_all_inserted = external 50

module _ {W : Type 0} (j : Job W) where
  -- A send waits while the channel is full, and a start past the largest `int` is not modelled. A batch
  -- is made and inserted in one step: it draws salts and sends one statement.
  pub data Step (s : Progress W) : Progress W → Type 0 where
    send :
        s.next_start ≤ j.count
        → length s.jobs < 2 * j.workers
        → s.next_start + j.batch_size < 2 ^ 63
        → Step s (record s {
          next_start = s.next_start + j.batch_size;
          jobs = s.jobs ++ s.next_start ∷ [];
        })
    receive :
        (start_id : ℕ) (later : List ℕ)
        → s.jobs ≡ start_id ∷ later
        → length s.busy < j.workers
        → Step s (record s { jobs = later; busy = start_id ∷ s.busy })
    insert :
        (before : List ℕ) (start_id : ℕ) (after : List ℕ) (w : W)
        → s.busy ≡ before ++ start_id ∷ after
        → insert_batch j start_id s.world ≡ (ok tt, w)
        → Step s (record s {
          busy = before ++ after;
          done = s.done + batch_length j start_id;
          ended = (start_id, true) ∷ s.ended;
          world = w;
        })
    skip :
        (before : List ℕ) (start_id : ℕ) (after : List ℕ) (e : Error) (w : W)
        → s.busy ≡ before ++ start_id ∷ after
        → insert_batch j start_id s.world ≡ (err e, w)
        → Step s
            (record s { busy = before ++ after; ended = (start_id, false) ∷ s.ended; world = w })

  -- A run by the number of its steps.
  pub data Run (s : Progress W) : ℕ → Progress W → Type 0 where
    here : Run s 0 s
    next : {n : ℕ} {t u : Progress W} → Run s n t → Step t u → Run s (suc n) u

  -- The channel is closed and empty, and no worker has a start in hand: `wg.Wait` returns.
  pub record IsFinished (s : Progress W) : Type 0 where
    pub sent : j.count < s.next_start
    pub drained : s.jobs ≡ []
    pub idle : s.busy ≡ []

  unfoldable pub result_of : Progress W → Result (Unit {0})
  result_of s = if ltb s.done j.count then err not_all_inserted else ok tt

-- `seed`, with its result and the world that it leaves.
pub data Seeds {W : Type 0} (cfg : Config) (o : Outside W) (w : W)
    : ℤ → Result (Unit {0}) → W → Type 0 where
  nothing_to_do : (count : ℤ) → leb_ℤ count (pos 0) ≡ true → Seeds cfg o w count (ok tt) w
  worked_off :
      (count n : ℕ) (s : Progress W)
      → 0 < count
      → Run (job_of cfg o count) (begin w) n s
      → IsFinished (job_of cfg o count) s
      → Seeds cfg o w (pos count) (result_of (job_of cfg o count) s) s.world
