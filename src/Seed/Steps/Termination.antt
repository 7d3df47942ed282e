-- ===== src/Seed/Steps/Termination.antt =====
-- cmd/seed/main.go, `seed`: it never gets stuck, and it ends.
use cloud_native_entry_task.Prelude.{
  ℕ, zero, suc, ◌+◌, ◌-◌, ◌*◌, ◌^◌, ◌≤◌, ◌<◌, ◌≡◌, refl, ap, ◌⊎◌, inl, inr, List, [], ◌∷◌, arith,
  length, length-append, List-cases, ltb, Bool-cases,
}
use cloud_native_entry_task.GoLib.Errors.{Result, ok, err}
use cloud_native_entry_task.Prelude.Int.{ℤ, pos, negsuc, pos_part}
use cloud_native_entry_task.Config.Types.{Config}
use cloud_native_entry_task.Seed.{Job, Outside, job_of, or_default, insert_batch}
use cloud_native_entry_task.Seed.Steps.{
  Progress, begin, Step, send, receive, insert, skip, Run, here, next, IsFinished, result_of, Seeds,
  nothing_to_do, worked_off,
}

module _ {W : Type 0} (j : Job W) where
  -- Three for a number that is not sent, two for a start in the channel, one for one in hand.
  to_do : Progress W → ℕ
  to_do s = 3 * (suc j.count - s.next_start) + 2 * length s.jobs + length s.busy

  Step-to_do : {s t : Progress W} → 1 ≤ j.batch_size → Step j s t → to_do t < to_do s
  unfolding to_do
  Step-to_do {s} h (send more room small) = omega (arith, length-append s.jobs (s.next_start ∷ []))
  Step-to_do h (receive start_id later first room) = omega (arith, ap length first)
  Step-to_do h (insert before start_id after w held inserted) =
      omega
        (arith, ap length held, length-append before (start_id ∷ after), length-append before after)
  Step-to_do h (skip before start_id after e w held failed) =
      omega
        (arith, ap length held, length-append before (start_id ∷ after), length-append before after)

  Run-to_do : {s t : Progress W} {n : ℕ} → 1 ≤ j.batch_size → Run j s n t → n + to_do t ≤ to_do s
  Run-to_do h here = omega arith
  Run-to_do h (next r st) = omega (arith, Run-to_do h r, Step-to_do h st)

  moves :
      (s : Progress W)
      → 1 ≤ j.workers
      → j.count + j.batch_size < 2 ^ 63
      → IsFinished j s ⊎ ((t : Progress W) × Step j s t)
  moves s h small = elim (List-cases s.busy) [
    | inr (start_id, held, e) ↦
        work start_id held e (insert_batch j start_id s.world).0 (insert_batch j start_id s.world).1
          refl
    | inl idle ↦ elim (List-cases s.jobs) [
      | inr (start_id, later, e) ↦ inr (_, receive start_id later e (omega (arith, ap length idle)))
      | inl drained ↦ elim (Bool-cases (ltb j.count s.next_start)) [
        | inl sent ↦ inl (record { sent = ground arith; drained = drained; idle = idle })
        | inr more ↦ inr (_, send (ground arith) (omega (arith, ap length drained)) (ground arith))
      ]
    ]
  ]
    where
      work :
          (start_id : ℕ) (held : List ℕ)
          → s.busy ≡ start_id ∷ held
          → (r : Result (Unit {0})) (w : W) → insert_batch j start_id s.world ≡ (r, w)
          → IsFinished j s ⊎ ((t : Progress W) × Step j s t)
      work start_id held e (ok _) w h = inr (_, insert [] start_id held w e h)
      work start_id held e (err x) w h = inr (_, skip [] start_id held x w e h)

  finishes :
      (fuel n : ℕ) (s0 s : Progress W)
      → 1 ≤ j.workers
      → 1 ≤ j.batch_size
      → j.count + j.batch_size < 2 ^ 63
      → to_do s < fuel
      → Run j s0 n s
      → (m : ℕ) × (t : Progress W) × Run j s0 m t × IsFinished j t
  finishes zero n s0 s h hb small enough r = absurd (omega arith)
  finishes (suc fuel) n s0 s h hb small enough r = elim (moves s h small) [
    | inl finished ↦ (n, s, r, finished)
    | inr (t, st) ↦
        finishes fuel (suc n) s0 t h hb small (omega (arith, Step-to_do hb st)) (next r st)
  ]

or_default-ne-zero : (n : ℤ) (d : ℕ) → 1 ≤ d → 1 ≤ or_default n d
unfolding or_default
or_default-ne-zero (pos zero) d h = h
or_default-ne-zero (pos (suc n)) d h = omega arith
or_default-ne-zero (negsuc n) d h = h

module _ {W : Type 0} (cfg : Config) (o : Outside W) where
  -- While the count and the batch size fit in an `int` together, a run of `seed` that has not finished
  -- can go on, and it has at most three steps for every user.
  pub seed_ends :
      (count n : ℕ) (w : W) (s : Progress W)
      → count + or_default cfg.seed.batch_size 1000 < 2 ^ 63
      → Run (job_of cfg o count) (begin w) n s
      → (n ≤ 3 * count)
        × (IsFinished (job_of cfg o count) s ⊎ ((t : Progress W) × Step (job_of cfg o count) s t))
  unfolding begin to_do job_of
  seed_ends count n w s small r = (
    omega (
      arith,
      Run-to_do (job_of cfg o count) (or_default-ne-zero cfg.seed.batch_size 1000 (omega arith)) r,
    ),
    moves (job_of cfg o count) s (or_default-ne-zero cfg.seed.concurrency 1 (omega arith)) small,
  )

  -- So `seed` has a result, for every count that fits.
  pub seed_returns :
      (count : ℤ) (w : W)
      → pos_part count + or_default cfg.seed.batch_size 1000 < 2 ^ 63
      → (r : Result (Unit {0})) × (w' : W) × Seeds cfg o w count r w'
  unfolding job_of
  seed_returns (negsuc n) w small = (ok tt, w, nothing_to_do (negsuc n) (ground arith))
  seed_returns (pos zero) w small = (ok tt, w, nothing_to_do (pos 0) refl)
  seed_returns (pos (suc k)) w small =
      let (n, s, r, finished) =
        finishes (job_of cfg o (suc k)) (suc (to_do (job_of cfg o (suc k)) (begin w))) 0 (begin w)
          (begin w) (or_default-ne-zero cfg.seed.concurrency 1 (omega arith))
          (or_default-ne-zero cfg.seed.batch_size 1000 (omega arith)) small (omega arith) here in
      (result_of (job_of cfg o (suc k)) s, s.world, worked_off (suc k) n s (omega arith) r finished)
