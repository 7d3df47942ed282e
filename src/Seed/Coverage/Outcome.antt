-- ===== src/Seed/Coverage/Outcome.antt =====
-- cmd/seed/main.go, `seed`: what a run has done when it finishes, and what it returns.
use cloud_native_entry_task.Prelude.{
  ℕ, suc, ◌-◌, ◌≤◌, ◌≡◌, ◌↔◌, refl, ap, Bool, true, false, List, [], ◌∷◌, All, arith, occurrences,
  leb, ◌&&◌, if◌then◌else◌,
}
use cloud_native_entry_task.GoLib.Errors.{ok}
use cloud_native_entry_task.Seed.{Job, batch_length}
use cloud_native_entry_task.Seed.Steps.{Progress, begin, Run, IsFinished, result_of}
use cloud_native_entry_task.Seed.Coverage.{
  occurrences-count_up, ids_of, ended_starts, ids_of-nil, total, inserted_total, left, begin-Inv,
  Run-Inv,
}

-- A batch that went into the database, among those that have ended.
abbrev pub WasInserted : ℕ × Bool → Type 0
WasInserted (start_id, inserted) = inserted ≡ true

module _ {W : Type 0} (j : Job W) where
  inserted_total-le :
      (ended : List (ℕ × Bool)) → inserted_total j ended ≤ total j (ended_starts j ended)
  unfolding total inserted_total ended_starts
  inserted_total-le [] = omega arith
  inserted_total-le ((x, true) ∷ ended) = omega (arith, inserted_total-le ended)
  inserted_total-le ((x, false) ∷ ended) = omega (arith, inserted_total-le ended)

  batch_length-ne-zero : (x : ℕ) → 1 ≤ j.batch_size → 1 ≤ batch_length j x
  unfolding batch_length
  batch_length-ne-zero x h = ground arith

  inserted_total-All :
      (ended : List (ℕ × Bool))
      → 1 ≤ j.batch_size
      → total j (ended_starts j ended) ≤ inserted_total j ended
      → All WasInserted ended
  unfolding total inserted_total ended_starts
  inserted_total-All [] h k = tt
  inserted_total-All ((x, true) ∷ ended) h k = (refl, inserted_total-All ended h (omega arith))
  inserted_total-All ((x, false) ∷ ended) h k =
      absurd (omega (arith, inserted_total-le ended, batch_length-ne-zero x h))

  inserted-All :
      (ended : List (ℕ × Bool))
      → All WasInserted ended
      → inserted_total j ended ≡ total j (ended_starts j ended)
  unfolding total inserted_total ended_starts
  inserted-All [] h = refl
  inserted-All ((x, true) ∷ ended) h = omega (arith, inserted-All ended h.1)
  inserted-All ((x, false) ∷ ended) h = absurd (cc)

  -- When a run has finished, every number from one to the count was in exactly one of the batches that
  -- were worked off, and no other number was in any.
  seed_covers :
      (w : W) (n : ℕ) (s : Progress W) (id : ℕ)
      → Run j (begin w) n s
      → IsFinished j s
      → occurrences id (ids_of j (ended_starts j s.ended))
        ≡ (if leb 1 id && leb id j.count then 1 else 0)
  unfolding left
  seed_covers w n s id r f =
      let v = Run-Inv j r (begin-Inv j w) in
      ground (
        arith,
        v.placed id,
        f.sent,
        ap (λ l. occurrences id (ids_of j l)) f.idle,
        ap (λ l. occurrences id (ids_of j l)) f.drained,
        ids_of-nil j id,
        occurrences-count_up id s.next_start (suc j.count - s.next_start),
        occurrences-count_up id 1 j.count,
      )

  -- It returns without an error exactly if all its batches were inserted.
  seed_ok_iff :
      (w : W) (n : ℕ) (s : Progress W)
      → 1 ≤ j.batch_size
      → Run j (begin w) n s
      → IsFinished j s
      → (result_of j s ≡ ok tt) ↔ All WasInserted s.ended
  unfolding result_of left total
  seed_ok_iff w n s h r f =
      let v = Run-Inv j r (begin-Inv j w) in
      let counted : total j (ended_starts j s.ended) ≡ j.count =
        omega (arith, v.counted, f.sent, ap (total j) f.idle, ap (total j) f.drained) in
      (
        (λ e. inserted_total-All s.ended h (ground (arith, e, counted, v.done_counted))),
        (λ all. ground (arith, inserted-All s.ended all, counted, v.done_counted)),
      )

  -- When a run of non-empty batches has finished, every number from one to the count was in exactly one
  -- of the batches that were worked off, no other number was in any, and the result is no error
  -- exactly if all these batches were inserted.
  pub seed_result :
      (w : W) (n : ℕ) (s : Progress W) (id : ℕ)
      → 1 ≤ j.batch_size
      → Run j (begin w) n s
      → IsFinished j s
      → (occurrences id (ids_of j (ended_starts j s.ended))
          ≡ (if leb 1 id && leb id j.count then 1 else 0))
        × ((result_of j s ≡ ok tt) ↔ All WasInserted s.ended)
  seed_result w n s id h r f = (seed_covers w n s id r f, seed_ok_iff w n s h r f)
