-- ===== src/Seed/Coverage.antt =====
-- cmd/seed/main.go, `seed`: where the number of each user is, at every step.
pub mod Outcome
use cloud_native_entry_task.Prelude.{
  ℕ, zero, suc, ◌+◌, ◌-◌, ◌*◌, ◌^◌, ◌≤◌, ◌<◌, ◌≡◌, ◌↔◌, refl, sym, ap, ◌∙◌, inl, inr, Bool, true,
  false, List, [], ◌∷◌, ◌++◌, map, All, All-append, arith, length, occurrences, occurrences-append,
  leb, ltb, ◌&&◌, ◌==◌, if◌then◌else◌, Bool-cases, subst,
}
use cloud_native_entry_task.GoLib.Errors.{Result, ok, err}
use cloud_native_entry_task.Seed.{Job, batch_length}
use cloud_native_entry_task.Seed.Users.{count_up}
use cloud_native_entry_task.Seed.Steps.{
  Progress, begin, Step, send, receive, insert, skip, Run, here, next, IsFinished, result_of,
  not_all_inserted,
}

pub occurrences-count_up :
    (id a n : ℕ) → occurrences id (count_up a n) ≡ (if leb a id && ltb id (a + n) then 1 else 0)
unfolding occurrences count_up
occurrences-count_up id a zero = ground arith
occurrences-count_up id a (suc n) = ground (arith, occurrences-count_up id (suc a) n)

occurrences-count_up_add :
    (id a n m : ℕ)
    → occurrences id (count_up a (n + m))
      ≡ occurrences id (count_up a n) + occurrences id (count_up (a + n) m)
occurrences-count_up_add id a n m = ground (
  arith,
  occurrences-count_up id a (n + m),
  occurrences-count_up id a n,
  occurrences-count_up id (a + n) m,
)

module _ {W : Type 0} (j : Job W) where
  -- The numbers of the users of some batches.
  pub ids_of : List ℕ → List ℕ
  ids_of [] = []
  ids_of (start_id ∷ starts) = count_up start_id (batch_length j start_id) ++ ids_of starts

  pub ended_starts : List (ℕ × Bool) → List ℕ
  ended_starts [] = []
  ended_starts ((start_id, inserted) ∷ ended) = start_id ∷ ended_starts ended

  ids_of-cons :
      (id x : ℕ) (xs : List ℕ)
      → occurrences id (ids_of (x ∷ xs))
        ≡ occurrences id (count_up x (batch_length j x)) + occurrences id (ids_of xs)
  unfolding ids_of
  ids_of-cons id x xs = occurrences-append id (count_up x (batch_length j x)) (ids_of xs)

  ids_of-append :
      (id : ℕ) (xs ys : List ℕ)
      → occurrences id (ids_of (xs ++ ys)) ≡ occurrences id (ids_of xs) + occurrences id (ids_of ys)
  unfolding ids_of occurrences
  ids_of-append id [] ys = omega arith
  ids_of-append id (x ∷ xs) ys =
      omega (arith, ids_of-cons id x (xs ++ ys), ids_of-append id xs ys, ids_of-cons id x xs)

  pub total : List ℕ → ℕ
  total [] = 0
  total (x ∷ xs) = batch_length j x + total xs

  total-append : (xs ys : List ℕ) → total (xs ++ ys) ≡ total xs + total ys
  unfolding total
  total-append [] ys = omega arith
  total-append (x ∷ xs) ys = omega (arith, total-append xs ys)

  pub inserted_total : List (ℕ × Bool) → ℕ
  inserted_total [] = 0
  inserted_total ((x, true) ∷ ended) = batch_length j x + inserted_total ended
  inserted_total ((x, false) ∷ ended) = inserted_total ended

  pub left : Progress W → ℕ
  left s = suc j.count - s.next_start

  abbrev pub IsStart : ℕ → Type 0
  IsStart x = x ≤ j.count

  -- Every number is in one place.
  pub record Inv (s : Progress W) : Type 0 where
    pub placed :
        (id : ℕ)
        → occurrences id (ids_of (ended_starts s.ended))
            + occurrences id (ids_of s.busy)
            + occurrences id (ids_of s.jobs)
            + occurrences id (count_up s.next_start (left s))
          ≡ occurrences id (count_up 1 j.count)
    pub counted : total (ended_starts s.ended) + total s.busy + total s.jobs + left s ≡ j.count
    pub done_counted : s.done ≡ inserted_total s.ended
    pub ended_are_starts : All IsStart (ended_starts s.ended)
    pub busy_are_starts : All IsStart s.busy
    pub jobs_are_starts : All IsStart s.jobs

  -- What is left to send begins with the next batch.
  sent_batch :
      (id x : ℕ)
      → x ≤ j.count
      → occurrences id (count_up x (suc j.count - x))
        ≡ occurrences id (count_up x (batch_length j x))
          + occurrences id (count_up (x + j.batch_size) (suc j.count - (x + j.batch_size)))
  unfolding batch_length
  sent_batch id x h = ground (
    arith,
    occurrences-count_up id x (suc j.count - x),
    occurrences-count_up id x (batch_length j x),
    occurrences-count_up id (x + j.batch_size) (suc j.count - (x + j.batch_size)),
  )

  sent_total :
      (x : ℕ)
      → x ≤ j.count
      → suc j.count - x ≡ batch_length j x + (suc j.count - (x + j.batch_size))
  unfolding batch_length
  sent_total x h = ground arith

  pub begin-Inv : (w : W) → Inv (begin w)
  unfolding begin ids_of ended_starts total inserted_total left occurrences
  begin-Inv w = record {
    placed = λ id.
        let all : suc j.count - 1 ≡ j.count = omega arith in
        omega (arith, ap (λ (n : ℕ). occurrences id (count_up 1 n)) all);
    counted = omega arith;
    done_counted = refl;
    ended_are_starts = tt;
    busy_are_starts = tt;
    jobs_are_starts = tt;
  }

  ids_of-nil : (id : ℕ) → occurrences id (ids_of []) ≡ 0
  unfolding ids_of occurrences
  ids_of-nil id = refl

  -- The same for a start among others.
  taken_out :
      (id x : ℕ) (before after : List ℕ)
      → occurrences id (ids_of (before ++ x ∷ after))
        ≡ occurrences id (count_up x (batch_length j x)) + occurrences id (ids_of (before ++ after))
  taken_out id x before after = omega (
    arith,
    ids_of-append id before (x ∷ after),
    ids_of-cons id x after,
    ids_of-append id before after,
  )

  total_taken_out :
      (x : ℕ) (before after : List ℕ)
      → total (before ++ x ∷ after) ≡ batch_length j x + total (before ++ after)
  unfolding total
  total_taken_out x before after =
      omega (arith, total-append before (x ∷ after), total-append before after)

  All-taken_out :
      (x : ℕ) (before after : List ℕ)
      → All IsStart (before ++ x ∷ after)
      → IsStart x × All IsStart (before ++ after)
  All-taken_out x [] after h = h
  All-taken_out x (y ∷ before) after h =
      let (at, rest) = All-taken_out x before after h.1 in (at, (h.0, rest))

  module _ {s : Progress W} (v : Inv s) where
    send-Inv :
        s.next_start ≤ j.count
        → Inv (record s {
          next_start = s.next_start + j.batch_size;
          jobs = s.jobs ++ s.next_start ∷ [];
        })
    unfolding total left
    send-Inv more = record {
      placed = λ id. omega (
        arith,
        v.placed id,
        taken_out id s.next_start s.jobs [],
        sent_batch id s.next_start more,
        ids_of-append id s.jobs [],
        ids_of-nil id,
      );
      counted =
          omega (
            arith,
            v.counted,
            total-append s.jobs (s.next_start ∷ []),
            sent_total s.next_start more,
          );
      done_counted = v.done_counted;
      ended_are_starts = v.ended_are_starts;
      busy_are_starts = v.busy_are_starts;
      jobs_are_starts = All-append IsStart s.jobs (s.next_start ∷ []) v.jobs_are_starts (more, tt);
    }

    receive-Inv :
        (start_id : ℕ) (later : List ℕ)
        → s.jobs ≡ start_id ∷ later
        → Inv (record s { jobs = later; busy = start_id ∷ s.busy })
    unfolding total left
    receive-Inv start_id later first = record {
      placed = λ id. omega (
        arith,
        v.placed id,
        ap (λ l. occurrences id (ids_of l)) first,
        ids_of-cons id start_id later,
        ids_of-cons id start_id s.busy,
      );
      counted = omega (arith, v.counted, ap total first);
      done_counted = v.done_counted;
      ended_are_starts = v.ended_are_starts;
      busy_are_starts = ((subst (All IsStart) first v.jobs_are_starts).0, v.busy_are_starts);
      jobs_are_starts = (subst (All IsStart) first v.jobs_are_starts).1;
    }

    end-Inv :
        (before : List ℕ) (start_id : ℕ) (after : List ℕ) (w : W) (inserted : Bool) (n : ℕ)
        → s.busy ≡ before ++ start_id ∷ after
        → n ≡ inserted_total ((start_id, inserted) ∷ s.ended)
        → Inv (record s {
          busy = before ++ after;
          done = n;
          ended = (start_id, inserted) ∷ s.ended;
          world = w;
        })
    unfolding total left ended_starts
    end-Inv before start_id after w inserted n held sum =
        let (at, rest) =
          All-taken_out start_id before after (subst (All IsStart) held v.busy_are_starts) in
        record {
          placed = λ id. omega (
            arith,
            v.placed id,
            ap (λ l. occurrences id (ids_of l)) held,
            taken_out id start_id before after,
            ids_of-cons id start_id (ended_starts s.ended),
          );
          counted = omega (arith, v.counted, ap total held, total_taken_out start_id before after);
          done_counted = sum;
          ended_are_starts = (at, v.ended_are_starts);
          busy_are_starts = rest;
          jobs_are_starts = v.jobs_are_starts;
        }

  Step-Inv : {s t : Progress W} → Step j s t → Inv s → Inv t
  unfolding inserted_total
  Step-Inv (send more room small) v = send-Inv v more
  Step-Inv (receive start_id later first room) v = receive-Inv v start_id later first
  Step-Inv (insert before start_id after w held inserted) v =
      end-Inv v before start_id after w true _ held (omega (arith, v.done_counted))
  Step-Inv (skip before start_id after e w held failed) v =
      end-Inv v before start_id after w false _ held v.done_counted

  pub Run-Inv : {s t : Progress W} {n : ℕ} → Run j s n t → Inv s → Inv t
  Run-Inv here v = v
  Run-Inv (next r st) v = Step-Inv st (Run-Inv r v)
