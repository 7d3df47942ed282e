-- ===== src/Operator/Pods/Calls.antt =====
-- The calls that the loops of `reconcilePods` make, up to those of the whole.
use mathlib.Core.List.{reverse, append_assoc, append-nil, reverse-append}
use cloud_native_entry_task.Prelude.{
  ℕ, zero, suc, ◌-◌, ◌≤◌, ◌≡◌, refl, sym, ap, ◌∙◌, subst, inl, inr, List, [], ◌∷◌, ◌++◌, Bytes,
  take, drop, length, replicate, leb, arith, Bool-cases, take_of_length_le, drop_of_length_le,
  take-append_le, drop-append_le, last_of_length, length-take,
}
use cloud_native_entry_task.Prelude.Int.{pos}
use cloud_native_entry_task.GoLib.Errors.{Result, ok, Result-cases}
use cloud_native_entry_task.GoLib.Exec.{Exec, pure, ◌>>◌, bind_ok}
use cloud_native_entry_task.Operator.Types.{DbcpEntryService, Pod}
use cloud_native_entry_task.Operator.Client.{Client, Library}
use cloud_native_entry_task.Operator.Client.Logged.{
  Call, delete_pod, create_pod, record_call, logged,
}
use cloud_native_entry_task.Operator.Resources.{desired_pod, pod_selector}
use cloud_native_entry_task.Operator.Pods.{
  has_ended, delete, sweep, delete_at, scale_down, scale_up, scale, reconcile_pods,
}
use cloud_native_entry_task.Operator.Pods.Plan.{
  keep, is_leaving, has_hash, is_fresh, is_stale, deletes, plan,
}

module _ {W R : Type 0} (c : Client W R) (lib : Library R) where
  delete_logs :
      (pod : Pod R) (s s' : W × List (Call R)) (r : Result (Unit {0}))
      → delete (logged c) lib pod s ≡ (r, s')
      → s'.1 ≡ s.1 ++ delete_pod pod ∷ []
  unfolding delete
  delete_logs pod s s' r h = ground arith

  -- A delete that was made, and what came after it.
  pub delete_then :
      {A : Type 0} (pod : Pod R) (k : Exec (W × List (Call R)) A) (a : A) (s s' : W × List (Call R))
      → (delete (logged c) lib pod >> k) s ≡ (ok a, s')
      → (s1 : W × List (Call R)) × (s1.1 ≡ s.1 ++ delete_pod pod ∷ []) × (k s1 ≡ (ok a, s'))
  delete_then pod k a s s' h =
      let (_, s1, deleted, rest) = bind_ok (delete (logged c) lib pod) (λ _. k) s s' a h in
      (s1, delete_logs pod s s1 _ deleted, rest)

  sweep_deleted :
      (spec_hash : Bytes) (pods cur : List (Pod R)) (pod : Pod R) (s s' : W × List (Call R))
      → ((s1 : W × List (Call R))
          → sweep (logged c) lib spec_hash pods s1 ≡ (ok cur, s')
          → (cur ≡ keep (is_fresh spec_hash) pods)
            × (s'.1 ≡ s1.1 ++ deletes (keep (is_stale spec_hash) pods)))
      → (delete (logged c) lib pod >> sweep (logged c) lib spec_hash pods) s ≡ (ok cur, s')
      → (cur ≡ keep (is_fresh spec_hash) pods)
        × (s'.1 ≡ s.1 ++ delete_pod pod ∷ deletes (keep (is_stale spec_hash) pods))
  sweep_deleted spec_hash pods cur pod s s' ih h =
      let (s1, logs, rest) = delete_then pod (sweep (logged c) lib spec_hash pods) cur s s' h in
      let (same, calls) = ih s1 rest in
      (same, calls ∙ rw logs (append_assoc s.1 (delete_pod pod ∷ []) _))

  sweep_ok :
      (spec_hash : Bytes) (pods cur : List (Pod R)) (s s' : W × List (Call R))
      → sweep (logged c) lib spec_hash pods s ≡ (ok cur, s')
      → (cur ≡ keep (is_fresh spec_hash) pods)
        × (s'.1 ≡ s.1 ++ deletes (keep (is_stale spec_hash) pods))
  sweep_ok spec_hash [] cur s s' h = unfold sweep in (ground arith, ground (arith, append-nil s.1))
  sweep_ok spec_hash (pod ∷ pods) cur s s' h = elim (Bool-cases (is_leaving pod)) [
    | inl leaving ↦
        rw leaving (sweep_ok spec_hash pods cur s s' (unfold sweep in (rw (leaving, sweep) at h)))
    | inr staying ↦ elim (Bool-cases (has_ended pod.phase)) [
      | inl ended ↦
          rw (staying, ended)
            (sweep_deleted spec_hash pods cur pod s s' (λ s1. sweep_ok spec_hash pods cur s1 s')
              (unfold sweep in (rw (staying, ended, sweep) at h)))
      | inr alive ↦ elim (Bool-cases (has_hash spec_hash pod)) [
        | inl current ↦
            let (rest, s1, swept, same) =
              bind_ok (sweep (logged c) lib spec_hash pods) (λ others. pure (pod ∷ others)) s s' cur
                (unfold sweep in (rw (staying, alive, current, sweep) at h)) in
            let (is_rest, calls) = sweep_ok spec_hash pods rest s s1 swept in
            rw (staying, alive, current) (ground (arith, is_rest, calls, same))
        | inr outdated ↦
            rw (staying, alive, outdated)
              (sweep_deleted spec_hash pods cur pod s s' (λ s1. sweep_ok spec_hash pods cur s1 s')
                (unfold sweep in (rw (staying, alive, outdated, sweep) at h)))
      ]
    ]
  ]

  scale_down_ok :
      (n desired : ℕ) (current kept : List (Pod R)) (s s' : W × List (Call R))
      → length current ≡ n
      → scale_down (logged c) lib n (pos desired) current s ≡ (ok kept, s')
      → (kept ≡ take desired current) × (s'.1 ≡ s.1 ++ deletes (reverse (drop desired current)))
  unfolding delete_at
  scale_down_ok zero zero [] kept s s' e h = unfold scale_down in ground (arith, append-nil s.1)
  scale_down_ok zero (suc desired) [] kept s s' e h =
      unfold scale_down in ground (arith, append-nil s.1)
  scale_down_ok zero desired (x ∷ current) kept s s' e h = absurd (omega (arith, e))
  scale_down_ok (suc n) desired current kept s s' e h =
      let (last, found, split) = last_of_length n current e in
      let size : length (take n current) ≡ n = omega (arith, length-take n current, e) in
      elim (Bool-cases (leb (suc n) desired)) [
        | inl enough ↦
            rw
              (
                take_of_length_le desired current (ground arith),
                drop_of_length_le desired current (ground arith),
              )
              (unfold scale_down in ground (arith, append-nil s.1, (rw (enough, scale_down) at h)))
        | inr excess ↦
            let (s1, logs, rest) =
              delete_then last (scale_down (logged c) lib n (pos desired) (take n current)) kept s
                s' (unfold scale_down in (rw (excess, scale_down, found, delete_at) at h)) in
            let (is_kept, calls) = scale_down_ok n desired (take n current) kept s1 s' size rest in
            let fits_in : desired ≤ length (take n current) = ground (arith, size) in
            let tail : reverse (drop desired current)
                ≡ last ∷ reverse (drop desired (take n current)) =
              ap reverse (
                ap (drop desired) split
                ∙ drop-append_le desired (take n current) (last ∷ []) fits_in)
              ∙ reverse-append (drop desired (take n current)) (last ∷ []) in
            (
              is_kept
                  ∙ sym (
                      ap (take desired) split
                      ∙ take-append_le desired (take n current) (last ∷ []) fits_in),
              calls ∙ rw (logs, append_assoc, tail),
            )
      ]

  scale_up_ok :
      (n : ℕ) (wanted : Pod R) (current final : List (Pod R)) (s s' : W × List (Call R))
      → scale_up (logged c) lib n wanted current s ≡ (ok final, s')
      → s'.1 ≡ s.1 ++ replicate n (create_pod wanted)
  unfolding scale_up
  scale_up_ok zero wanted current final s s' h = ground (arith, append-nil s.1)
  scale_up_ok (suc n) wanted current final s s' h =
      let (pod, s1, made, rest) =
        bind_ok (record_call (create_pod wanted) (c.create_pod wanted))
          (λ p. scale_up (logged c) lib n wanted (current ++ p ∷ [])) s s' final h in
      scale_up_ok n wanted (current ++ pod ∷ []) final s1 s' rest
      ∙ rw (← (ap (λ q. q.1.1) made)) (append_assoc s.1 (create_pod wanted ∷ []) _)

  scale_ok :
      (replicas : ℕ) (pod : Pod R) (current : List (Pod R)) (s s' : W × List (Call R))
      → scale (logged c) lib (pos replicas) pod current s ≡ (ok tt, s')
      → s'.1
        ≡ s.1
          ++ (deletes (reverse (drop replicas current))
              ++ replicate (replicas - length current) (create_pod pod))
  unfolding scale
  scale_ok replicas pod current s s' h =
      let (kept, s1, is_kept, h1) =
        bind_ok (scale_down (logged c) lib (length current) (pos replicas) current)
          (λ kept. do scale_up (logged c) lib (replicas - length kept) pod kept; pure tt) s s' tt
          h in
      let (same, calls) = scale_down_ok (length current) replicas current kept s s1 refl is_kept in
      let (final, s2, is_final, h2) =
        bind_ok (scale_up (logged c) lib (replicas - length kept) pod kept) (λ _. pure tt) s1 s' tt
          h1 in
      let calls' = scale_up_ok (replicas - length kept) pod kept final s1 s2 is_final in
      let missing : replicas - length kept ≡ replicas - length current =
        omega (arith, ap length same, length-take replicas current) in
      ap (λ q. q.1.1) (sym h2) ∙ calls' ∙ rw (calls, missing) (append_assoc s.1 _ _)

  -- A run of `reconcilePods`, for a number of replicas that is not negative, that succeeds has made
  -- the calls of the plan for the pods that it listed, in that order, and no others.
  pub reconcile_pods-plan :
      (entry : DbcpEntryService R) (spec_hash : Bytes) (replicas : ℕ) (pods : List (Pod R)) (w : W)
      (log : List (Call R)) (s' : W × List (Call R))
      → entry.spec.service.replicas ≡ pos replicas
      → (c.list_pods entry.namespace (pod_selector entry.name) w).0 ≡ ok pods
      → reconcile_pods (logged c) lib entry spec_hash (w, log) ≡ (ok tt, s')
      → s'.1 ≡ log ++ plan lib entry spec_hash replicas pods
  unfolding reconcile_pods plan
  reconcile_pods-plan entry spec_hash replicas pods w log s' wanted listed h =
      let pod = desired_pod lib entry spec_hash in
      let w1 = (c.list_pods entry.namespace (pod_selector entry.name) w).1 in
      let (swept, s1, is_swept, h1) =
        bind_ok (sweep (logged c) lib spec_hash pods)
          (λ swept.
            scale (logged c) lib entry.spec.service.replicas pod (lib.sort_by_creation swept))
          (w1, log) s' tt (rw (listed, reconcile_pods) at h) in
      let (same, calls) = sweep_ok spec_hash pods swept (w1, log) s1 is_swept in
      let scaled = scale_ok replicas pod (lib.sort_by_creation swept) s1 s' (
        subst (λ d. scale (logged c) lib d pod (lib.sort_by_creation swept) s1 ≡ (ok tt, s')) wanted
          h1) in
      scaled ∙ rw (calls, same) (append_assoc log _ _)

  -- The same, for the pods that the call itself lists.
  pub reconcile_pods_calls :
      (entry : DbcpEntryService R) (spec_hash : Bytes) (replicas : ℕ) (s s' : W × List (Call R))
      → entry.spec.service.replicas ≡ pos replicas
      → reconcile_pods (logged c) lib entry spec_hash s ≡ (ok tt, s')
      → (pods : List (Pod R)) × ((c.list_pods entry.namespace (pod_selector entry.name) s.0).0
          ≡ ok pods)
        × (s'.1 ≡ s.1 ++ plan lib entry spec_hash replicas pods)
  reconcile_pods_calls entry spec_hash replicas s s' wanted h =
      elim (Result-cases (c.list_pods entry.namespace (pod_selector entry.name) s.0).0) [
        | inl (pods, listed) ↦ (
          pods,
          listed,
          reconcile_pods-plan entry spec_hash replicas pods s.0 s.1 s' wanted listed h,
        )
        | inr (e, failed) ↦ absurd (unfold reconcile_pods in cc (rw (failed, reconcile_pods) at h))
      ]
