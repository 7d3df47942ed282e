-- ===== src/Operator/Pods/Total.antt =====
-- That `reconcilePods` gets to its end when the API server does what it is asked.
use mathlib.Core.List.{append-nil}
use cloud_native_entry_task.Prelude.{
  drop_of_length_le, ℕ, zero, suc, ◌-◌, ◌≡◌, refl, ap, ◌∙◌, ◌⊎◌, inl, inr, List, [], ◌∷◌, ◌++◌,
  Bytes, take, length, leb, arith, Bool-cases, last_of_length, length-take, bytes_eq, sym, subst,
}
use cloud_native_entry_task.Prelude.Int.{pos}
use cloud_native_entry_task.GoLib.Errors.{api_not_found, is_api_not_found, ok, err}
use cloud_native_entry_task.GoLib.Exec.{Exec, ◌>>=◌}
use cloud_native_entry_task.Operator.Types.{DbcpEntryService, Pod}
use cloud_native_entry_task.Operator.Client.{Client, Library}
use cloud_native_entry_task.Operator.Client.Logged.{Call, logged}
use cloud_native_entry_task.Operator.Resources.{pod_selector, desired_pod, label, label_spec_hash}
use cloud_native_entry_task.Operator.Pods.{
  is_some, has_ended, delete, sweep, delete_at, scale_down, scale_up, scale, reconcile_pods,
}
use cloud_native_entry_task.Operator.Pods.Plan.{plan, keep, is_stale, is_fresh}
use cloud_native_entry_task.Operator.Pods.Calls.{reconcile_pods-plan}

abbrev pub Succeeds : {W A : Type 0} → Exec W A → Type 0
Succeeds {W} {A} m = (w : W) → (a : A) × ((m w).0 ≡ ok a)

bind-Succeeds :
    {W A B : Type 0} (m : Exec W A) (f : A → Exec W B)
    → Succeeds m
    → ((a : A) → Succeeds (f a))
    → Succeeds (m >>= f)
bind-Succeeds m f hm hf w = let (a, e) = hm w in let (b, e') = hf a (m w).1 in (b, rw (e, ◌>>=◌) e')

-- Pods are listed and created, and what is deleted is at most missing already.
pub record IsReliable {W R : Type 0} (c : Client W R) : Type 0 where
  pub creates : (pod : Pod R) → Succeeds (c.create_pod pod)
  pub deletes :
      (pod : Pod R) (w : W)
      → ((c.delete_pod pod w).0 ≡ ok tt) ⊎ ((c.delete_pod pod w).0 ≡ err api_not_found)

module _ {W R : Type 0} (c : Client W R) (lib : Library R) (reliable : IsReliable c) where
  delete_total : (pod : Pod R) → Succeeds (delete (logged c) lib pod)
  unfolding delete is_api_not_found
  delete_total pod (w, log) = elim (reliable.deletes pod w) [
    | inl e ↦ (tt, rw (e, delete) refl)
    | inr e ↦ (tt, rw (e, delete) refl)
  ]

  sweep_total :
      (spec_hash : Bytes) (pods : List (Pod R)) → Succeeds (sweep (logged c) lib spec_hash pods)
  unfolding sweep
  sweep_total spec_hash [] s = ([], refl)
  sweep_total spec_hash (pod ∷ pods) s =
      let rest : Succeeds (sweep (logged c) lib spec_hash pods) = sweep_total spec_hash pods in
      let deleted = bind-Succeeds (delete (logged c) lib pod) _ (delete_total pod) (λ _. rest) s in
      elim (Bool-cases (is_some pod.deletion_timestamp)) [
        | inl leaving ↦ rw (leaving, sweep) (rest s)
        | inr staying ↦ elim (Bool-cases (has_ended pod.phase)) [
          | inl ended ↦ rw (staying, ended, sweep) deleted
          | inr alive ↦ elim (Bool-cases (bytes_eq (label label_spec_hash pod.labels) spec_hash)) [
            | inl current ↦
                rw (staying, alive, current, sweep)
                  (bind-Succeeds (sweep (logged c) lib spec_hash pods) _ rest
                    (λ others w. (pod ∷ others, refl)) s)
            | inr outdated ↦ rw (staying, alive, outdated, sweep) deleted
          ]
        ]
      ]

  scale_down_total :
      (n desired : ℕ) (current : List (Pod R))
      → length current ≡ n
      → Succeeds (scale_down (logged c) lib n (pos desired) current)
  unfolding scale_down delete_at
  scale_down_total zero zero current e s = (current, refl)
  scale_down_total zero (suc desired) current e s = (current, ground arith)
  scale_down_total (suc n) desired current e s =
      let (last, found, split) = last_of_length n current e in
      let size : length (take n current) ≡ n = omega (arith, length-take n current, e) in
      let rest = scale_down_total n desired (take n current) size in
      elim (Bool-cases (leb (suc n) desired)) [
        | inl enough ↦ rw (enough, scale_down) (current, refl)
        | inr excess ↦
            rw (excess, scale_down, found, delete_at)
              (bind-Succeeds (delete (logged c) lib last) _ (delete_total last) (λ _. rest) s)
      ]

  scale_up_total :
      (n : ℕ) (wanted : Pod R) (current : List (Pod R))
      → Succeeds (scale_up (logged c) lib n wanted current)
  unfolding scale_up
  scale_up_total zero wanted current s = (current, refl)
  scale_up_total (suc n) wanted current s =
      bind-Succeeds ((logged c).create_pod wanted) _ (λ (w, log). reliable.creates wanted w)
        (λ pod. scale_up_total n wanted (current ++ pod ∷ [])) s

  scale_total :
      (replicas : ℕ) (wanted : Pod R) (current : List (Pod R))
      → Succeeds (scale (logged c) lib (pos replicas) wanted current)
  unfolding scale
  scale_total replicas wanted current =
      bind-Succeeds _ _ (scale_down_total (length current) replicas current refl) (λ kept.
        bind-Succeeds _ _ (scale_up_total (replicas - length kept) wanted kept) (λ _ w. (tt, refl)))

  pods_done :
      (entry : DbcpEntryService R) (spec_hash : Bytes) (replicas : ℕ) (pods : List (Pod R)) (w : W)
      (log : List (Call R))
      → entry.spec.service.replicas ≡ pos replicas
      → (c.list_pods entry.namespace (pod_selector entry.name) w).0 ≡ ok pods
      → (reconcile_pods (logged c) lib entry spec_hash (w, log)).0 ≡ ok tt
  unfolding reconcile_pods
  pods_done entry spec_hash replicas pods w log wanted listed =
      let pod = desired_pod lib entry spec_hash in
      let (_, e) =
        bind-Succeeds (sweep (logged c) lib spec_hash pods)
          (λ swept.
            scale (logged c) lib entry.spec.service.replicas pod (lib.sort_by_creation swept))
          (sweep_total spec_hash pods)
          (λ swept.
            subst (λ n. Succeeds (scale (logged c) lib n pod (lib.sort_by_creation swept)))
              (sym wanted) (scale_total replicas pod (lib.sort_by_creation swept)))
          ((c.list_pods entry.namespace (pod_selector entry.name) w).1, log) in
      rw (listed, reconcile_pods) e

  -- Against a reliable API server that lists some pods, `reconcilePods` for a number of replicas
  -- that is not negative succeeds, and has made the calls of the plan for those pods.
  pub reconcile_pods_total :
      (entry : DbcpEntryService R) (spec_hash : Bytes) (replicas : ℕ) (pods : List (Pod R)) (w : W)
      (log : List (Call R))
      → entry.spec.service.replicas ≡ pos replicas
      → (c.list_pods entry.namespace (pod_selector entry.name) w).0 ≡ ok pods
      → (w' : W) × (reconcile_pods (logged c) lib entry spec_hash (w, log)
          ≡ (ok tt, (w', log ++ plan lib entry spec_hash replicas pods)))
  reconcile_pods_total entry spec_hash replicas pods w log wanted listed =
      let pod = desired_pod lib entry spec_hash in
      let run = reconcile_pods (logged c) lib entry spec_hash (w, log) in
      let done : run.0 ≡ ok tt = pods_done entry spec_hash replicas pods w log wanted listed in
      (
        run.1.0,
        ap (λ r. (r, run.1)) done
            ∙ ap (λ calls. (ok tt, (run.1.0, calls)))
                (reconcile_pods-plan c lib entry spec_hash replicas pods w log run.1 wanted listed
                  (ap (λ r. (r, run.1)) done)),
      )

  -- Against a reliable API server that lists no stale pod and as many fresh ones as replicas are
  -- wanted, `reconcilePods` changes nothing, if sorting keeps the number of pods.
  pub reconcile_pods_steady :
      (entry : DbcpEntryService R) (spec_hash : Bytes) (replicas : ℕ) (pods : List (Pod R)) (w : W)
      (log : List (Call R))
      → ((ps : List (Pod R)) → length (lib.sort_by_creation ps) ≡ length ps)
      → entry.spec.service.replicas ≡ pos replicas
      → (c.list_pods entry.namespace (pod_selector entry.name) w).0 ≡ ok pods
      → keep (is_stale spec_hash) pods ≡ []
      → length (keep (is_fresh spec_hash) pods) ≡ replicas
      → (w' : W) × (reconcile_pods (logged c) lib entry spec_hash (w, log) ≡ (ok tt, (w', log)))
  unfolding plan
  reconcile_pods_steady entry spec_hash replicas pods w log sorts wanted listed none_stale enough =
      let fresh = lib.sort_by_creation (keep (is_fresh spec_hash) pods) in
      let (w', run) = reconcile_pods_total entry spec_hash replicas pods w log wanted listed in
      let size : length fresh ≡ replicas = sorts (keep (is_fresh spec_hash) pods) ∙ enough in
      let none_missing : replicas - length fresh ≡ 0 = omega (arith, size) in
      let nothing : plan lib entry spec_hash replicas pods ≡ [] =
        rw (none_stale, drop_of_length_le replicas fresh (omega (arith, size)), none_missing)
          refl in
      (
        w',
        run
            ∙ ap (λ calls. (ok tt, (w', calls)))
                (ap (λ calls. log ++ calls) nothing ∙ append-nil log),
      )
