-- ===== src/Operator/Pods/Settled.antt =====
-- `reconcilePods` after the cluster has done what a run asked of it.
use cloud_native_entry_task.Prelude.{
  ℕ, ◌-◌, ◌≡◌, refl, ap, ◌∙◌, inl, inr, Bool, true, false, List, [], ◌∷◌, ◌++◌, Bytes, All,
  All-append, All-take, take, length, length-append, length-take, arith, Bool-cases,
}
use cloud_native_entry_task.Prelude.Int.{pos}
use cloud_native_entry_task.GoLib.Errors.{ok}
use cloud_native_entry_task.Operator.Types.{DbcpEntryService, Pod}
use cloud_native_entry_task.Operator.Client.{Client, Library}
use cloud_native_entry_task.Operator.Client.Logged.{Call, logged}
use cloud_native_entry_task.Operator.Resources.{pod_selector}
use cloud_native_entry_task.Operator.Pods.{reconcile_pods}
use cloud_native_entry_task.Operator.Pods.Plan.{plan, keep, is_leaving, is_stale, is_fresh}
use cloud_native_entry_task.Operator.Pods.Total.{
  IsReliable, reconcile_pods_total, reconcile_pods_steady,
}

module _ {R : Type 0} where
  abbrev Passes : (Pod R → Bool) → Pod R → Type 0
  Passes p pod = p pod ≡ true

  abbrev Fails : (Pod R → Bool) → Pod R → Type 0
  Fails p pod = p pod ≡ false

  keep-append :
      (p : Pod R → Bool) (xs ys : List (Pod R)) → keep p (xs ++ ys) ≡ keep p xs ++ keep p ys
  keep-append p [] ys = refl
  keep-append p (x ∷ xs) ys = ground (arith, keep-append p xs ys)

  keep-All : (p : Pod R → Bool) (xs : List (Pod R)) → All (Passes p) xs → keep p xs ≡ xs
  keep-All p [] h = refl
  keep-All p (x ∷ xs) h = rw (h.0, keep-All p xs h.1)

  keep_none : (p : Pod R → Bool) (xs : List (Pod R)) → All (Fails p) xs → keep p xs ≡ []
  keep_none p [] h = refl
  keep_none p (x ∷ xs) h = rw (h.0, keep_none p xs h.1)

  kept_pass : (p : Pod R → Bool) (xs : List (Pod R)) → All (Passes p) (keep p xs)
  kept_pass p [] = tt
  kept_pass p (x ∷ xs) = elim (Bool-cases (p x)) [
    | inl e ↦ rw e (e, kept_pass p xs)
    | inr e ↦ rw e (kept_pass p xs)
  ]

  All-map :
      (P Q : Pod R → Type 0) (xs : List (Pod R)) → ((x : Pod R) → P x → Q x) → All P xs → All Q xs
  All-map P Q [] f h = tt
  All-map P Q (x ∷ xs) f h = (f x h.0, All-map P Q xs f h.1)

  leaving_not_stale : (hash : Bytes) (x : Pod R) → is_leaving x ≡ true → is_stale hash x ≡ false
  leaving_not_stale hash x h = rw h refl

  leaving_not_fresh : (hash : Bytes) (x : Pod R) → is_leaving x ≡ true → is_fresh hash x ≡ false
  leaving_not_fresh hash x h = rw h refl

  fresh_not_stale : (hash : Bytes) (x : Pod R) → is_fresh hash x ≡ true → is_stale hash x ≡ false
  fresh_not_stale hash x h = ground arith

  -- Pods that are leaving, and fresh ones.
  module _ (hash : Bytes) (left current : List (Pod R)) (leaving : All (Passes is_leaving) left)
      (fresh : All (Passes (is_fresh hash)) current) where
    none_stale : keep (is_stale hash) (left ++ current) ≡ []
    none_stale = keep_none (is_stale hash) (left ++ current) (
        All-append (Fails (is_stale hash)) left current
          (All-map (Passes is_leaving) (Fails (is_stale hash)) left (leaving_not_stale hash)
            leaving)
          (All-map (Passes (is_fresh hash)) (Fails (is_stale hash)) current (fresh_not_stale hash)
            fresh))

    all_fresh : keep (is_fresh hash) (left ++ current) ≡ current
    all_fresh =
        keep-append (is_fresh hash) left current
        ∙ rw
            (
              keep_none (is_fresh hash) left (
                  All-map (Passes is_leaving) (Fails (is_fresh hash)) left (leaving_not_fresh hash)
                    leaving),
              keep-All (is_fresh hash) current fresh,
            )
            refl

-- What sorting keeps: the number of pods, and what holds of all of them.
pub record SortKeeps {R : Type 0} (lib : Library R) : Type 1 where
  pub lengths : (ps : List (Pod R)) → length (lib.sort_by_creation ps) ≡ length ps
  pub properties :
      (P : Pod R → Type 0) (ps : List (Pod R)) → All P ps → All P (lib.sort_by_creation ps)

module _ {W R : Type 0} (c : Client W R) (lib : Library R) (reliable : IsReliable c)
    (sorts : SortKeeps lib) where
  -- The fresh pods that a run keeps.
  abbrev pub survivors : Bytes → ℕ → List (Pod R) → List (Pod R)
  survivors hash replicas pods = take replicas (lib.sort_by_creation (keep (is_fresh hash) pods))

  -- Against a reliable API server and with such a sorting: after a run of `reconcilePods` on some listed
  -- pods, which makes the planned calls, a run that finds pods that are leaving, the pods that the
  -- first one kept, and fresh ones in place of those that it created, changes nothing.
  pub reconcile_pods_settles :
      (entry : DbcpEntryService R) (hash : Bytes) (replicas : ℕ) (pods left created : List (Pod R))
      (w w1 : W) (log log1 : List (Call R))
      → entry.spec.service.replicas ≡ pos replicas
      → (c.list_pods entry.namespace (pod_selector entry.name) w).0 ≡ ok pods
      → All (λ pod. is_leaving pod ≡ true) left
      → All (λ pod. is_fresh hash pod ≡ true) created
      → length created ≡ replicas - length (keep (is_fresh hash) pods)
      → (c.list_pods entry.namespace (pod_selector entry.name) w1).0
        ≡ ok (left ++ (survivors hash replicas pods ++ created))
      → ((w' : W) × (reconcile_pods (logged c) lib entry hash (w, log)
            ≡ (ok tt, (w', log ++ plan lib entry hash replicas pods))))
        × ((w' : W) × (reconcile_pods (logged c) lib entry hash (w1, log1) ≡ (ok tt, (w', log1))))
  reconcile_pods_settles entry hash replicas pods left created w w1 log log1 wanted listed leaving
        fresh missing listed1 =
      let kept = keep (is_fresh hash) pods in
      let sorted = lib.sort_by_creation kept in
      let current = survivors hash replicas pods ++ created in
      let all_current : All (Passes (is_fresh hash)) current =
        All-append (Passes (is_fresh hash)) (take replicas sorted) created
          (All-take (Passes (is_fresh hash)) replicas sorted
            (sorts.properties (Passes (is_fresh hash)) kept (kept_pass (is_fresh hash) pods)))
          fresh in
      let enough : length current ≡ replicas = omega (
        arith,
        length-append (take replicas sorted) created,
        length-take replicas sorted,
        sorts.lengths kept,
        missing,
      ) in
      (
        reconcile_pods_total c lib reliable entry hash replicas pods w log wanted listed,
        reconcile_pods_steady c lib reliable entry hash replicas (left ++ current) w1 log1
            sorts.lengths wanted listed1 (none_stale hash left current leaving all_current)
            (ap length (all_fresh hash left current leaving all_current) ∙ enough),
      )
