-- ===== src/Operator/Pods/Tests.antt =====
-- The small cluster under the plan.
use cloud_native_entry_task.Prelude.{
  ℕ, ◌≡◌, refl, List, [], ◌∷◌, ◌++◌, codes, bytes_eq, Bool-cases, inl, inr,
}
use cloud_native_entry_task.GoLib.Errors.{ok}
use cloud_native_entry_task.Operator.Types.{Pod, running}
use cloud_native_entry_task.Operator.Client.Logged.{logged}
use cloud_native_entry_task.Operator.Resources.{desired_pod, label, set_label, managed_labels}
use cloud_native_entry_task.Operator.Pods.{reconcile_pods}
use cloud_native_entry_task.Operator.Pods.Plan.{plan}
use cloud_native_entry_task.Operator.Pods.Total.{IsReliable, reconcile_pods_total}
use cloud_native_entry_task.Operator.Pods.Settled.{SortKeeps, reconcile_pods_settles}
use cloud_native_entry_task.Operator.Sample.{
  cluster, library, the_entry, spec_hash, some_pods, a_pod,
}

cluster-IsReliable : IsReliable (cluster the_entry)
cluster-IsReliable = record {
  creates = λ pod w. (_, refl);
  deletes = λ pod w. elim (Bool-cases (bytes_eq pod.name (codes "gone"))) [
    | inl e ↦ inr (rw e refl)
    | inr e ↦ inl (rw e refl)
  ];
}

reconcile_pods_total_example :
    (w' : List (Pod ℕ)) × (reconcile_pods
        (logged (cluster the_entry))
        library
        the_entry
        spec_hash
        (some_pods, [])
      ≡ (ok tt, (w', [] ++ plan library the_entry spec_hash 2 some_pods)))
reconcile_pods_total_example =
    reconcile_pods_total (cluster the_entry) library cluster-IsReliable the_entry spec_hash 2
      some_pods some_pods [] refl refl

abbrev two_pods : List (Pod ℕ)
two_pods = a_pod (codes "a") spec_hash running ∷ a_pod (codes "b") spec_hash running ∷ []

library-SortKeeps : SortKeeps library
library-SortKeeps = record { lengths = λ ps. refl; properties = λ P ps h. h }

-- The kept pod and a new one.
abbrev settled_pods : List (Pod ℕ)
settled_pods = a_pod (codes "good") spec_hash running ∷ a_pod (codes "new") spec_hash running ∷ []

reconcile_pods_settles_example :
    ((w' : List (Pod ℕ)) × (reconcile_pods
          (logged (cluster the_entry))
          library
          the_entry
          spec_hash
          (some_pods, [])
        ≡ (ok tt, (w', [] ++ plan library the_entry spec_hash 2 some_pods))))
    × ((w' : List (Pod ℕ)) × (reconcile_pods
            (logged (cluster the_entry))
            library
            the_entry
            spec_hash
            (settled_pods, [])
          ≡ (ok tt, (w', []))))
unfolding desired_pod label set_label managed_labels bytes_eq
reconcile_pods_settles_example =
    reconcile_pods_settles (cluster the_entry) library cluster-IsReliable library-SortKeeps
      the_entry spec_hash 2 some_pods [] (a_pod (codes "new") spec_hash running ∷ []) some_pods
      settled_pods [] [] refl refl tt (refl, tt) refl refl
