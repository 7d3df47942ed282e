-- ===== src/Operator/Pods/Runs.antt =====
-- Runs of the pod loops against the small cluster.
use cloud_native_entry_task.Prelude.{ℕ, ◌≡◌, refl, List, [], ◌∷◌, ◌++◌, codes, bytes_eq}
use cloud_native_entry_task.GoLib.Errors.{ok, is_api_not_found}
use cloud_native_entry_task.Operator.Types.{DbcpEntryService, Pod, running, failed}
use cloud_native_entry_task.Operator.Client.Logged.{Call, delete_pod, create_pod, logged}
use cloud_native_entry_task.Operator.Resources.{desired_pod, label, set_label, managed_labels}
use cloud_native_entry_task.Operator.Pods.{
  delete, sweep, scale_down, scale_up, delete_at, scale, reconcile_pods,
}
use cloud_native_entry_task.Operator.Sample.{
  cluster, library, the_entry, spec_hash, a_pod, some_pods,
}

abbrev pub wanted : Pod ℕ
wanted = desired_pod library the_entry spec_hash

-- The calls are recorded one by one.
abbrev pub with_calls : List (Call ℕ) → List (Call ℕ)
with_calls log =
    ((log ++ delete_pod (a_pod (codes "gone") spec_hash failed) ∷ [])
      ++ delete_pod (a_pod (codes "old") (codes "0") running) ∷ [])
    ++ create_pod wanted ∷ []

abbrev pub pods_after : List (Pod ℕ)
pods_after =
    a_pod (codes "gone") spec_hash failed
    ∷ a_pod (codes "good") spec_hash running
    ∷ record wanted { name = 110 ∷ 2 ∷ [] }
    ∷ []

pub reconcile_pods_run :
    (entry : DbcpEntryService ℕ) (log : List (Call ℕ))
    → reconcile_pods (logged (cluster entry)) library the_entry spec_hash (some_pods, log)
      ≡ (ok tt, (pods_after, with_calls log))
unfolding reconcile_pods sweep delete scale scale_down scale_up delete_at desired_pod label
    set_label managed_labels bytes_eq is_api_not_found
reconcile_pods_run entry log = refl

pub delete_run :
    (entry : DbcpEntryService ℕ) (log : List (Call ℕ))
    → delete
        (logged (cluster entry))
        library
        (a_pod (codes "good") spec_hash running)
        (a_pod (codes "good") spec_hash running ∷ [], log)
      ≡ (ok tt, ([], log ++ delete_pod (a_pod (codes "good") spec_hash running) ∷ []))
unfolding delete bytes_eq
delete_run entry log = refl
