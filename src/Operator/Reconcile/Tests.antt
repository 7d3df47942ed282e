-- ===== src/Operator/Reconcile/Tests.antt =====
-- The small cluster under the whole of `Reconcile`.
use cloud_native_entry_task.Prelude.{ℕ, ◌≡◌, refl, none, some, List, [], ◌∷◌, ◌++◌, Bytes, codes}
use cloud_native_entry_task.GoLib.Errors.{ok, is_api_not_found}
use cloud_native_entry_task.Operator.Types.{DbcpEntryService, Pod, running}
use cloud_native_entry_task.Operator.Client.{Key}
use cloud_native_entry_task.Operator.Client.Logged.{
  Call, update, delete_pod, delete_service, delete_config_map, put_config_map, put_service, logged,
}
use cloud_native_entry_task.Operator.Resources.{config_map_name, calculate_spec_hash, finalizer}
use cloud_native_entry_task.Operator.Pods.Plan.{plan, deletes}
use cloud_native_entry_task.Operator.Pods.Runs.{
  with_calls, pods_after, reconcile_pods_run, delete_run,
}
use cloud_native_entry_task.Operator.Reconcile.{
  done, requeue_after_sync, add_finalizer, reconcile, tolerant, delete_all, cleanup_owned_resources,
  ensure_config_map, ensure_service, finalize, claim, converge, reconcile_entry, contains_text,
  without_text,
}
use cloud_native_entry_task.Operator.Reconcile.Calls.{
  Listed, release, reconcile_deleted, reconcile_converges,
}
use cloud_native_entry_task.Operator.Sample.{
  cluster, library, an_entry, the_entry, spec_hash, a_pod, some_pods,
}

abbrev key : Key
key = (codes "default", codes "entry")

abbrev config_map : Key
config_map = (codes "default", config_map_name (codes "entry"))

abbrev new_entry : DbcpEntryService ℕ
new_entry = an_entry none []

new_entry_run :
    reconcile (logged (cluster new_entry)) library key (some_pods, [])
    ≡ (ok done, (some_pods, update (add_finalizer new_entry) ∷ []))
unfolding reconcile reconcile_entry claim contains_text
new_entry_run = refl

abbrev old_entry : DbcpEntryService ℕ
old_entry = an_entry (some 3) (finalizer ∷ [])

abbrev good : Pod ℕ
good = a_pod (codes "good") spec_hash running

abbrev old_entry_calls : List (Call ℕ)
old_entry_calls =
    delete_pod good
    ∷ delete_service key
    ∷ delete_config_map config_map
    ∷ update (an_entry (some 3) [])
    ∷ []

old_entry_run :
    reconcile (logged (cluster old_entry)) library key (good ∷ [], [])
    ≡ (ok done, ([], old_entry_calls))
unfolding reconcile reconcile_entry finalize cleanup_owned_resources delete_all tolerant
    contains_text without_text is_api_not_found
old_entry_run = rw (delete_run old_entry [], reconcile) refl

reconcile_deleted_example :
    (pods : List (Pod ℕ)) × Listed (cluster old_entry) library old_entry pods (good ∷ [])
    × (old_entry_calls
        ≡ []
          ++ (deletes pods
              ++ (delete_service key
                  ∷ delete_config_map config_map
                  ∷ release (cluster old_entry) library old_entry)))
reconcile_deleted_example =
    reconcile_deleted (cluster old_entry) library key old_entry (good ∷ []) [] ([], old_entry_calls)
      done refl old_entry_run refl

abbrev start : List (Call ℕ)
start = put_config_map config_map ∷ put_service key ∷ []

the_entry_run :
    reconcile (logged (cluster the_entry)) library key (some_pods, [])
    ≡ (ok requeue_after_sync, (pods_after, with_calls start))
unfolding reconcile reconcile_entry converge ensure_config_map ensure_service contains_text
    calculate_spec_hash
the_entry_run = rw (reconcile_pods_run the_entry start, reconcile) refl

reconcile_converges_example :
    (hash : Bytes) × (pods : List (Pod ℕ)) × (calculate_spec_hash library the_entry ≡ ok hash)
    × Listed (cluster the_entry) library the_entry pods some_pods
    × (with_calls start
        ≡ [] ++ put_config_map config_map ∷ put_service key ∷ plan library the_entry hash 2 pods)
    × (requeue_after_sync ≡ requeue_after_sync)
unfolding contains_text ensure_service ensure_config_map
reconcile_converges_example =
    reconcile_converges (cluster the_entry) library key the_entry some_pods []
      (pods_after, with_calls start) requeue_after_sync refl the_entry_run 2 refl refl refl
