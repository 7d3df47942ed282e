-- ===== src/Operator/Reconcile.antt =====
-- operator/internal/controller/dbcpentryservice_controller.go: `Reconcile` and its steps.
pub mod Calls
mod Tests
use cloud_native_entry_task.Prelude.{
  ℕ, Bool, true, false, not, ◌||◌, Option, none, some, List, [], ◌∷◌, ◌++◌, Bytes, String, str_eq,
  if◌then◌else◌,
}
use cloud_native_entry_task.GoLib.Errors.{Error, is_api_not_found, Result, ok, err}
use cloud_native_entry_task.GoLib.Exec.{Exec, pure, raise, lift, try, ◌>>=◌, ◌>>◌}
use cloud_native_entry_task.Operator.Types.{
  DbcpEntryService, OwnerReference, Pod, ConfigMap, ServicePort, Service,
}
use cloud_native_entry_task.Operator.Client.{Key, Client, Library}
use cloud_native_entry_task.Operator.Resources.{
  finalizer, managed_labels, pod_selector, config_map_name, desired_config_data,
  calculate_spec_hash,
}
use cloud_native_entry_task.Operator.Pods.{delete, is_some, reconcile_pods}

-- `controllerutil.ContainsFinalizer`, `AddFinalizer` and `RemoveFinalizer`
unfoldable pub contains_text : String → List String → Bool
contains_text x [] = false
contains_text x (y ∷ ys) = str_eq y x || contains_text x ys

unfoldable pub without_text : String → List String → List String
without_text x [] = []
without_text x (y ∷ ys) = if str_eq y x then without_text x ys else y ∷ without_text x ys

abbrev pub has_finalizer : {R : Type 0} → DbcpEntryService R → Bool
has_finalizer entry = contains_text finalizer entry.finalizers

abbrev pub remove_finalizer : {R : Type 0} → DbcpEntryService R → DbcpEntryService R
remove_finalizer entry = record entry { finalizers = without_text finalizer entry.finalizers }

abbrev pub add_finalizer : {R : Type 0} → DbcpEntryService R → DbcpEntryService R
add_finalizer entry = record entry { finalizers = entry.finalizers ++ finalizer ∷ [] }

-- `ctrl.Result`: whether the key is looked at again after the sync interval of five seconds.
pub data Outcome : Type 0 where
  done requeue_after_sync : Outcome

abbrev with_owners_map : ConfigMap → Result (List OwnerReference) → Result ConfigMap
with_owners_map m (ok owners) = ok (record m { owners = owners })
with_owners_map m (err e) = err e

abbrev with_owners : Service → Result (List OwnerReference) → Result Service
with_owners m (ok owners) = ok (record m { owners = owners })
with_owners m (err e) = err e

module _ {W R : Type 0} (c : Client W R) (lib : Library R) where
  -- A delete that finds nothing has done its work.
  tolerant : Exec W (Unit {0}) → Exec W (Unit {0})
  tolerant m = try m (λ e. if is_api_not_found e then pure tt else raise e) pure

  delete_all : List (Pod R) → Exec W (Unit {0})
  delete_all [] = pure tt
  delete_all (pod ∷ pods) = delete c lib pod >> delete_all pods

  unfoldable pub cleanup_owned_resources : DbcpEntryService R → Exec W (Unit {0})
  unfolding delete_all tolerant
  cleanup_owned_resources entry = do
    pods ← c.list_pods entry.namespace (pod_selector entry.name)
    delete_all pods
    tolerant (c.delete_service (entry.namespace, entry.name))
    tolerant (c.delete_config_map (entry.namespace, config_map_name entry.name))

  desired_config_map : DbcpEntryService R → ConfigMap → Result ConfigMap
  desired_config_map entry existing =
      with_owners_map
        (record existing {
          labels = managed_labels entry.name;
          content = desired_config_data lib entry;
        })
        (lib.set_controller_reference entry existing.owners)

  unfoldable pub ensure_config_map : DbcpEntryService R → Exec W (Unit {0})
  unfolding desired_config_map
  ensure_config_map entry =
      c.create_or_update_config_map (entry.namespace, config_map_name entry.name)
        (desired_config_map entry)

  desired_service : DbcpEntryService R → Service → Result Service
  desired_service entry existing =
      with_owners
        (record existing {
          labels = managed_labels entry.name;
          selector = managed_labels entry.name;
          ports =
              record {
                name = "http";
                port = entry.spec.config.service_export_port;
                target_port = "http";
              }
              ∷ [];
        })
        (lib.set_controller_reference entry existing.owners)

  unfoldable pub ensure_service : DbcpEntryService R → Exec W (Unit {0})
  unfolding desired_service
  ensure_service entry =
      c.create_or_update_service (entry.namespace, entry.name) (desired_service entry)

  finalize : DbcpEntryService R → Exec W Outcome
  finalize entry = do
    cleanup_owned_resources entry
    if has_finalizer entry then c.update (remove_finalizer entry) else pure tt
    pure done

  claim : DbcpEntryService R → Exec W Outcome
  claim entry = do c.update (add_finalizer entry); pure done

  converge : DbcpEntryService R → Exec W Outcome
  converge entry = do
    spec_hash ← lift (calculate_spec_hash lib entry)
    ensure_config_map entry
    ensure_service entry
    reconcile_pods c lib entry spec_hash
    pure requeue_after_sync

  reconcile_entry : DbcpEntryService R → Exec W Outcome
  reconcile_entry entry =
      if is_some entry.deletion_timestamp
      then finalize entry
      else if not (has_finalizer entry)
      then claim entry
      else converge entry

  pub reconcile : Key → Exec W Outcome
  reconcile key =
      try (c.get key) (λ e. if is_api_not_found e then pure done else raise e) reconcile_entry
