-- ===== src/Controller/Reconcile.antt =====
-- cloud_native_entry_task/controllers/internal/controller/controller.go: one pass over the resources.
use cloud_native_entry_task.Prelude.{
  Bool, false, ◌||◌, List, [], ◌∷◌, ◌++◌, String, str_eq, ◌==◌, if◌then◌else◌,
}
use cloud_native_entry_task.Prelude.Int.{ℤ, pos, leb_ℤ}
use cloud_native_entry_task.GoLib.Errors.{Error, external, is_api_not_found}
use cloud_native_entry_task.GoLib.Exec.{Exec, pure, raise, lift, try, ◌>>=◌, ◌>>◌}
use cloud_native_entry_task.Operator.Types.{Pod}
use cloud_native_entry_task.Operator.Pods.{is_some}
use cloud_native_entry_task.Controller.Client.{
  Unstructured, ObjectReader, ResourceRequirements, Tools, Kube,
}
use cloud_native_entry_task.Controller.Spec.{parse_spec}
use cloud_native_entry_task.Controller.Resources.{
  managed_selector, config_map_name, desired_spec_hash,
}
use cloud_native_entry_task.Controller.Ensure.{ensure_config_map, ensure_service}
use cloud_native_entry_task.Controller.Pods.{delete_named, reconcile_pods}

abbrev pub finalizer : String
finalizer = "dbcp.shopee.io/dbcp-entry-service-finalizer"

unfoldable pub has_text : String → List String → Bool
has_text value [] = false
has_text value (item ∷ items) = str_eq item value || has_text value items

abbrev pub has_finalizer : {O : Type 0} → Unstructured O → Bool
has_finalizer cr = has_text finalizer cr.finalizers

unfoldable pub other_texts : String → List String → List String
other_texts value [] = []
other_texts value (item ∷ items) =
    if str_eq item value then other_texts value items else item ∷ other_texts value items

-- The time between two passes, in nanoseconds: five seconds where none is given.
abbrev pub resync_of : ℤ → ℤ
resync_of resync = if leb_ℤ resync (pos 0) then pos 5_000_000_000 else resync

-- The one panic of the code is an index out of range.
abbrev pub is_panic : Error → Bool
is_panic (external n) = n == 3
is_panic _ = false

module _ {W O Q : Type 0} (kube : Kube W O (ResourceRequirements Q)) (reader : ObjectReader O Q)
    (tools : Tools (ResourceRequirements Q)) where
  abbrev pub add_finalizer : Unstructured O → Exec W (Unstructured O)
  add_finalizer cr =
      kube.update_resource (record cr { finalizers = cr.finalizers ++ finalizer ∷ [] })

  abbrev pub remove_finalizer : Unstructured O → Exec W (Unit {0})
  remove_finalizer cr =
      kube.update_resource (record cr { finalizers = other_texts finalizer cr.finalizers })
      >> pure tt

  unfoldable pub delete_all :
      Unstructured O → List (Pod (ResourceRequirements Q)) → Exec W (Unit {0})
  delete_all cr [] = pure tt
  delete_all cr (pod ∷ pods) = delete_named kube tools cr pod.name >> delete_all cr pods

  abbrev pub tolerant : Exec W (Unit {0}) → Exec W (Unit {0})
  tolerant m = try m (λ e. if is_api_not_found e then pure tt else raise e) pure

  unfoldable pub cleanup_owned_resources : Unstructured O → Exec W (Unit {0})
  unfolding delete_all
  cleanup_owned_resources cr = do
    pods ← kube.list_pods cr.namespace (managed_selector cr.name)
    delete_all cr pods
    tolerant (kube.delete_service (cr.namespace, cr.name))
    tolerant (kube.delete_config_map (cr.namespace, config_map_name cr.name))

  abbrev pub finalize : Unstructured O → Exec W (Unit {0})
  finalize cr = do
    cleanup_owned_resources cr
    if has_finalizer cr then remove_finalizer cr else pure tt

  abbrev pub claimed : Unstructured O → Exec W (Unstructured O)
  claimed cr = if has_finalizer cr then pure cr else add_finalizer cr

  abbrev pub converge : Unstructured O → Exec W (Unit {0})
  converge cr = do
    spec ← lift (parse_spec reader cr)
    ensure_config_map kube tools cr spec
    ensure_service kube tools cr spec
    reconcile_pods kube tools cr spec (desired_spec_hash tools cr spec)

  unfoldable pub reconcile_cr : Unstructured O → Exec W (Unit {0})
  reconcile_cr cr =
      if is_some cr.deletion_timestamp
      then finalize cr
      else (do current ← claimed cr; converge current)

  -- The errors of single resources are only logged; a panic ends the program.
  abbrev pub logged : Error → Exec W (Unit {0})
  logged e = if is_panic e then raise e else pure tt

  unfoldable pub reconcile_each : List (Unstructured O) → Exec W (Unit {0})
  reconcile_each [] = pure tt
  reconcile_each (cr ∷ crs) = try (reconcile_cr cr) logged pure >> reconcile_each crs

  unfoldable pub reconcile_all : Exec W (Unit {0})
  unfolding reconcile_each
  reconcile_all = do crs ← kube.list_resources; reconcile_each crs
