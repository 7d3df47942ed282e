-- ===== src/Controller/Pods.antt =====
-- cloud_native_entry_task/controllers/internal/controller/resources.go: `reconcilePods`, a function
-- for each of its loops.
use cloud_native_entry_task.Prelude.{
  ℕ, zero, suc, ◌-◌, not, Option, none, some, List, [], ◌∷◌, ◌++◌, Bytes, take, get_elem?, length,
  bytes_eq, if◌then◌else◌,
}
use cloud_native_entry_task.Prelude.Int.{ℤ, pos_part}
use cloud_native_entry_task.GoLib.Errors.{is_api_not_found}
use cloud_native_entry_task.GoLib.Exec.{Exec, pure, raise, try, ◌>>=◌, ◌>>◌}
use cloud_native_entry_task.Operator.Types.{Pod}
use cloud_native_entry_task.Operator.Resources.{label}
use cloud_native_entry_task.Operator.Pods.{index_out_of_range, has_ended, is_some, fits}
use cloud_native_entry_task.Controller.Client.{Unstructured, ResourceRequirements, Tools, Kube}
use cloud_native_entry_task.Controller.Spec.{EntrySpec}
use cloud_native_entry_task.Controller.Resources.{label_spec_hash, managed_selector, desired_pod}

module _ {W O Q : Type 0} (kube : Kube W O (ResourceRequirements Q))
    (tools : Tools (ResourceRequirements Q)) (cr : Unstructured O) where
  -- A delete that finds nothing has done its work.
  unfoldable pub delete_named : Bytes → Exec W (Unit {0})
  delete_named name =
      try (kube.delete_pod (cr.namespace, name))
        (λ e. if is_api_not_found e then pure tt else raise e) pure

  -- The first loop: the pods that are neither on their way out nor deleted here.
  unfoldable pub sweep :
      Bytes → List (Pod (ResourceRequirements Q)) → Exec W (List (Pod (ResourceRequirements Q)))
  sweep spec_hash [] = pure []
  sweep spec_hash (pod ∷ pods) =
      let rest = sweep spec_hash pods in
      if is_some pod.deletion_timestamp
      then rest
      else if has_ended pod.phase
      then delete_named pod.name >> rest
      else if not (bytes_eq (label label_spec_hash pod.labels) spec_hash)
      then delete_named pod.name >> rest
      else (do current ← rest; pure (pod ∷ current))

  abbrev pub delete_at : Option (Pod (ResourceRequirements Q)) → Exec W (Unit {0})
  delete_at none = raise index_out_of_range
  delete_at (some pod) = delete_named pod.name

  -- `for len(current) > replicas`: the first argument is `len(current)`.
  unfoldable pub scale_down :
      ℕ → ℤ → List (Pod (ResourceRequirements Q)) → Exec W (List (Pod (ResourceRequirements Q)))
  scale_down zero replicas current =
      if fits zero replicas then pure current else raise index_out_of_range
  scale_down (suc n) replicas current =
      let rest = scale_down n replicas (take n current) in
      if fits (suc n) replicas then pure current else delete_at (get_elem? current n) >> rest

  -- `for len(current) < replicas`: the first argument counts the pods that are missing.
  unfoldable pub scale_up :
      ℕ
      → Pod (ResourceRequirements Q)
      → List (Pod (ResourceRequirements Q))
      → Exec W (List (Pod (ResourceRequirements Q)))
  scale_up zero wanted current = pure current
  scale_up (suc missing) wanted current = do
    created ← kube.create_pod wanted
    scale_up missing wanted (current ++ created ∷ [])

  unfoldable pub scale :
      ℤ → Pod (ResourceRequirements Q) → List (Pod (ResourceRequirements Q)) → Exec W (Unit {0})
  unfolding scale_down scale_up
  scale replicas wanted current = do
    kept ← scale_down (length current) replicas current
    scale_up (pos_part replicas - length kept) wanted kept
    pure tt

  unfoldable pub reconcile_pods : EntrySpec Q → Bytes → Exec W (Unit {0})
  unfolding sweep scale
  reconcile_pods spec spec_hash = do
    pods ← kube.list_pods cr.namespace (managed_selector cr.name)
    swept ← sweep spec_hash pods
    scale spec.service.replicas (desired_pod tools cr spec spec_hash) (tools.sort_by_creation swept)
