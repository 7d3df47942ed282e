-- ===== src/Operator/Pods.antt =====
-- operator/internal/controller/dbcpentryservice_controller.go: `reconcilePods`, which deletes pods
-- that have ended or are outdated, and scales the rest down or up. Each loop is a function.
pub mod Plan
pub mod Calls
pub mod Total
pub mod Settled
pub mod Runs
mod Tests
use cloud_native_entry_task.Prelude.{
  ℕ, zero, suc, ◌+◌, ◌-◌, ◌≤◌, Bool, true, false, not, ◌&&◌, ◌||◌, Option, none, some, List, [],
  ◌∷◌, ◌++◌, Bytes, take, get_elem?, length, bytes_eq, ltb, leb, if◌then◌else◌,
}
use cloud_native_entry_task.Prelude.Int.{ℤ, pos, negsuc, pos_part}
use cloud_native_entry_task.GoLib.Errors.{Error, external, is_api_not_found, Result, ok, err}
use cloud_native_entry_task.GoLib.Exec.{Exec, pure, raise, try, ◌>>=◌, ◌>>◌}
use cloud_native_entry_task.Operator.Types.{
  DbcpEntryService, PodPhase, pending, running, succeeded, failed, unknown, Pod,
}
use cloud_native_entry_task.Operator.Client.{Client, Library}
use cloud_native_entry_task.Operator.Resources.{label_spec_hash, pod_selector, label, desired_pod}

-- An index out of range ends the call in a panic.
abbrev pub index_out_of_range : Error
index_out_of_range = external 3

abbrev pub has_ended : PodPhase → Bool
has_ended succeeded = true
has_ended failed = true
has_ended _ = false

abbrev pub is_some {ℓ} : {A : Type ℓ} → Option A → Bool
is_some none = false
is_some (some a) = true

-- `len(current) <= desired`
abbrev pub fits : ℕ → ℤ → Bool
fits n (pos desired) = leb n desired
fits n (negsuc desired) = false

module _ {W R : Type 0} (c : Client W R) (lib : Library R) where
  -- A delete that finds nothing has done its work.
  unfoldable pub delete : Pod R → Exec W (Unit {0})
  delete pod = try (c.delete_pod pod) (λ e. if is_api_not_found e then pure tt else raise e) pure

  -- The first loop: the pods that are neither on their way out nor deleted here.
  unfoldable pub sweep : Bytes → List (Pod R) → Exec W (List (Pod R))
  sweep spec_hash [] = pure []
  sweep spec_hash (pod ∷ pods) =
      let rest = sweep spec_hash pods in
      if is_some pod.deletion_timestamp
      then rest
      else if has_ended pod.phase
      then delete pod >> rest
      else if not (bytes_eq (label label_spec_hash pod.labels) spec_hash)
      then delete pod >> rest
      else (do current ← rest; pure (pod ∷ current))

  -- `for len(current) > desired`: the newest pod is last. The first argument is `len(current)`.
  unfoldable pub delete_at : Option (Pod R) → Exec W (Unit {0})
  delete_at none = raise index_out_of_range
  delete_at (some pod) = delete pod

  unfoldable pub scale_down : ℕ → ℤ → List (Pod R) → Exec W (List (Pod R))
  scale_down zero desired current =
      if fits zero desired then pure current else raise index_out_of_range
  scale_down (suc n) desired current =
      let rest = scale_down n desired (take n current) in
      if fits (suc n) desired then pure current else delete_at (get_elem? current n) >> rest

  -- `for len(current) < desired`: the first argument counts the pods that are missing.
  unfoldable pub scale_up : ℕ → Pod R → List (Pod R) → Exec W (List (Pod R))
  scale_up zero wanted current = pure current
  scale_up (suc missing) wanted current = do
    pod ← c.create_pod wanted
    scale_up missing wanted (current ++ pod ∷ [])

  -- Both loops, from the pods in the order of their creation.
  unfoldable pub scale : ℤ → Pod R → List (Pod R) → Exec W (Unit {0})
  scale desired wanted current = do
    kept ← scale_down (length current) desired current
    scale_up (pos_part desired - length kept) wanted kept
    pure tt

  unfoldable pub reconcile_pods : DbcpEntryService R → Bytes → Exec W (Unit {0})
  reconcile_pods entry spec_hash = do
    pods ← c.list_pods entry.namespace (pod_selector entry.name)
    swept ← sweep spec_hash pods
    scale entry.spec.service.replicas (desired_pod lib entry spec_hash) (lib.sort_by_creation swept)
