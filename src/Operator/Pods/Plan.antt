-- ===== src/Operator/Pods/Plan.antt =====
-- The calls that `reconcilePods` ought to make, computed from the list of pods.
use mathlib.Core.List.{reverse}
use cloud_native_entry_task.Prelude.{
  ℕ, ◌-◌, Bool, not, ◌&&◌, List, [], ◌∷◌, ◌++◌, map, Bytes, drop, length, replicate, bytes_eq,
  if◌then◌else◌,
}
use cloud_native_entry_task.Operator.Types.{DbcpEntryService, Pod}
use cloud_native_entry_task.Operator.Client.{Library}
use cloud_native_entry_task.Operator.Client.Logged.{Call, delete_pod, create_pod}
use cloud_native_entry_task.Operator.Resources.{label_spec_hash, label, desired_pod}
use cloud_native_entry_task.Operator.Pods.{has_ended, is_some}

module _ {R : Type 0} where
  abbrev pub keep : (Pod R → Bool) → List (Pod R) → List (Pod R)
  keep p [] = []
  keep p (x ∷ xs) = if p x then x ∷ keep p xs else keep p xs

  abbrev pub is_leaving : Pod R → Bool
  is_leaving pod = is_some pod.deletion_timestamp

  abbrev pub has_hash : Bytes → Pod R → Bool
  has_hash spec_hash pod = bytes_eq (label label_spec_hash pod.labels) spec_hash

  -- A pod that is to stay if there is room: it is not leaving, has not ended and is up to date.
  abbrev pub is_fresh : Bytes → Pod R → Bool
  is_fresh spec_hash pod =
      not (is_leaving pod) && not (has_ended pod.phase) && has_hash spec_hash pod

  -- A pod that is to be deleted: it is not leaving, and has ended or is outdated.
  abbrev pub is_stale : Bytes → Pod R → Bool
  is_stale spec_hash pod = not (is_leaving pod) && not (is_fresh spec_hash pod)

  abbrev pub deletes : List (Pod R) → List (Call R)
  deletes = map delete_pod

  module _ (lib : Library R) where
    -- Stale pods go, in the order listed; then the fresh ones beyond the wanted number, newest
    -- first; then the missing ones are created.
    unfoldable pub plan : DbcpEntryService R → Bytes → ℕ → List (Pod R) → List (Call R)
    plan entry spec_hash replicas pods =
        let fresh = lib.sort_by_creation (keep (is_fresh spec_hash) pods) in
        deletes (keep (is_stale spec_hash) pods)
        ++ (deletes (reverse (drop replicas fresh))
            ++ replicate (replicas - length fresh) (create_pod (desired_pod lib entry spec_hash)))
