-- ===== src/Controller/Agreement/Cluster.antt =====
-- When the clients of the two controllers act on the same cluster, and on the same resource.
use cloud_native_entry_task.Prelude.{◌≡◌, Bool, true, Option, none, some, List, [], Bytes, All, map}
use cloud_native_entry_task.GoLib.Errors.{Result, ok, err}
use cloud_native_entry_task.Operator.Types.{DbcpEntryService, OwnerReference, Pod}
use cloud_native_entry_task.Operator.Client.{Client, Library}
use cloud_native_entry_task.Operator.Resources.{pod_selector}
use cloud_native_entry_task.Controller.Client.{Unstructured, ResourceRequirements, Tools, Kube}
use cloud_native_entry_task.Controller.Spec.{EntrySpec}
use cloud_native_entry_task.Controller.Resources.{owner_refs, managed_selector}

-- The resource as the operator's type has it.
abbrev pub entry_of :
    {O Q : Type 0} → Unstructured O → EntrySpec Q → DbcpEntryService (ResourceRequirements Q)
entry_of cr spec = record {
  namespace = cr.namespace;
  name = cr.name;
  uid = cr.uid;
  deletion_timestamp = cr.deletion_timestamp;
  finalizers = cr.finalizers;
  spec = record {
    config = record {
      target_db = spec.config.target_db;
      target_redis = spec.config.target_redis;
      service_export_port = spec.config.service_export_port;
    };
    service = record {
      image = spec.service.image;
      replicas = spec.service.replicas;
      resources = spec.service.resources;
    };
  };
}

abbrev pub with_block : Option Bool → OwnerReference → OwnerReference
with_block flag r = record r { block_owner_deletion = flag }

abbrev without_blocks : Result (List OwnerReference) → Result (List OwnerReference)
without_blocks (ok owners) = ok (map (with_block none) owners)
without_blocks (err e) = err e

-- A library whose owners do not block the deletion of the resource.
abbrev pub unblocked : {R : Type 0} → Library R → Library R
unblocked lib = record lib {
  set_controller_reference =
      λ entry owners. without_blocks (lib.set_controller_reference entry owners);
}

-- Both act on the same cluster: the pods of a selector are those of a namespace, a pod is known by
-- its namespace and its name, and the owner of a new object is the resource. `SetControllerReference` also
-- sets `blockOwnerDeletion`, which `ownerRefs` does not.
pub record IsSameCluster {W O Q : Type 0} (kube : Kube W O (ResourceRequirements Q))
    (tools : Tools (ResourceRequirements Q)) (c : Client W (ResourceRequirements Q))
    (lib : Library (ResourceRequirements Q)) : Type 0 where
  pub listed :
      (namespace name : Bytes) (w : W)
      → kube.list_pods namespace (managed_selector name) w
        ≡ c.list_pods namespace (pod_selector name) w
  pub in_namespace :
      (namespace name : Bytes) (w w' : W) (pods : List (Pod (ResourceRequirements Q)))
      → c.list_pods namespace (pod_selector name) w ≡ (ok pods, w')
      → All (λ p. p.namespace ≡ namespace) pods
  pub deleted :
      (pod : Pod (ResourceRequirements Q)) (w : W)
      → kube.delete_pod (pod.namespace, pod.name) w ≡ c.delete_pod pod w
  pub created :
      (pod : Pod (ResourceRequirements Q)) (w : W) → kube.create_pod pod w ≡ c.create_pod pod w
  pub owned :
      (cr : Unstructured O) (spec : EntrySpec Q)
      → lib.set_controller_reference (entry_of cr spec) []
        ≡ ok (map (with_block (some true)) (owner_refs cr))
  pub sorted :
      (pods : List (Pod (ResourceRequirements Q)))
      → tools.sort_by_creation pods ≡ lib.sort_by_creation pods
  pub sorted_within :
      (namespace : Bytes) (pods : List (Pod (ResourceRequirements Q)))
      → All (λ p. p.namespace ≡ namespace) pods
      → All (λ p. p.namespace ≡ namespace) (lib.sort_by_creation pods)
