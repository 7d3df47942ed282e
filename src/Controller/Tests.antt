-- ===== src/Controller/Tests.antt =====
-- Runs of both controllers on a small cluster, whose world is the list of its pods.
use cloud_native_entry_task.Prelude.{
  ℕ, ◌≡◌, ◌≤◌, refl, subst, true, ◌&&◌, none, some, List, [], ◌∷◌, ◌++◌, Bytes, codes, length, All,
  bytes_eq, bytes_eq_sound, Bool-cases, inl, inr, if◌then◌else◌, is_empty, str_eq,
}
use cloud_native_entry_task.Prelude.Int.{ℤ, pos, negsuc}
use cloud_native_entry_task.GoLib.Errors.{api_not_found, ok}
use cloud_native_entry_task.GoLib.Exec.{Exec, pure, raise}
use cloud_native_entry_task.Operator.Types.{Pod}
use cloud_native_entry_task.Operator.Client.{Key, Client, Library}
use cloud_native_entry_task.Operator.Pods as OperatorPods
use cloud_native_entry_task.Controller.Client.{
  Unstructured, ObjectReader, ResourceRequirements, Tools, Kube,
}
use cloud_native_entry_task.Controller.Spec.{
  EntrySpec, ◌>>=◌, int32, required_text, required_number, is_port, parse_spec, parse_resources,
  parse_resource_list, quantities_of,
}
use cloud_native_entry_task.Controller.Pods.{reconcile_pods}
use cloud_native_entry_task.Controller.Agreement.Cluster.{entry_of, unblocked, IsSameCluster}
use cloud_native_entry_task.Controller.Agreement.{reconcile_pods_same}
use cloud_native_entry_task.Controller.Replicas.{IsLowBits, parse_spec_bounds}

abbrev pub Resources : Type 0
Resources = ResourceRequirements ℕ

abbrev pub Pods : Type 0
Pods = List (Pod Resources)

abbrev within : Bytes → Pods → Pods
within namespace [] = []
within namespace (p ∷ ps) =
    if bytes_eq p.namespace namespace then p ∷ within namespace ps else within namespace ps

abbrev without : Key → Pods → Pods
without key [] = []
without key (p ∷ ps) =
    if bytes_eq p.namespace key.0 && bytes_eq p.name key.1 then ps else p ∷ without key ps

abbrev add : Pod Resources → Exec Pods (Pod Resources)
add pod pods =
    let new : Pod Resources = record pod { name = 110 ∷ length pods ∷ [] } in
    (ok new, pods ++ new ∷ [])

-- An object holds nothing but its number of replicas; the other fields are always there.
abbrev pub reader : ObjectReader ℤ ℕ
reader = record {
  nested_string = λ object path. ok (some (codes "x"));
  nested_int64 = λ object path. elim path [
    | [] ↦ ok none
    | a ∷ [] ↦ ok none
    | a ∷ b ∷ [] ↦ ok none
    | a ∷ b ∷ field ∷ rest ↦
        if str_eq field "replicas" then ok (some object) else ok (some (pos 80))
  ];
  nested_string_map = λ object path. ok none;
  parse_quantity = λ value. ok (length value);
}

abbrev pub resource : ℤ → Unstructured ℤ
resource replicas = record {
  namespace = codes "default";
  name = codes "entry";
  uid = codes "1";
  deletion_timestamp = none;
  finalizers = [];
  object = replicas;
}

abbrev spec_with : ℤ → EntrySpec ℕ
spec_with replicas = record {
  config = record { target_db = codes "x"; target_redis = codes "x"; service_export_port = pos 80 };
  service = record {
    image = codes "x";
    replicas = replicas;
    resources = record { requests = none; limits = none };
  };
}

abbrev pub kube : Kube Pods ℤ Resources
kube = record {
  list_resources = pure (resource (pos 2) ∷ []);
  update_resource = λ cr. pure cr;
  list_pods = λ namespace selector pods. (ok (within namespace pods), pods);
  create_pod = add;
  delete_pod = λ key pods. (ok tt, without key pods);
  get_config_map = λ key. raise api_not_found;
  create_config_map = λ m. pure m;
  update_config_map = λ m. pure m;
  delete_config_map = λ key. raise api_not_found;
  get_service = λ key. raise api_not_found;
  create_service = λ s. pure s;
  update_service = λ s. pure s;
  delete_service = λ key. raise api_not_found;
}

abbrev pub tools : Tools Resources
tools = record {
  sha256_hex = λ bytes. bytes;
  marshal_spec_hash = λ content. ok content.image;
  sort_by_creation = λ pods. pods;
  equal_labels = λ a b. true;
  equal_owners = λ a b. true;
  equal_ports = λ a b. true;
}

abbrev client : Client Pods Resources
client = record {
  get = λ key. pure (entry_of (resource (pos 2)) (spec_with (pos 2)));
  update = λ entry. pure tt;
  list_pods = λ namespace selector pods. (ok (within namespace pods), pods);
  delete_pod = λ pod pods. (ok tt, without (pod.namespace, pod.name) pods);
  create_pod = add;
  delete_service = λ key. raise api_not_found;
  delete_config_map = λ key. raise api_not_found;
  create_or_update_config_map = λ key mutate. pure tt;
  create_or_update_service = λ key mutate. pure tt;
}

abbrev library : Library Resources
library = record {
  set_controller_reference = λ entry owners. ok (
      record {
        api_version = "dbcp.shopee.io/v1alpha1";
        kind = "DbcpEntryService";
        name = entry.name;
        uid = entry.uid;
        controller = some true;
        block_owner_deletion = some true;
      }
      ∷ []);
  sort_by_creation = λ pods. pods;
  sha256_hex = λ bytes. bytes;
  marshal_spec_hash = λ content. ok content.image;
}

within_namespace :
    (namespace : Bytes) (pods : Pods) → All (λ p. p.namespace ≡ namespace) (within namespace pods)
within_namespace namespace [] = tt
within_namespace namespace (p ∷ ps) = elim (Bool-cases (bytes_eq p.namespace namespace)) [
  | inl e ↦ rw e (bytes_eq_sound p.namespace namespace e, within_namespace namespace ps)
  | inr e ↦ rw e (within_namespace namespace ps)
]

same_cluster : IsSameCluster kube tools client library
same_cluster = record {
  listed = λ namespace name w. refl;
  in_namespace = λ namespace name w w' pods listed.
      let found : within namespace w ≡ pods = cc in
      subst (All (λ p. p.namespace ≡ namespace)) found (within_namespace namespace w);
  deleted = λ pod w. refl;
  created = λ pod w. refl;
  owned = λ cr spec. refl;
  sorted = λ pods. refl;
  sorted_within = λ namespace pods h. h;
}

reconcile_pods_same_example :
    reconcile_pods kube tools (resource (pos 2)) (spec_with (pos 2)) (codes "h") []
    ≡ OperatorPods.reconcile_pods client
        (unblocked library)
        (entry_of (resource (pos 2)) (spec_with (pos 2)))
        (codes "h")
        []
reconcile_pods_same_example =
    reconcile_pods_same kube tools client library same_cluster (resource (pos 2))
      (spec_with (pos 2)) (codes "h") []

-- 2 ^ 31 replicas are taken as - 2 ^ 31.
overflowing :
    parse_spec reader (resource (pos 2_147_483_648)) ≡ ok (spec_with (negsuc 2_147_483_647))
unfolding parse_spec parse_resources parse_resource_list quantities_of ◌>>=◌ required_text
    required_number int32 is_empty
overflowing = refl

parse_spec_bounds_example :
    (ok (some (pos 80)) ≡ ok (some (pos 80)))
    × (is_port (pos 80) ≡ true)
    × ((asked : ℕ) × (ok (some (pos 2_147_483_648)) ≡ ok (some (pos asked)))
        × (1 ≤ asked)
        × IsLowBits asked (negsuc 2_147_483_647))
parse_spec_bounds_example =
    parse_spec_bounds reader (resource (pos 2_147_483_648)) (spec_with (negsuc 2_147_483_647))
      overflowing
