-- ===== src/Controller/Client.antt =====
-- What the controller calls of Kubernetes and Go's libraries: the API server, whose state is the
-- world `W`, the readers of unstructured objects, JSON, SHA-256, sorting and deep equality.
use cloud_native_entry_task.Prelude.{ℕ, Bool, Option, List, Bytes, String}
use cloud_native_entry_task.Prelude.Int.{ℤ}
use cloud_native_entry_task.GoLib.Errors.{Result}
use cloud_native_entry_task.GoLib.Exec.{Exec}
use cloud_native_entry_task.Operator.Types.{Labels, OwnerReference, Pod, ConfigMap, ServicePort}
use cloud_native_entry_task.Operator.Client.{Key, SpecHashData}

-- `unstructured.Unstructured`: its metadata, and the object.
pub record Unstructured (O : Type 0) : Type 0 where
  pub namespace : Bytes
  pub name : Bytes
  pub uid : Bytes
  pub deletion_timestamp : Option ℕ
  pub finalizers : List String
  pub object : O

-- `unstructured.NestedString` and the like, which find nothing or fail, and `resource.ParseQuantity`.
pub record ObjectReader (O Q : Type 0) : Type 0 where
  pub nested_string : O → List String → Result (Option Bytes)
  pub nested_int64 : O → List String → Result (Option ℤ)
  pub nested_string_map : O → List String → Result (Option (List (Bytes × Bytes)))
  pub parse_quantity : Bytes → Result Q

-- `corev1.ResourceRequirements`; `none` is the nil map.
pub record ResourceRequirements (Q : Type 0) : Type 0 where
  pub requests : Option (List (Bytes × Q))
  pub limits : Option (List (Bytes × Q))

-- `corev1.Service`
pub record KubeService : Type 0 where
  pub namespace : Bytes
  pub name : Bytes
  pub labels : Labels
  pub owners : List OwnerReference
  pub selector : Labels
  pub ports : List ServicePort
  pub service_type : String

pub record Tools (R : Type 0) : Type 0 where
  pub sha256_hex : Bytes → Bytes
  pub marshal_spec_hash : SpecHashData R → Result Bytes
  -- `sort.Slice` by creation timestamp
  pub sort_by_creation : List (Pod R) → List (Pod R)
  -- `reflect.DeepEqual`
  pub equal_labels : Labels → Labels → Bool
  pub equal_owners : List OwnerReference → List OwnerReference → Bool
  pub equal_ports : List ServicePort → List ServicePort → Bool

-- An object is found by its namespace and its name; updates and creations return it as stored.
pub record Kube (W O R : Type 0) : Type 0 where
  pub list_resources : Exec W (List (Unstructured O))
  pub update_resource : Unstructured O → Exec W (Unstructured O)
  -- the pods of a namespace that a selector's text selects
  pub list_pods : Bytes → Bytes → Exec W (List (Pod R))
  pub create_pod : Pod R → Exec W (Pod R)
  pub delete_pod : Key → Exec W (Unit {0})
  pub get_config_map : Key → Exec W ConfigMap
  pub create_config_map : ConfigMap → Exec W ConfigMap
  pub update_config_map : ConfigMap → Exec W ConfigMap
  pub delete_config_map : Key → Exec W (Unit {0})
  pub get_service : Key → Exec W KubeService
  pub create_service : KubeService → Exec W KubeService
  pub update_service : KubeService → Exec W KubeService
  pub delete_service : Key → Exec W (Unit {0})
