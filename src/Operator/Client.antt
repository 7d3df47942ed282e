-- ===== src/Operator/Client.antt =====
-- What the reconciler calls of Kubernetes and its Go libraries: the API server, whose state is the
-- world `W`, `controllerutil`, `sort.Slice`, SHA-256 and JSON.
pub mod Logged
use cloud_native_entry_task.Prelude.{
  ℕ, ◌≤◌, ◌≡◌, List, [], ◌∷◌, ◌++◌, Bytes, String, ltb, leb, All, Option,
}
use cloud_native_entry_task.Prelude.Int.{ℤ}
use cloud_native_entry_task.GoLib.Errors.{Result}
use cloud_native_entry_task.GoLib.Exec.{Exec}
use cloud_native_entry_task.Operator.Types.{
  DbcpEntryService, Labels, OwnerReference, Pod, ConfigMap, Service,
}

-- Namespace and name.
abbrev pub Key : Type 0
Key = Bytes × Bytes

pub record Client (W R : Type 0) : Type 0 where
  pub get : Key → Exec W (DbcpEntryService R)
  pub update : DbcpEntryService R → Exec W (Unit {0})
  -- the pods of a namespace with the labels of a selector
  pub list_pods : Bytes → Labels → Exec W (List (Pod R))
  pub delete_pod : Pod R → Exec W (Unit {0})
  -- the pod as created
  pub create_pod : Pod R → Exec W (Pod R)
  pub delete_service : Key → Exec W (Unit {0})
  pub delete_config_map : Key → Exec W (Unit {0})
  -- `controllerutil.CreateOrUpdate`: what it finds, or an object with only a key, is mutated, and
  -- then created or, if that changed it, updated
  pub create_or_update_config_map : Key → (ConfigMap → Result ConfigMap) → Exec W (Unit {0})
  pub create_or_update_service : Key → (Service → Result Service) → Exec W (Unit {0})

-- What `calculateSpecHash` puts into JSON.
pub record SpecHashData (R : Type 0) : Type 0 where
  pub config_map : Labels
  pub image : Bytes
  pub resources : R
  pub owner : List (String × String)
  pub ports : List (String × ℤ)

pub record Library (R : Type 0) : Type 0 where
  -- `controllerutil.SetControllerReference`, on an object's owners
  pub set_controller_reference :
      DbcpEntryService R → List OwnerReference → Result (List OwnerReference)
  -- `sort.Slice` by creation timestamp
  pub sort_by_creation : List (Pod R) → List (Pod R)
  -- hexadecimal digits of the SHA-256 of some bytes
  pub sha256_hex : Bytes → Bytes
  pub marshal_spec_hash : SpecHashData R → Result Bytes
