-- ===== src/Operator/Types.antt =====
-- operator/api/v1alpha1/dbcpentryservice_types.go, and the fields of the Kubernetes objects that the
-- reconciler reads or sets. `R` is the type of resource requirements, which it only passes on.
use cloud_native_entry_task.Prelude.{ℕ, Bool, Option, List, Bytes, String}
use cloud_native_entry_task.Prelude.Int.{ℤ}

pub record EntryConfig : Type 0 where
  pub target_db : Bytes
  pub target_redis : Bytes
  pub service_export_port : ℤ

pub record EntryService (R : Type 0) : Type 0 where
  pub image : Bytes
  pub replicas : ℤ
  pub resources : R

pub record DbcpEntryServiceSpec (R : Type 0) : Type 0 where
  pub config : EntryConfig
  pub service : EntryService R

pub record DbcpEntryService (R : Type 0) : Type 0 where
  pub namespace : Bytes
  pub name : Bytes
  pub uid : Bytes
  pub deletion_timestamp : Option ℕ
  pub finalizers : List String
  pub spec : DbcpEntryServiceSpec R

-- A map from texts, as an association list.
abbrev pub Labels : Type 0
Labels = List (String × Bytes)

pub data PodPhase : Type 0 where
  pending running succeeded failed unknown : PodPhase

-- `metav1.OwnerReference`, where a pointer may be nil
pub record OwnerReference : Type 0 where
  pub api_version : String
  pub kind : String
  pub name : Bytes
  pub uid : Bytes
  pub controller : Option Bool
  pub block_owner_deletion : Option Bool

pub record ContainerPort : Type 0 where
  pub name : String
  pub container_port : ℕ

-- An HTTP GET of a path at the port "http".
pub record Probe : Type 0 where
  pub path : String
  pub initial_delay_seconds : ℕ
  pub period_seconds : ℕ

-- The one container of a pod; its environment is a config map, its restart policy is "Always" and
-- its image pull policy "IfNotPresent".
pub record PodSpec (R : Type 0) : Type 0 where
  pub container : String
  pub image : Bytes
  pub ports : List ContainerPort
  pub env_from : Bytes
  pub readiness_probe : Probe
  pub liveness_probe : Probe
  pub resources : R

-- A pod that is not yet created has a prefix for its name, and no name or creation time.
pub record Pod (R : Type 0) : Type 0 where
  pub name : Bytes
  pub generate_name : Bytes
  pub namespace : Bytes
  pub labels : Labels
  pub annotations : Labels
  pub owners : List OwnerReference
  pub creation_timestamp : ℕ
  pub deletion_timestamp : Option ℕ
  pub phase : PodPhase
  pub spec : PodSpec R

pub record ConfigMap : Type 0 where
  pub namespace : Bytes
  pub name : Bytes
  pub labels : Labels
  pub owners : List OwnerReference
  pub content : Labels

-- One port of a service of type "ClusterIP".
pub record ServicePort : Type 0 where
  pub name : String
  pub port : ℤ
  pub target_port : String

pub record Service : Type 0 where
  pub namespace : Bytes
  pub name : Bytes
  pub labels : Labels
  pub owners : List OwnerReference
  pub selector : Labels
  pub ports : List ServicePort
