-- ===== src/Operator/Sample.antt =====
-- A small cluster, whose world is the list of its pods.
use cloud_native_entry_task.Prelude.{
  ℕ, Option, none, List, [], ◌∷◌, ◌++◌, Bytes, String, codes, length, replicate, bytes_eq,
  if◌then◌else◌,
}
use cloud_native_entry_task.Prelude.Int.{pos}
use cloud_native_entry_task.GoLib.Errors.{api_not_found, ok, err}
use cloud_native_entry_task.GoLib.Exec.{pure, raise}
use cloud_native_entry_task.Operator.Types.{DbcpEntryService, PodPhase, running, failed, Pod}
use cloud_native_entry_task.Operator.Client.{Client, Library}
use cloud_native_entry_task.Operator.Resources.{finalizer, desired_pod}

abbrev without : Bytes → List (Pod ℕ) → List (Pod ℕ)
without name [] = []
without name (p ∷ ps) = if bytes_eq p.name name then ps else p ∷ without name ps

-- The pod "gone" cannot be found when it is deleted; a new pod is named by the number of pods.
abbrev pub cluster : DbcpEntryService ℕ → Client (List (Pod ℕ)) ℕ
cluster entry = record {
  get = λ key. pure entry;
  update = λ entry. pure tt;
  list_pods = λ namespace selector pods. (ok pods, pods);
  delete_pod = λ pod pods.
      if bytes_eq pod.name (codes "gone")
      then (err api_not_found, pods)
      else (ok tt, without pod.name pods);
  create_pod = λ pod pods. (
    ok (record pod { name = 110 ∷ length pods ∷ [] }),
    pods ++ record pod { name = 110 ∷ length pods ∷ [] } ∷ [],
  );
  delete_service = λ key. raise api_not_found;
  delete_config_map = λ key. pure tt;
  create_or_update_config_map = λ key mutate. pure tt;
  create_or_update_service = λ key mutate. pure tt;
}

-- A hash that repeats the number of bytes; the pods are listed in the order of their creation.
abbrev pub library : Library ℕ
library = record {
  set_controller_reference = λ entry owners. ok owners;
  sort_by_creation = λ pods. pods;
  sha256_hex = λ bytes. replicate 64 (length bytes);
  marshal_spec_hash = λ content. ok content.image;
}

abbrev pub an_entry : Option ℕ → List String → DbcpEntryService ℕ
an_entry deleted finalizers = record {
  namespace = codes "default";
  name = codes "entry";
  uid = codes "1";
  deletion_timestamp = deleted;
  finalizers = finalizers;
  spec = record {
    config = record {
      target_db = codes "db";
      target_redis = codes "redis";
      service_export_port = pos 80;
    };
    service = record { image = codes "app:1"; replicas = pos 2; resources = 0 };
  };
}

abbrev pub the_entry : DbcpEntryService ℕ
the_entry = an_entry none (finalizer ∷ [])

-- The hash of the entry's spec.
abbrev pub spec_hash : Bytes
spec_hash = replicate 12 5

abbrev pub a_pod : Bytes → Bytes → PodPhase → Pod ℕ
a_pod name hash phase = record (desired_pod library the_entry hash) { name = name; phase = phase }

-- A pod that has failed, one that is outdated, and one to keep: one is missing.
abbrev pub some_pods : List (Pod ℕ)
some_pods =
    a_pod (codes "gone") spec_hash failed
    ∷ a_pod (codes "old") (codes "0") running
    ∷ a_pod (codes "good") spec_hash running
    ∷ []
