-- ===== src/Controller/Ensure.antt =====
-- cloud_native_entry_task/controllers/internal/controller/resources.go: the config map and the
-- service, which are created, or updated where they differ.
use cloud_native_entry_task.Prelude.{Bool, ◌&&◌, List, [], ◌∷◌, str_eq, if◌then◌else◌}
use cloud_native_entry_task.GoLib.Errors.{is_api_not_found}
use cloud_native_entry_task.GoLib.Exec.{Exec, pure, raise, try, ◌>>◌}
use cloud_native_entry_task.Operator.Types.{ConfigMap, ServicePort}
use cloud_native_entry_task.Controller.Client.{
  Unstructured, ResourceRequirements, KubeService, Tools, Kube,
}
use cloud_native_entry_task.Controller.Spec.{EntrySpec}
use cloud_native_entry_task.Controller.Resources.{
  managed_labels, config_map_name, owner_refs, desired_config_data,
}

module _ {W O Q : Type 0} (kube : Kube W O (ResourceRequirements Q))
    (tools : Tools (ResourceRequirements Q)) (cr : Unstructured O) (spec : EntrySpec Q) where
  -- What the config map holds, whatever it held before.
  abbrev pub with_desired_data : ConfigMap → ConfigMap
  with_desired_data existing = record existing {
    labels = managed_labels cr.name;
    owners = owner_refs cr;
    content = desired_config_data tools cr spec;
  }

  abbrev pub new_config_map : ConfigMap
  new_config_map = record {
    namespace = cr.namespace;
    name = config_map_name cr.name;
    labels = managed_labels cr.name;
    owners = owner_refs cr;
    content = desired_config_data tools cr spec;
  }

  abbrev pub same_config_map : ConfigMap → ConfigMap → Bool
  same_config_map existing wanted =
      tools.equal_labels existing.content wanted.content
      && (tools.equal_labels existing.labels wanted.labels
          && tools.equal_owners existing.owners wanted.owners)

  abbrev pub settle_config_map : ConfigMap → Exec W (Unit {0})
  settle_config_map existing =
      if same_config_map existing (with_desired_data existing)
      then pure tt
      else kube.update_config_map (with_desired_data existing) >> pure tt

  unfoldable pub ensure_config_map : Exec W (Unit {0})
  ensure_config_map =
      try (kube.get_config_map (cr.namespace, config_map_name cr.name))
        (λ e.
          if is_api_not_found e then kube.create_config_map new_config_map >> pure tt else raise e)
        settle_config_map

  abbrev pub desired_ports : List ServicePort
  desired_ports =
      record { name = "http"; port = spec.config.service_export_port; target_port = "http" } ∷ []

  abbrev pub with_desired_spec : KubeService → KubeService
  with_desired_spec existing = record existing {
    labels = managed_labels cr.name;
    owners = owner_refs cr;
    selector = managed_labels cr.name;
    ports = desired_ports;
    service_type = "ClusterIP";
  }

  abbrev pub new_service : KubeService
  new_service = record {
    namespace = cr.namespace;
    name = cr.name;
    labels = managed_labels cr.name;
    owners = owner_refs cr;
    selector = managed_labels cr.name;
    ports = desired_ports;
    service_type = "ClusterIP";
  }

  abbrev pub same_service : KubeService → KubeService → Bool
  same_service existing wanted =
      tools.equal_labels existing.labels wanted.labels
      && (tools.equal_owners existing.owners wanted.owners
          && (tools.equal_labels existing.selector wanted.selector
              && (tools.equal_ports existing.ports wanted.ports
                  && str_eq existing.service_type wanted.service_type)))

  abbrev pub settle_service : KubeService → Exec W (Unit {0})
  settle_service existing =
      if same_service existing (with_desired_spec existing)
      then pure tt
      else kube.update_service (with_desired_spec existing) >> pure tt

  unfoldable pub ensure_service : Exec W (Unit {0})
  ensure_service =
      try (kube.get_service (cr.namespace, cr.name))
        (λ e. if is_api_not_found e then kube.create_service new_service >> pure tt else raise e)
        settle_service
