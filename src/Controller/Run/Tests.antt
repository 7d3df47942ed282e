-- ===== src/Controller/Run/Tests.antt =====
-- A controller of two resources: the spec of the first is refused, the second gets its two pods.
use cloud_native_entry_task.Prelude.{◌≡◌, refl, [], ◌∷◌, bytes_eq, length, is_empty}
use cloud_native_entry_task.Prelude.Int.{ℤ, pos}
use cloud_native_entry_task.GoLib.Errors.{ok, err, is_api_not_found}
use cloud_native_entry_task.GoLib.Exec.{pure}
use cloud_native_entry_task.Controller.Client.{Kube}
use cloud_native_entry_task.Operator.Resources.{label, set_label}
use cloud_native_entry_task.Controller.Spec.{
  ◌>>=◌, bad_replicas, int32, required_text, required_number, parse_spec, parse_resources,
  parse_resource_list, quantities_of,
}
use cloud_native_entry_task.Controller.Resources.{desired_pod, desired_spec_hash, managed_labels}
use cloud_native_entry_task.Controller.Ensure.{ensure_config_map, ensure_service}
use cloud_native_entry_task.Controller.Pods.{
  delete_named, sweep, scale_down, scale_up, scale, reconcile_pods,
}
use cloud_native_entry_task.Controller.Reconcile.{has_text, reconcile_cr}
use cloud_native_entry_task.Controller.Run.{context_done, tick, run}
use cloud_native_entry_task.Controller.Run.Isolation.{
  RunCalm, after_each, after_listed, after_pass, after_run, state_of, run_passes,
}
use cloud_native_entry_task.Controller.Tests.{Pods, Resources, kube, reader, tools, resource}

abbrev two_resources : Kube Pods ℤ Resources
two_resources = record kube { list_resources = pure (resource (pos 0) ∷ resource (pos 2) ∷ []) }

refused : (reconcile_cr two_resources reader tools (resource (pos 0)) []).0 ≡ err bad_replicas
unfolding reconcile_cr has_text parse_spec ◌>>=◌ required_text is_empty required_number int32
refused = refl

calm : RunCalm two_resources reader tools (tick ∷ context_done ∷ []) []
unfolding reconcile_cr after_pass after_each after_listed has_text parse_spec ◌>>=◌ required_text
    is_empty required_number parse_resources parse_resource_list quantities_of ensure_config_map
    is_api_not_found ensure_service reconcile_pods int32 bytes_eq desired_pod delete_named scale
    scale_down scale_up sweep desired_spec_hash managed_labels label set_label
calm = ((refl, (tt, tt)), (refl, (tt, tt)))

pods_created : length (after_run two_resources reader tools (tick ∷ context_done ∷ []) []) ≡ 2
unfolding reconcile_cr after_pass after_each after_listed after_run has_text parse_spec ◌>>=◌
    required_text is_empty required_number parse_resources parse_resource_list quantities_of
    ensure_config_map is_api_not_found ensure_service reconcile_pods int32 bytes_eq desired_pod
    delete_named scale scale_down scale_up sweep desired_spec_hash managed_labels label set_label
pods_created = refl

run_passes_example : run two_resources reader tools (tick ∷ context_done ∷ []) [] ≡ (
  ok (state_of two_resources reader tools (tick ∷ context_done ∷ [])),
  after_run two_resources reader tools (tick ∷ context_done ∷ []) [],
)
run_passes_example = run_passes two_resources reader tools (tick ∷ context_done ∷ []) [] calm
