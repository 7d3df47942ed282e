-- ===== src/Controller/Agreement.antt =====
-- The two controllers' `reconcilePods`: controllers/internal/controller/resources.go of
-- cloud_native_entry_task, and operator/internal/controller/dbcpentryservice_controller.go.
pub mod Cluster
use cloud_native_entry_task.Prelude.{
  ℕ, zero, suc, ◌-◌, ◌≡◌, refl, sym, ap, subst, ◌∙◌, not, Option, none, some, List, [], ◌∷◌, ◌++◌,
  Bytes, take, get_elem?, length, bytes_eq, All, All-get_elem, All-take, if◌then◌else◌,
}
use cloud_native_entry_task.Prelude.Int.{ℤ, pos_part}
use cloud_native_entry_task.GoLib.Errors.{is_api_not_found, ok}
use cloud_native_entry_task.GoLib.Exec.{
  Exec, pure, raise, ◌>>=◌, ◌>>◌, on_error, bind_ok, bind_same, choose_same, choose_elim,
}
use cloud_native_entry_task.Operator.Types.{DbcpEntryService, Pod}
use cloud_native_entry_task.Operator.Client.{Client, Library}
use cloud_native_entry_task.Operator.Resources as OperatorResources
use cloud_native_entry_task.Operator.Resources.{pod_selector, label}
use cloud_native_entry_task.Operator.Pods as OperatorPods
use cloud_native_entry_task.Operator.Pods.{has_ended, is_some, fits}
use cloud_native_entry_task.Controller.Client.{Unstructured, ResourceRequirements, Tools, Kube}
use cloud_native_entry_task.Controller.Spec.{EntrySpec}
use cloud_native_entry_task.Controller.Resources.{owner_refs, managed_selector, desired_pod}
use cloud_native_entry_task.Controller.Pods.{
  delete_named, sweep, delete_at, scale_down, scale_up, scale, reconcile_pods,
}
use cloud_native_entry_task.Controller.Agreement.Cluster.{entry_of, unblocked, IsSameCluster}

module _ {W O Q : Type 0} (kube : Kube W O (ResourceRequirements Q))
    (tools : Tools (ResourceRequirements Q)) (c : Client W (ResourceRequirements Q))
    (lib : Library (ResourceRequirements Q)) (same : IsSameCluster kube tools c lib)
    (cr : Unstructured O) (spec : EntrySpec Q) where
  abbrev Here : Pod (ResourceRequirements Q) → Type 0
  Here pod = pod.namespace ≡ cr.namespace

  desired_pod_same :
      (spec_hash : Bytes)
      → desired_pod tools cr spec spec_hash
        ≡ OperatorResources.desired_pod (unblocked lib) (entry_of cr spec) spec_hash
  unfolding desired_pod OperatorResources.desired_pod
  desired_pod_same spec_hash = rw (same.owned cr spec) refl

  delete_same :
      (pod : Pod (ResourceRequirements Q)) (w : W)
      → Here pod
      → delete_named kube tools cr pod.name w ≡ OperatorPods.delete c (unblocked lib) pod w
  unfolding delete_named OperatorPods.delete
  delete_same pod w here =
      let called : kube.delete_pod (cr.namespace, pod.name) w ≡ c.delete_pod pod w =
        ap (λ n. kube.delete_pod (n, pod.name) w) (sym here) ∙ same.deleted pod w in
      ap (λ r. on_error (λ e. if is_api_not_found e then pure tt else raise e) pure r.0 r.1) called

  then_same :
      (pod : Pod (ResourceRequirements Q)) {A : Type 0} (rest rest' : Exec W A) (w : W)
      → Here pod
      → ((w1 : W) → rest w1 ≡ rest' w1)
      → (delete_named kube tools cr pod.name >> rest) w
        ≡ (OperatorPods.delete c (unblocked lib) pod >> rest') w
  then_same pod rest rest' w here h =
      bind_same (delete_named kube tools cr pod.name) (OperatorPods.delete c (unblocked lib) pod)
        (λ x. rest) (λ x. rest') w (delete_same pod w here) (λ x w1 e. h w1)

  sweep_same :
      (spec_hash : Bytes) (pods : List (Pod (ResourceRequirements Q))) (w : W)
      → All Here pods
      → sweep kube tools cr spec_hash pods w ≡ OperatorPods.sweep c (unblocked lib) spec_hash pods w
  unfolding sweep OperatorPods.sweep
  sweep_same spec_hash [] w here = refl
  sweep_same spec_hash (pod ∷ pods) w here =
      let rest : (w1 : W)
          → sweep kube tools cr spec_hash pods w1
            ≡ OperatorPods.sweep c (unblocked lib) spec_hash pods w1 =
        λ w1. sweep_same spec_hash pods w1 here.1 in
      choose_same (is_some pod.deletion_timestamp) _ _ _ _ w (rest w) (
        choose_same (has_ended pod.phase) _ _ _ _ w (then_same pod _ _ w here.0 rest) (
          choose_same
            (not (bytes_eq (label OperatorResources.label_spec_hash pod.labels) spec_hash)) _ _ _ _
            w (then_same pod _ _ w here.0 rest)
            (bind_same (sweep kube tools cr spec_hash pods)
              (OperatorPods.sweep c (unblocked lib) spec_hash pods)
              (λ current. pure (pod ∷ current)) (λ current. pure (pod ∷ current)) w (rest w)
              (λ x w1 e. refl))))

  delete_at_same :
      (o : Option (Pod (ResourceRequirements Q))) {A : Type 0} (rest rest' : Exec W A) (w : W)
      → ((pod : Pod (ResourceRequirements Q)) → o ≡ some pod → Here pod)
      → ((w1 : W) → rest w1 ≡ rest' w1)
      → (delete_at kube tools cr o >> rest) w
        ≡ (OperatorPods.delete_at c (unblocked lib) o >> rest') w
  unfolding OperatorPods.delete_at
  delete_at_same none rest rest' w here h = refl
  delete_at_same (some pod) rest rest' w here h = then_same pod rest rest' w (here pod refl) h

  scale_down_same :
      (n : ℕ) (replicas : ℤ) (current : List (Pod (ResourceRequirements Q))) (w : W)
      → All Here current
      → scale_down kube tools cr n replicas current w
        ≡ OperatorPods.scale_down c (unblocked lib) n replicas current w
  unfolding scale_down OperatorPods.scale_down
  scale_down_same zero replicas current w here =
      choose_same (fits zero replicas) _ _ _ _ w refl refl
  scale_down_same (suc n) replicas current w here =
      choose_same (fits (suc n) replicas) _ _ _ _ w refl (
        delete_at_same (get_elem? current n) _ _ w (λ pod e. All-get_elem Here current n pod here e)
          (λ w1. scale_down_same n replicas (take n current) w1 (All-take Here n current here)))

  scale_up_same :
      (missing : ℕ) (wanted : Pod (ResourceRequirements Q))
      (current : List (Pod (ResourceRequirements Q))) (w : W)
      → scale_up kube tools cr missing wanted current w
        ≡ OperatorPods.scale_up c (unblocked lib) missing wanted current w
  unfolding scale_up OperatorPods.scale_up
  scale_up_same zero wanted current w = refl
  scale_up_same (suc missing) wanted current w =
      bind_same (kube.create_pod wanted) (c.create_pod wanted)
        (λ pod. scale_up kube tools cr missing wanted (current ++ pod ∷ []))
        (λ pod. OperatorPods.scale_up c (unblocked lib) missing wanted (current ++ pod ∷ [])) w
        (same.created wanted w) (λ pod w1 e. scale_up_same missing wanted (current ++ pod ∷ []) w1)

  scale_same :
      (replicas : ℤ) (wanted : Pod (ResourceRequirements Q))
      (current : List (Pod (ResourceRequirements Q))) (w : W)
      → All Here current
      → scale kube tools cr replicas wanted current w
        ≡ OperatorPods.scale c (unblocked lib) replicas wanted current w
  unfolding scale OperatorPods.scale
  scale_same replicas wanted current w here =
      bind_same (scale_down kube tools cr (length current) replicas current)
        (OperatorPods.scale_down c (unblocked lib) (length current) replicas current)
        (λ kept. scale_up kube tools cr (pos_part replicas - length kept) wanted kept >> pure tt)
        (λ kept.
          OperatorPods.scale_up c (unblocked lib) (pos_part replicas - length kept) wanted kept
          >> pure tt)
        w (scale_down_same (length current) replicas current w here)
        (λ kept w1 e.
          bind_same (scale_up kube tools cr (pos_part replicas - length kept) wanted kept)
            (OperatorPods.scale_up c (unblocked lib) (pos_part replicas - length kept) wanted kept)
            (λ x. pure tt) (λ x. pure tt) w1
            (scale_up_same (pos_part replicas - length kept) wanted kept w1) (λ x w2 f. refl))

  sweep-Here :
      (spec_hash : Bytes) (pods swept : List (Pod (ResourceRequirements Q))) (w w' : W)
      → All Here pods
      → OperatorPods.sweep c (unblocked lib) spec_hash pods w ≡ (ok swept, w')
      → All Here swept
  unfolding OperatorPods.sweep
  sweep-Here spec_hash [] swept w w' here e =
      let none_left : [] ≡ swept = cc in subst (All Here) none_left tt
  sweep-Here spec_hash (pod ∷ pods) swept w w' here e =
      let rest = OperatorPods.sweep c (unblocked lib) spec_hash pods in
      let deleted_first : (OperatorPods.delete c (unblocked lib) pod >> rest) w ≡ (ok swept, w')
          → All Here swept =
        λ run.
          let (x, w1, first, next) =
            bind_ok (OperatorPods.delete c (unblocked lib) pod) (λ y. rest) w w' swept run in
          sweep-Here spec_hash pods swept w1 w' here.1 next in
      choose_elim (All Here swept) (is_some pod.deletion_timestamp) _ _ w (ok swept, w')
        (λ run. sweep-Here spec_hash pods swept w w' here.1 run)
        (choose_elim (All Here swept) (has_ended pod.phase) _ _ w (ok swept, w') deleted_first
          (choose_elim (All Here swept)
            (not (bytes_eq (label OperatorResources.label_spec_hash pod.labels) spec_hash)) _ _ w
            (ok swept, w') deleted_first
            (λ run.
              let (current, w1, first, last) =
                bind_ok rest (λ current. pure (pod ∷ current)) w w' swept run in
              let kept : pod ∷ current ≡ swept = cc in
              subst (All Here) kept (here.0, sweep-Here spec_hash pods current w w1 here.1 first))))
        e

  -- On the same cluster, and for a resource that both read alike, the two controllers'
  -- `reconcilePods` do the same, but that the operator's new pods block the deletion of their owner:
  -- with a library that leaves this flag unset, the result and the world are the same, errors
  -- included.
  pub reconcile_pods_same :
      (spec_hash : Bytes) (w : W)
      → reconcile_pods kube tools cr spec spec_hash w
        ≡ OperatorPods.reconcile_pods c (unblocked lib) (entry_of cr spec) spec_hash w
  unfolding reconcile_pods OperatorPods.reconcile_pods
  reconcile_pods_same spec_hash w =
      let scaled : List (Pod (ResourceRequirements Q)) → Exec W (Unit {0}) = λ swept.
        scale kube tools cr spec.service.replicas (desired_pod tools cr spec spec_hash)
          (tools.sort_by_creation swept) in
      let scaled' : List (Pod (ResourceRequirements Q)) → Exec W (Unit {0}) = λ swept.
        OperatorPods.scale c (unblocked lib) spec.service.replicas
          (OperatorResources.desired_pod (unblocked lib) (entry_of cr spec) spec_hash)
          (lib.sort_by_creation swept) in
      bind_same (kube.list_pods cr.namespace (managed_selector cr.name))
        (c.list_pods cr.namespace (pod_selector cr.name))
        (λ pods. sweep kube tools cr spec_hash pods >>= scaled)
        (λ pods. OperatorPods.sweep c (unblocked lib) spec_hash pods >>= scaled') w
        (same.listed cr.namespace cr.name w)
        (λ pods w1 listed.
          let here = same.in_namespace cr.namespace cr.name w w1 pods listed in
          bind_same (sweep kube tools cr spec_hash pods)
            (OperatorPods.sweep c (unblocked lib) spec_hash pods) scaled scaled' w1
            (sweep_same spec_hash pods w1 here)
            (λ swept w2 e.
              let kept =
                same.sorted_within cr.namespace swept
                  (sweep-Here spec_hash pods swept w1 w2 here e) in
              rw (desired_pod_same spec_hash, same.sorted swept)
                (scale_same spec.service.replicas
                  (OperatorResources.desired_pod (unblocked lib) (entry_of cr spec) spec_hash)
                  (lib.sort_by_creation swept) w2 kept)))
