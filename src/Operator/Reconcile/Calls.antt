-- ===== src/Operator/Reconcile/Calls.antt =====
-- The calls of a whole `Reconcile`, on each of its three branches.
use mathlib.Core.List.{append_assoc, append-nil}
use cloud_native_entry_task.Prelude.{
  subst, ℕ, ◌≡◌, sym, ap, ◌∙◌, inl, inr, true, false, List, [], ◌∷◌, ◌++◌, Bytes, if◌then◌else◌,
  arith, Bool-cases,
}
use cloud_native_entry_task.Prelude.Int.{pos}
use cloud_native_entry_task.GoLib.Errors.{Result, ok}
use cloud_native_entry_task.GoLib.Exec.{Exec, pure, lift, bind_ok}
use cloud_native_entry_task.Operator.Types.{DbcpEntryService, Pod}
use cloud_native_entry_task.Operator.Client.{Key, Client, Library}
use cloud_native_entry_task.Operator.Client.Logged.{
  Call, update, delete_pod, delete_service, delete_config_map, put_config_map, put_service,
  record_call, silently, logged,
}
use cloud_native_entry_task.Operator.Resources.{pod_selector, config_map_name, calculate_spec_hash}
use cloud_native_entry_task.Operator.Pods.{is_some, reconcile_pods}
use cloud_native_entry_task.Operator.Pods.Plan.{deletes, plan}
use cloud_native_entry_task.Operator.Pods.Calls.{delete_then, reconcile_pods_calls}
use cloud_native_entry_task.Operator.Reconcile.{
  has_finalizer, remove_finalizer, add_finalizer, done, requeue_after_sync, Outcome, tolerant,
  delete_all, cleanup_owned_resources, ensure_config_map, ensure_service, finalize, claim, converge,
  reconcile_entry, reconcile,
}

module _ {W R : Type 0} (c : Client W R) (lib : Library R) where
  -- The pods that the API server lists for an entry in a world.
  abbrev pub Listed : DbcpEntryService R → List (Pod R) → W → Type 0
  Listed entry pods w = (c.list_pods entry.namespace (pod_selector entry.name) w).0 ≡ ok pods

  -- The world once the config map and the service are written.
  abbrev pub written : DbcpEntryService R → W → W
  written entry w = (ensure_service c lib entry (ensure_config_map c lib entry w).1).1

  delete_all_ok :
      (pods : List (Pod R)) (s s' : W × List (Call R))
      → delete_all (logged c) lib pods s ≡ (ok tt, s')
      → s'.1 ≡ s.1 ++ deletes pods
  unfolding delete_all
  delete_all_ok [] s s' h = ground (arith, append-nil s.1)
  delete_all_ok (pod ∷ pods) s s' h =
      let (s1, logs, rest) = delete_then c lib pod (delete_all (logged c) lib pods) tt s s' h in
      delete_all_ok pods s1 s' rest ∙ rw logs (append_assoc s.1 (delete_pod pod ∷ []) _)

  -- A tolerant call is made once, whatever it answers.
  tolerant_logs :
      (call : Call R) (m : Exec W (Unit {0})) (s s' : W × List (Call R)) (r : Result (Unit {0}))
      → tolerant (logged c) lib (record_call call m) s ≡ (r, s')
      → s'.1 ≡ s.1 ++ call ∷ []
  unfolding tolerant
  tolerant_logs call m s s' r h = ground arith

  list_ok :
      (entry : DbcpEntryService R) (pods : List (Pod R)) (s s' : W × List (Call R))
      → silently (c.list_pods entry.namespace (pod_selector entry.name)) s ≡ (ok pods, s')
      → Listed entry pods s.0 × (s'.1 ≡ s.1)
  list_ok entry pods s s' h = (ap (λ q. q.0) h, ap (λ q. q.1.1) (sym h))

  cleanup_ok :
      (entry : DbcpEntryService R) (s s' : W × List (Call R))
      → cleanup_owned_resources (logged c) lib entry s ≡ (ok tt, s')
      → (pods : List (Pod R)) × Listed entry pods s.0
        × (s'.1
            ≡ s.1
              ++ (deletes pods
                  ++ delete_service (entry.namespace, entry.name)
                    ∷ delete_config_map (entry.namespace, config_map_name entry.name)
                    ∷ []))
  unfolding cleanup_owned_resources
  cleanup_ok entry s s' h =
      let (pods, s1, listed, h1) =
        bind_ok (silently (c.list_pods entry.namespace (pod_selector entry.name))) _ s s' tt h in
      let (is_listed, same) = list_ok entry pods s s1 listed in
      let (_, s2, deleted, h2) = bind_ok (delete_all (logged c) lib pods) _ s1 s' tt h1 in
      let calls2 = delete_all_ok pods s1 s2 deleted in
      let service : Key = (entry.namespace, entry.name) in
      let config_map : Key = (entry.namespace, config_map_name entry.name) in
      let (_, s3, gone, h3) =
        bind_ok
          (tolerant (logged c) lib
            (record_call (delete_service service) (c.delete_service service)))
          _ s2 s' tt h2 in
      let calls3 = tolerant_logs (delete_service service) (c.delete_service service) s2 s3 _ gone in
      let calls4 =
        tolerant_logs (delete_config_map config_map) (c.delete_config_map config_map) s3 s' _ h3 in
      (pods, is_listed, calls4 ∙ rw (calls3, calls2, same) (simp append_assoc))

  -- What a deleted entry's last update removes, where the finalizer is still there.
  abbrev pub release : DbcpEntryService R → List (Call R)
  release entry = if has_finalizer entry then update (remove_finalizer entry) ∷ [] else []

  released :
      (entry : DbcpEntryService R) (s s' : W × List (Call R)) (r : Result (Unit {0}))
      → (if has_finalizer entry then (logged c).update (remove_finalizer entry) else pure tt) s
        ≡ (r, s')
      → s'.1 ≡ s.1 ++ release entry
  released entry s s' r h = elim (Bool-cases (has_finalizer entry)) [
    | inl e ↦ rw e (ap (λ q. q.1.1) (sym (rw e at h)))
    | inr e ↦ rw (e, append-nil s.1) (ap (λ q. q.1.1) (sym (rw e at h)))
  ]

  finalize_ok :
      (entry : DbcpEntryService R) (s s' : W × List (Call R)) (o : Outcome)
      → finalize (logged c) lib entry s ≡ (ok o, s')
      → (pods : List (Pod R)) × Listed entry pods s.0
        × (s'.1
            ≡ s.1
              ++ (deletes pods
                  ++ (delete_service (entry.namespace, entry.name)
                      ∷ delete_config_map (entry.namespace, config_map_name entry.name)
                      ∷ release entry)))
  unfolding finalize
  finalize_ok entry s s' o h =
      let (_, s1, cleaned, h1) =
        bind_ok (cleanup_owned_resources (logged c) lib entry) _ s s' o h in
      let (pods, listed, calls) = cleanup_ok entry s s1 cleaned in
      let (_, s2, updated, h2) =
        bind_ok
          (if has_finalizer entry then (logged c).update (remove_finalizer entry) else pure tt)
          (λ _. pure done) s1 s' o h1 in
      (
        pods,
        listed,
        ap (λ q. q.1.1) (sym h2) ∙ released entry s1 s2 _ updated ∙ rw calls (simp append_assoc),
      )

  converge_ok :
      (entry : DbcpEntryService R) (replicas : ℕ) (s s' : W × List (Call R)) (o : Outcome)
      → entry.spec.service.replicas ≡ pos replicas
      → converge (logged c) lib entry s ≡ (ok o, s')
      → (spec_hash : Bytes) × (pods : List (Pod R)) × (calculate_spec_hash lib entry ≡ ok spec_hash)
        × Listed entry pods (written entry s.0)
        × (s'.1
            ≡ s.1
              ++ put_config_map (entry.namespace, config_map_name entry.name)
                ∷ put_service (entry.namespace, entry.name)
                ∷ plan lib entry spec_hash replicas pods)
        × (o ≡ requeue_after_sync)
  unfolding converge ensure_config_map ensure_service
  converge_ok entry replicas s s' o wanted h =
      let (spec_hash, s0, hashed, h0) = bind_ok (lift (calculate_spec_hash lib entry)) _ s s' o h in
      let (_, s1, mapped, h1) = bind_ok (ensure_config_map (logged c) lib entry) _ s0 s' o h0 in
      let (_, s2, served, h2) = bind_ok (ensure_service (logged c) lib entry) _ s1 s' o h1 in
      let (_, s3, podded, h3) =
        bind_ok (reconcile_pods (logged c) lib entry spec_hash) (λ _. pure requeue_after_sync) s2 s'
          o h2 in
      let (pods, listed, calls) =
        reconcile_pods_calls c lib entry spec_hash replicas s2 s3 wanted podded in
      let world : s2.0 ≡ written entry s.0 =
        ap (λ q. q.1.0) (sym served)
        ∙ ap (λ v. (ensure_service c lib entry v).1)
            (ap (λ q. q.1.0) (sym mapped)
              ∙ ap (λ v. (ensure_config_map c lib entry v).1) (ap (λ q. q.1.0) (sym hashed))) in
      let calls1 : s1.1 ≡ s.1 ++ put_config_map (entry.namespace, config_map_name entry.name) ∷ [] =
        ap (λ q. q.1.1) (sym mapped)
        ∙ ap (λ q. q.1.1 ++ put_config_map (entry.namespace, config_map_name entry.name) ∷ [])
            (sym hashed) in
      let calls2 : s2.1 ≡ s1.1 ++ put_service (entry.namespace, entry.name) ∷ [] =
        ap (λ q. q.1.1) (sym served) in
      (
        spec_hash,
        pods,
        ap (λ q. q.0) hashed,
        subst (Listed entry pods) world listed,
        ap (λ q. q.1.1) (sym h3) ∙ calls ∙ rw (calls2, calls1) (simp append_assoc),
        ground (arith, ap (λ q. q.0) h3),
      )

  module _ (key : Key) (entry : DbcpEntryService R) (w : W) (log : List (Call R))
      (s' : W × List (Call R)) (o : Outcome) (got : (c.get key w).0 ≡ ok entry)
      (h : reconcile (logged c) lib key (w, log) ≡ (ok o, s')) where
    entered : reconcile_entry (logged c) lib entry ((c.get key w).1, log) ≡ (ok o, s')
    unfolding reconcile
    entered = rw (got, reconcile) at h

    -- Reconciling an entry that is being deleted, when it succeeds, has asked to delete every pod
    -- that the API server lists for it at the start, then the service and the config map, and only then, if the
    -- finalizer was there, has updated the entry without it.
    pub reconcile_deleted :
        is_some entry.deletion_timestamp ≡ true
        → (pods : List (Pod R)) × Listed entry pods (c.get key w).1
          × (s'.1
              ≡ log
                ++ (deletes pods
                    ++ (delete_service (entry.namespace, entry.name)
                        ∷ delete_config_map (entry.namespace, config_map_name entry.name)
                        ∷ release entry)))
    unfolding reconcile_entry
    reconcile_deleted deleted = finalize_ok entry _ s' o (rw (deleted, reconcile_entry) at entered)

    -- Reconciling an entry that is not being deleted and lacks the finalizer, when it succeeds, has
    -- added the finalizer and done nothing else, and asks for no second look.
    pub reconcile_unclaimed :
        is_some entry.deletion_timestamp ≡ false
        → has_finalizer entry ≡ false
        → (s'.1 ≡ log ++ update (add_finalizer entry) ∷ []) × (o ≡ done)
    unfolding reconcile_entry claim
    reconcile_unclaimed live unclaimed =
        let e = rw (live, unclaimed, reconcile_entry) at entered in
        let (_, s1, updated, h1) =
          bind_ok ((logged c).update (add_finalizer entry)) (λ _. pure done) ((c.get key w).1, log)
            s' o e in
        (ap (λ q. q.1.1) (sym h1) ∙ ap (λ q. q.1.1) (sym updated), ground (arith, ap (λ q. q.0) h1))

    -- Reconciling an entry that is not being deleted, has the finalizer and wants a number of
    -- replicas that is not negative, when it succeeds, has written the config map and the service,
    -- then made the calls of the plan for the pods that the API server lists for it then, under the
    -- hash of its spec, and asks for a look after the sync interval.
    pub reconcile_converges :
        (replicas : ℕ)
        → is_some entry.deletion_timestamp ≡ false
        → has_finalizer entry ≡ true
        → entry.spec.service.replicas ≡ pos replicas
        → (spec_hash : Bytes) × (pods : List (Pod R)) × (calculate_spec_hash lib entry
            ≡ ok spec_hash)
          × Listed entry pods (written entry (c.get key w).1)
          × (s'.1
              ≡ log
                ++ put_config_map (entry.namespace, config_map_name entry.name)
                  ∷ put_service (entry.namespace, entry.name)
                  ∷ plan lib entry spec_hash replicas pods)
          × (o ≡ requeue_after_sync)
    unfolding reconcile_entry
    reconcile_converges replicas live claimed wanted =
        converge_ok entry replicas _ s' o wanted (rw (live, claimed, reconcile_entry) at entered)
