-- ===== src/Controller/Run/Isolation.antt =====
-- No resource that fails keeps the others, or the next pass, from being reconciled.
use cloud_native_entry_task.Prelude.{◌≡◌, refl, inl, inr, false, List, [], ◌∷◌}
use cloud_native_entry_task.GoLib.Errors.{Result, ok, err, Result-cases}
use cloud_native_entry_task.GoLib.Exec.{pure, try, ◌>>=◌}
use cloud_native_entry_task.Controller.Client.{
  Unstructured, ObjectReader, ResourceRequirements, Tools, Kube,
}
use cloud_native_entry_task.Controller.Reconcile.{
  is_panic, logged, reconcile_cr, reconcile_each, reconcile_all,
}
use cloud_native_entry_task.Controller.Run.{
  Event, context_done, tick, LoopState, context_error, waiting, run_pass, run,
}

-- A result that does not end the program.
abbrev pub NoPanic : {A : Type 0} → Result A → Type 0
NoPanic (ok a) = Unit
NoPanic (err e) = is_panic e ≡ false

module _ {W O Q : Type 0} (kube : Kube W O (ResourceRequirements Q)) (reader : ObjectReader O Q)
    (tools : Tools (ResourceRequirements Q)) where
  -- The world after every one of some resources was reconciled, in order.
  unfoldable pub after_each : List (Unstructured O) → W → W
  after_each [] w = w
  after_each (cr ∷ crs) w = after_each crs (reconcile_cr kube reader tools cr w).1

  unfoldable pub after_listed : Result (List (Unstructured O)) → W → W
  after_listed (ok crs) w = after_each crs w
  after_listed (err e) w = w

  -- The world after a pass over all the resources that there are, and after the passes up to the end.
  unfoldable pub after_pass : W → W
  unfolding after_listed
  after_pass w = after_listed (kube.list_resources w).0 (kube.list_resources w).1

  unfoldable pub after_run : List Event → W → W
  after_run [] w = after_pass w
  after_run (tick ∷ events) w = after_run events (after_pass w)
  after_run (context_done ∷ events) w = after_pass w

  unfoldable pub state_of : List Event → LoopState
  state_of [] = waiting
  state_of (tick ∷ events) = state_of events
  state_of (context_done ∷ events) = context_error

  -- None of some resources, reconciled one after the other, ends the program.
  abbrev pub EachCalm : List (Unstructured O) → W → Type 0
  EachCalm [] w = Unit
  EachCalm (cr ∷ crs) w =
      NoPanic (reconcile_cr kube reader tools cr w).0
      × EachCalm crs (reconcile_cr kube reader tools cr w).1

  abbrev pub ListedCalm : Result (List (Unstructured O)) → W → Type 0
  ListedCalm (ok crs) w = EachCalm crs w
  ListedCalm (err e) w = is_panic e ≡ false

  abbrev pub PassCalm : W → Type 0
  PassCalm w = ListedCalm (kube.list_resources w).0 (kube.list_resources w).1

  -- No pass up to the end ends the program, each in the world that the one before it leaves.
  abbrev pub RunCalm : List Event → W → Type 0
  RunCalm [] w = PassCalm w
  RunCalm (tick ∷ events) w = PassCalm w × RunCalm events (after_pass w)
  RunCalm (context_done ∷ events) w = PassCalm w

  one_logged :
      (cr : Unstructured O) (w : W)
      → NoPanic (reconcile_cr kube reader tools cr w).0
      → try (reconcile_cr kube reader tools cr) (logged kube reader tools) pure w
        ≡ (ok tt, (reconcile_cr kube reader tools cr w).1)
  one_logged cr w calm = elim (Result-cases (reconcile_cr kube reader tools cr w).0) [
    | inl (a, e) ↦ rw (e, try) refl
    | inr (x, e) ↦ let harmless : is_panic x ≡ false = rw e at calm in rw (e, try, harmless) refl
  ]

  each_reconciled :
      (crs : List (Unstructured O)) (w : W)
      → EachCalm crs w
      → reconcile_each kube reader tools crs w ≡ (ok tt, after_each crs w)
  unfolding reconcile_each after_each
  each_reconciled [] w calm = refl
  each_reconciled (cr ∷ crs) w (calm, rest) =
      rw (one_logged cr w calm, ◌>>=◌)
        (each_reconciled crs (reconcile_cr kube reader tools cr w).1 rest)

  pass_reconciled : (w : W) → PassCalm w → run_pass kube reader tools w ≡ (ok tt, after_pass w)
  unfolding reconcile_all after_pass
  pass_reconciled w calm = elim (Result-cases (kube.list_resources w).0) [
    | inl (crs, e) ↦
        let each : EachCalm crs (kube.list_resources w).1 = rw e at calm in
        rw (e, try, ◌>>=◌, each_reconciled crs (kube.list_resources w).1 each, after_listed) refl
    | inr (x, e) ↦
        let harmless : is_panic x ≡ false = rw e at calm in
        rw (e, try, ◌>>=◌, harmless, after_listed) refl
  ]

  -- If no pass that is made ends the program, the loop has, up to any event, made a pass for the start
  -- and one for every tick before the context ended; each pass has reconciled all listed resources
  -- in order, whatever other errors there were; and it returns exactly when the context has ended.
  pub run_passes :
      (events : List Event) (w : W)
      → RunCalm events w
      → run kube reader tools events w ≡ (ok (state_of events), after_run events w)
  unfolding run state_of after_run
  run_passes [] w calm = rw (pass_reconciled w calm, ◌>>=◌) refl
  run_passes (tick ∷ events) w (calm, rest) =
      rw (pass_reconciled w calm, ◌>>=◌) (run_passes events (after_pass w) rest)
  run_passes (context_done ∷ events) w calm = rw (pass_reconciled w calm, ◌>>=◌) refl
