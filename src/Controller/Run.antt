-- ===== src/Controller/Run.antt =====
-- cloud_native_entry_task/controllers/internal/controller/controller.go, `Run`: pass after pass.
pub mod Isolation
mod Tests
use cloud_native_entry_task.Prelude.{List, [], ◌∷◌, Bytes}
use cloud_native_entry_task.Prelude.Int.{ℤ}
use cloud_native_entry_task.GoLib.Exec.{Exec, pure, try, ◌>>=◌, ◌>>◌}
use cloud_native_entry_task.Controller.Client.{ObjectReader, ResourceRequirements, Tools, Kube}
use cloud_native_entry_task.Controller.Reconcile.{resync_of, logged, reconcile_all}

-- What `New` is given beside the clients, and what it keeps of it.
pub record Settings : Type 0 where
  pub namespace : Bytes
  pub resync : ℤ

unfoldable pub new_controller : Settings → Settings
new_controller opts = record { namespace = opts.namespace; resync = resync_of opts.resync }

-- What the select of the loop finds after a pass: the context has ended, or the ticker has ticked.
pub data Event : Type 0 where
  context_done tick : Event

-- How far the loop has come with some events: it has returned `ctx.Err()`, or it waits for more.
pub data LoopState : Type 0 where
  context_error waiting : LoopState

module _ {W O Q : Type 0} (kube : Kube W O (ResourceRequirements Q)) (reader : ObjectReader O Q)
    (tools : Tools (ResourceRequirements Q)) where
  -- An error of a pass is only logged.
  abbrev pub run_pass : Exec W (Unit {0})
  run_pass = try (reconcile_all kube reader tools) (logged kube reader tools) pure

  pub run : List Event → Exec W LoopState
  run [] = run_pass >> pure waiting
  run (tick ∷ events) = run_pass >> run events
  run (context_done ∷ events) = run_pass >> pure context_error
