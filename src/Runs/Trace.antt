-- ===== src/Runs/Trace.antt =====
-- The operations of Manager in internal/runtime/manager.go as steps, in any order: Start, in one or in
-- two parts, stop, the kill timer of stop, the end of wait, the two column updates, and the save that
-- Restart makes of the run that Start has returned. Each save may fail.
pub mod Sound
pub mod Invariant
pub mod Launch
pub mod Waited
pub mod Kept
pub mod Changes
pub mod Life
use agent_shell.Base.{
  ℤ, Text, contains, lookup, ℕ, ◌≡◌, Bool, true, false, none, some, ◌∷◌, List, [],
}
use agent_shell.Runs.Manager.{
  Manager, save_run, stop, kill_after_grace, wait_end, update_run_observation,
  update_run_port_verifications,
}
use agent_shell.Runs.Run.{Run, starting, Readiness, ExpectedPort, PortVerification}
use agent_shell.Runs.Start.{StartSpec, Os, new_run, launch, start_run}

abbrev pub no_manager : Manager
no_manager = record { runs = []; stopping_ids = []; force_killed = []; cmds = []; waiters = [] }

-- The manager, and the ids of the runs whose row is no longer what the Runtime knows: a stale copy was
-- saved over it, or the save at the end of its wait has failed.
pub record Traced : Type 0 where
  pub manager : Manager
  pub stale : List Text

-- A new run has an id that no run has; a wait ends only for a process that is waited for. Between the
-- two parts of a Start the row can change: `goes_on_late` is its second part with any copy of the run,
-- and `resaves` the save of Restart with any copy.
pub data Step (t : Traced) : Traced → Type 0 where
  starts :
      (os : Os) (spec : StartSpec)
      → lookup os.new_id t.manager.runs ≡ none
      → Step t (record t { manager = (start_run t.manager os spec).manager })
  begins :
      (os : Os) (spec : StartSpec) (cwd : Text)
      → lookup os.new_id t.manager.runs ≡ none
      → Step t (record t { manager = save_run (new_run os spec cwd) t.manager })
  goes_on :
      (os : Os) (r : Run)
      → lookup r.id t.manager.runs ≡ some r
      → r.status ≡ starting
      → Step t (record t { manager = (launch os r t.manager).manager })
  goes_on_late :
      (os : Os) (r : Run)
      → Step t (record { manager = (launch os r t.manager).manager; stale = r.id ∷ t.stale })
  stops :
      (id reason : Text) (now : ℕ) (alive : ℕ → Bool) (saved : Bool)
      → Step t (record t { manager = (stop t.manager id reason now alive saved).0 })
  times_out :
      (id : Text) (pgid : ℕ) (alive : ℕ → Bool)
      → Step t (record t { manager = (kill_after_grace t.manager id pgid alive).0 })
  ends :
      (id : Text) (bad : Bool) (code : ℤ) (now : ℕ)
      → contains t.manager.waiters id ≡ true
      → Step t (record t { manager = (wait_end t.manager id bad code now true).0 })
  ends_unsaved :
      (id : Text) (bad : Bool) (code : ℤ) (now : ℕ)
      → Step t
          (record { manager = (wait_end t.manager id bad code now false).0; stale = id ∷ t.stale })
  resaves : (r : Run) → Step t (record { manager = save_run r t.manager; stale = r.id ∷ t.stale })
  observes :
      (id : Text) (readiness : Readiness)
      → Step t (record t { manager = update_run_observation t.manager id readiness })
  verifies :
      (id : Text) (expected : List ExpectedPort) (vs : List PortVerification)
      → Step t (record t { manager = update_run_port_verifications t.manager id expected vs })

abbrev pub at_first : Traced
at_first = record { manager = no_manager; stale = [] }

-- What a Runtime with an empty database comes to.
pub data Reach : Traced → Type 0 where
  empty : Reach at_first
  step : (t t' : Traced) → Reach t → Step t t' → Reach t'
