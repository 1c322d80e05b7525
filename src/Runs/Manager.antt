-- ===== src/Runs/Manager.antt =====
-- The lifecycle operations of Manager in internal/runtime/manager.go (Start, wait, stop and its kill
-- timer, reconcile) and of internal/store/store.go what they save: SaveRun, UpdateRunObservation,
-- UpdateRunPortVerifications. Each operation is one critical section under `mu`; what the operating
-- system and the database answer is an argument.
pub mod Flags
pub mod Ends
pub mod Stops
pub mod Offline
use agent_shell.Base.{
  add_id, drop_id, ltb, if◌then◌else◌, ℤ, pos, negsuc, keep, Text, lit, text_eq, contains, lookup,
  insert, Result, ok, err, ℕ, zero, suc, Bool, true, false, not, ◌&&◌, ◌||◌, Option, none, some,
  List, [], ◌∷◌, ◌++◌, take,
}
use agent_shell.Runs.Run.{
  RunStatus, Readiness, ExpectedPort, PortVerification, Run, active, stopping, completed, failed,
  stopped, killed, unknown, not_known,
}

-- The table of runs, in the order of creation, and the maps of Manager. `waiters` stands for the
-- goroutines that run `wait`, one for each process that was started.
pub record Manager : Type 0 where
  pub runs : List (Text × Run)
  pub stopping_ids : List Text
  pub force_killed : List Text
  pub cmds : List Text
  pub waiters : List Text

-- What an operation does outside: events on the bus, signals, and goroutines.
pub data Effect : Type 0 where
  publish : Run → Effect
  sigterm sigkill : ℕ → Effect
  arm_kill : Text → ℕ → Effect

pub data RunError : Type 0 where
  not_found save_failed : RunError
  command_required cwd_error shell_error dir_error log_error spawn_error : RunError
  port_in_use : ℕ → RunError

abbrev pub save_run : Run → Manager → Manager
save_run r m = record m { runs = insert r.id r m.runs }

-- `delete(m.stopping, id); delete(m.forceKilled, id); delete(m.cmds, id)`
abbrev pub forget : Text → Manager → Manager
forget id m = record m {
  stopping_ids = drop_id id m.stopping_ids;
  force_killed = drop_id id m.force_killed;
  cmds = drop_id id m.cmds;
}

abbrev pub Outcome : Type 0
Outcome = Manager × List Effect × Result RunError Run

-- `groupAlive`: the first conjunct of the source is `pgid > 0`.
abbrev pub group_alive : (ℕ → Bool) → ℕ → Bool
group_alive alive pgid = ltb 0 pgid && alive pgid

abbrev pub stopped_run : Text → ℕ → Run → Run
stopped_run reason now r = record r {
  status = stopped;
  readiness = not_known;
  stop_reason = reason;
  ended_at = some now;
}

abbrev pub stopping_run : Text → Run → Run
stopping_run reason r = record r { status = stopping; stop_reason = reason }

abbrev pub stop_dead : Manager → Text → Run → Bool → Outcome
stop_dead m id r true = (forget id (save_run r m), publish r ∷ [], ok r)
stop_dead m id r false = (m, [], err save_failed)

abbrev pub stop_live : Manager → Text → Run → Bool → Outcome
stop_live m id r true = (
  save_run r (record m { stopping_ids = add_id id m.stopping_ids }),
  publish r ∷ sigterm r.process_group_id ∷ arm_kill id r.process_group_id ∷ [],
  ok r,
)
stop_live m id r false =
    (record m { stopping_ids = drop_id id m.stopping_ids }, [], err save_failed)

abbrev pub stop_found : Manager → Text → Text → ℕ → (ℕ → Bool) → Bool → Option Run → Outcome
stop_found m id reason now alive saved none = (m, [], err not_found)
stop_found m id reason now alive saved (some r) =
    if not (active r)
    then (m, [], ok r)
    else if not (group_alive alive r.process_group_id)
    then stop_dead m id (stopped_run reason now r) saved
    else stop_live m id (stopping_run reason r) saved

-- `saved` is whether SaveRun succeeds.
unfoldable pub stop : Manager → Text → Text → ℕ → (ℕ → Bool) → Bool → Outcome
unfolding lookup
stop m id reason now alive saved = stop_found m id reason now alive saved (lookup id m.runs)

-- The goroutine of `stop` when StopGrace is over.
unfoldable pub kill_after_grace : Manager → Text → ℕ → (ℕ → Bool) → Manager × List Effect
kill_after_grace m id pgid alive =
    if group_alive alive pgid
    then (record m { force_killed = add_id id m.force_killed }, sigkill pgid ∷ [])
    else (m, [])

abbrev pub nonzero : ℤ → Bool
nonzero (pos zero) = false
nonzero (pos (suc n)) = true
nonzero (negsuc n) = true

-- The status of a run whose process group is gone.
abbrev pub end_status : Bool → Bool → Bool → ℤ → RunStatus
end_status stop_asked forced wait_failed code =
    if stop_asked
    then (if forced then killed else stopped)
    else if wait_failed || nonzero code
    then failed
    else completed

abbrev pub ended_run : RunStatus → ℤ → ℕ → Run → Run
ended_run s code now r = record r {
  status = s;
  exit_code = some code;
  ended_at = some now;
  readiness = not_known;
}

-- What the end of `wait` leaves; the error of SaveRun is ignored.
abbrev pub wait_saved : Manager → Run → Bool → Manager × List Effect
wait_saved m r true = (save_run r m, publish r ∷ [])
wait_saved m r false = (m, publish r ∷ [])

abbrev pub wait_found : Manager → Text → Bool → ℤ → ℕ → Bool → Option Run → Manager × List Effect
wait_found m id wait_failed code now saved none = (forget id m, [])
wait_found m id wait_failed code now saved (some r) =
    let s = end_status (contains m.stopping_ids id) (contains m.force_killed id) wait_failed code in
    wait_saved (forget id m) (ended_run s code now r) saved

-- The end of `wait`, once the process and its group are gone. `wait_failed` is whether cmd.Wait
-- returned an error, and `saved` whether SaveRun succeeds.
unfoldable pub wait_end : Manager → Text → Bool → ℤ → ℕ → Bool → Manager × List Effect
unfolding lookup
wait_end m id wait_failed code now saved =
    wait_found (record m { waiters = drop_id id m.waiters }) id wait_failed code now saved
      (lookup id m.runs)

-- UpdateRunObservation and UpdateRunPortVerifications: an UPDATE of some columns where the row is
-- there. The first also writes telemetry.
abbrev pub update_run : Text → (Run → Run) → List (Text × Run) → List (Text × Run)
update_run id f [] = []
update_run id f ((k, r) ∷ runs) =
    if text_eq k id then (k, f r) ∷ runs else (k, r) ∷ update_run id f runs

unfoldable pub update_run_observation : Manager → Text → Readiness → Manager
update_run_observation m id readiness = record m {
  runs = update_run id (λ r. record r { readiness = readiness }) m.runs;
}

unfoldable pub update_run_port_verifications :
    Manager → Text → List ExpectedPort → List PortVerification → Manager
update_run_port_verifications m id expected verifications = record m {
  runs =
      update_run id
        (λ r. record r {
          expected_ports = expected;
          port_verifications = verifications;
          readiness = not_known;
        })
        m.runs;
}

-- The reconciliation of one run at the start of the Runtime; `alive` is platform.Alive.
abbrev pub unsupervised : Bool → ℕ → Run → Run
unsupervised true now r = record r {
  status = unknown;
  stop_reason = lit "Runtime restarted; process is not supervised";
  readiness = not_known;
}
unsupervised false now r = record r {
  status = failed;
  stop_reason = lit "process disappeared while the Runtime was offline";
  ended_at = some now;
  readiness = not_known;
}

-- `saved` is whether SaveRun succeeds for the run; its error is ignored.
abbrev pub reconcile_one : (Run → Bool) → (Run → Bool) → ℕ → Run → Manager → Manager
reconcile_one alive saved now r m =
    if not (active r) then m else if saved r then save_run (unsupervised (alive r) now r) m else m

unfoldable pub reconcile_each : (Run → Bool) → (Run → Bool) → ℕ → List Run → Manager → Manager
reconcile_each alive saved now [] m = m
reconcile_each alive saved now (r ∷ rs) m =
    reconcile_each alive saved now rs (reconcile_one alive saved now r m)

-- The rows of a table, the newest first.
abbrev pub newest_first : List (Text × Run) → List Run
newest_first [] = []
newest_first ((id, r) ∷ runs) = newest_first runs ++ r ∷ []

-- `Runs(ctx, 1000)`
abbrev pub listed_runs : Manager → List Run
listed_runs m = take 1000 (newest_first m.runs)

-- `answered` is whether the query succeeds.
unfoldable pub reconcile : (Run → Bool) → (Run → Bool) → ℕ → Bool → Manager → Manager
unfolding reconcile_each
reconcile alive saved now answered m =
    if answered then reconcile_each alive saved now (listed_runs m) m else m
