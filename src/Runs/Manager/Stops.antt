-- ===== src/Runs/Manager/Stops.antt =====
-- What the end of a wait makes of a run, and what a stop followed by its kill timer and by the wait
-- makes of it.
use agent_shell.Base.{
  ℤ, pos, negsuc, zero, suc, ◌∙◌, ◌&&◌, drop_id, text_eq, List, [], ◌∷◌, inl, inr, Text,
  text_eq_iff, contains, lookup, lookup-insert, ℕ, ◌≡◌, refl, ◌≢◌, Bool, false, some, arith,
  if◌then◌else◌, true, Bool-cases, ◌||◌, contains-add_id, contains-drop_id_self,
}
use agent_shell.Runs.Manager.{
  Manager, end_status, wait_end, ended_run, group_alive, stop, kill_after_grace, stopping_run,
  stopped_run, Effect, publish, forget, wait_saved,
}
use agent_shell.Runs.Manager.Ends.{IsForgotten, EndsAs, end_status-EndsAs}
use agent_shell.Runs.Run.{
  Run, is_active, active, not_known, RunStatus, stopped, killed, failed, completed,
}

-- The run `r` of the id has ended with the status of EndsAs, which is published, and is saved where the
-- save succeeds; the maps have forgotten the id in any case.
pub record IsEnded (m : Manager) (id : Text) (bad : Bool) (code : ℤ) (saved : Bool) (r : Run)
    (out : Manager × List Effect) : Type 0 where
  pub end : Run
  pub published : out.1 ≡ publish end ∷ []
  pub row : lookup id out.0.runs ≡ some (if saved then end else r)
  pub ends_as : EndsAs m id bad code end.status
  pub exit : end.exit_code ≡ some code
  pub idle : active end ≡ false
  pub unready : end.readiness ≡ not_known
  pub reason : end.stop_reason ≡ r.stop_reason
  pub forgotten_id : IsForgotten id out.0
  pub others : (x : Text) → x ≢ id → lookup x out.0.runs ≡ lookup x m.runs

end_status-idle : (a b c : Bool) (code : ℤ) → is_active (end_status a b c code) ≡ false
end_status-idle a b c code = ground arith

wait_saved-lookup :
    (m : Manager) (r : Run) (saved : Bool) (x : Text)
    → lookup x (wait_saved m r saved).0.runs
      ≡ (if text_eq r.id x && saved then some r else lookup x m.runs)
wait_saved-lookup m r true x = lookup-insert r.id x r m.runs ∙ ground arith
wait_saved-lookup m r false x = ground arith

wait_saved-IsForgotten :
    (m : Manager) (id : Text) (r : Run) (saved : Bool)
    → IsForgotten id (wait_saved (forget id m) r saved).0
wait_saved-IsForgotten m id r true = record {
  not_stopping = contains-drop_id_self id m.stopping_ids;
  not_killed = contains-drop_id_self id m.force_killed;
  no_cmd = contains-drop_id_self id m.cmds;
}
wait_saved-IsForgotten m id r false = record {
  not_stopping = contains-drop_id_self id m.stopping_ids;
  not_killed = contains-drop_id_self id m.force_killed;
  no_cmd = contains-drop_id_self id m.cmds;
}

wait_saved-publish :
    (m : Manager) (r : Run) (saved : Bool) → (wait_saved m r saved).1 ≡ publish r ∷ []
wait_saved-publish m r true = refl
wait_saved-publish m r false = refl

-- The end of a wait for a run of the table, whose row stands at its own id: what is published has one of the end statuses, by the
-- flags, the error of the wait and the exit code, and it has that exit code, no readiness and the stop
-- reason of the run. Where the save succeeds it is the row of the run; where it fails the row stays as
-- it was. In both cases the other rows are as they were, and the maps have forgotten the id.
pub wait_end-IsEnded :
    (m : Manager) (id : Text) (bad : Bool) (code : ℤ) (now : ℕ) (saved : Bool) (r : Run)
    → lookup id m.runs ≡ some r
    → r.id ≡ id
    → IsEnded m id bad code saved r (wait_end m id bad code now saved)
unfolding wait_end
wait_end-IsEnded m id bad code now saved r found same =
    let s = end_status (contains m.stopping_ids id) (contains m.force_killed id) bad code in
    let m' : Manager = record m { waiters = drop_id id m.waiters } in
    let end = ended_run s code now r in
    let row_of = wait_saved-lookup (forget id m') end saved in
    rw found (record {
      end = end;
      published = wait_saved-publish (forget id m') end saved;
      row = ground (arith, row_of id, text_eq_iff r.id id, found);
      ends_as = end_status-EndsAs m id bad code;
      exit = refl;
      idle = end_status-idle (contains m.stopping_ids id) (contains m.force_killed id) bad code;
      unready = refl;
      reason = refl;
      forgotten_id = wait_saved-IsForgotten m' id end saved;
      others = λ x ne. ground (arith, row_of x, text_eq_iff r.id x, same);
    })

-- The status after a stop that was sent to a live group, its kill timer and the end of the wait.
abbrev after_stop : Bool → RunStatus
after_stop forced = if forced then killed else stopped

-- The manager after `stop`, the kill timer that it armed, and the end of the wait. At the timer the
-- groups that live are `later`.
abbrev pub stop_and_wait :
    Manager
    → Text
    → Text
    → ℕ
    → (ℕ → Bool)
    → (ℕ → Bool)
    → ℕ
    → Bool
    → ℤ
    → Bool
    → Manager × List Effect
stop_and_wait m id reason pgid alive later now bad code saved =
    let m1 = (stop m id reason now alive true).0 in
    let m2 = (kill_after_grace m1 id pgid later).0 in wait_end m2 id bad code now saved

-- A run has ended with a status and a reason, and is saved so, or is as it was before where the save
-- fails; the maps have forgotten the id in any case.
pub record IsStopped (id reason : Text) (s : RunStatus) (saved : Bool) (before : Run)
    (out : Manager × List Effect) : Type 0 where
  pub end : Run
  pub published : out.1 ≡ publish end ∷ []
  pub row : lookup id out.0.runs ≡ some (if saved then end else before)
  pub status : end.status ≡ s
  pub reason_kept : end.stop_reason ≡ reason
  pub forgotten_id : IsForgotten id out.0

-- What a stop of a live group leaves in the manager.
record IsStopping (m : Manager) (reason id : Text) (r : Run) (m' : Manager) : Type 0 where
  pub saved : lookup id m'.runs ≡ some (stopping_run reason r)
  pub flagged : contains m'.stopping_ids id ≡ true
  pub forced : contains m'.force_killed id ≡ contains m.force_killed id

stop-IsStopping :
    (m : Manager) (id reason : Text) (now : ℕ) (alive : ℕ → Bool) (r : Run)
    → lookup id m.runs ≡ some r
    → r.id ≡ id
    → active r ≡ true
    → group_alive alive r.process_group_id ≡ true
    → IsStopping m reason id r (stop m id reason now alive true).0
unfolding stop
stop-IsStopping m id reason now alive r found same busy live =
    rw (found, busy, live)
      (record {
        saved =
            rw same (
              ground
                (arith, lookup-insert id id (stopping_run reason r) m.runs, text_eq_iff id id));
        flagged = ground (arith, contains-add_id id id m.stopping_ids, text_eq_iff id id);
        forced = refl;
      })

kill_after_grace_runs :
    (m : Manager) (id : Text) (pgid : ℕ) (later : ℕ → Bool)
    → ((kill_after_grace m id pgid later).0.runs ≡ m.runs)
      × ((kill_after_grace m id pgid later).0.stopping_ids ≡ m.stopping_ids)
      × (contains (kill_after_grace m id pgid later).0.force_killed id
          ≡ (group_alive later pgid || contains m.force_killed id))
unfolding kill_after_grace
kill_after_grace_runs m id pgid later = elim (Bool-cases (group_alive later pgid)) [
  | inl there ↦
      rw there (refl, refl, ground (arith, contains-add_id id id m.force_killed, text_eq_iff id id))
  | inr gone ↦ rw gone (refl, refl, refl)
]

-- A stop of an active run whose row stands at its own id and whose group is alive, where its save
-- succeeds, comes, whatever the wait and the exit code are, to the status killed where the group is
-- still there at the end of the grace, or where the timer of an earlier stop has killed it, and to
-- stopped where neither is so. The end is saved with the reason of the stop; if that save fails, the row
-- stays as the stop has left it, stopping, while the maps have forgotten the id.
pub stop-wait_end :
    (m : Manager) (id reason : Text) (alive later : ℕ → Bool) (now : ℕ) (bad : Bool) (code : ℤ)
    (saved : Bool) (r : Run)
    → lookup id m.runs ≡ some r
    → r.id ≡ id
    → active r ≡ true
    → group_alive alive r.process_group_id ≡ true
    → IsStopped id reason
        (after_stop (group_alive later r.process_group_id || contains m.force_killed id))
        saved
        (stopping_run reason r)
        (stop_and_wait m id reason r.process_group_id alive later now bad code saved)
stop-wait_end m id reason alive later now bad code saved r found same busy live =
    let m1 = (stop m id reason now alive true).0 in
    let m2 = (kill_after_grace m1 id r.process_group_id later).0 in
    let asked = stop-IsStopping m id reason now alive r found same busy live in
    let (same_runs, same_flags, forced) = kill_after_grace_runs m1 id r.process_group_id later in
    let ended =
      wait_end-IsEnded m2 id bad code now saved (stopping_run reason r) (rw same_runs asked.saved)
        same in
    record {
      end = ended.end;
      published = ended.published;
      row = ended.row;
      status = ground (
        arith, ended.ends_as.kills, ended.ends_as.stops, asked.flagged, asked.forced, same_flags,
        forced,
      );
      reason_kept = ended.reason;
      forgotten_id = ended.forgotten_id;
    }

-- What a stop of a group that is gone leaves in the manager.
stop-gone :
    (m : Manager) (id reason : Text) (now : ℕ) (alive : ℕ → Bool) (r : Run)
    → lookup id m.runs ≡ some r
    → r.id ≡ id
    → active r ≡ true
    → group_alive alive r.process_group_id ≡ false
    → (lookup id (stop m id reason now alive true).0.runs ≡ some (stopped_run reason now r))
      × (contains (stop m id reason now alive true).0.stopping_ids id ≡ false)
unfolding stop
stop-gone m id reason now alive r found same busy gone =
    rw (found, busy, gone)
      (
        rw same (
            ground
              (arith, lookup-insert id id (stopped_run reason now r) m.runs, text_eq_iff id id)),
        contains-drop_id_self id m.stopping_ids,
      )

-- The status by the wait and the exit code alone.
abbrev pub exit_status : Bool → ℤ → RunStatus
exit_status true code = failed
exit_status false (pos zero) = completed
exit_status false (pos (suc n)) = failed
exit_status false (negsuc n) = failed

lost_status :
    (m : Manager) (id : Text) (bad : Bool) (code : ℤ) (s : RunStatus)
    → contains m.stopping_ids id ≡ false
    → EndsAs m id bad code s
    → s ≡ exit_status bad code
lost_status m id true code s unflagged e = e.fails.1 (unflagged, inl refl)
lost_status m id false (pos zero) s unflagged e = e.completes.1 (unflagged, refl, refl)
lost_status m id false (pos (suc n)) s unflagged e = e.fails.1 (unflagged, inr (λ k. cc))
lost_status m id false (negsuc n) s unflagged e = e.fails.1 (unflagged, inr (λ k. cc))

-- An active run whose row stands at its own id, whose group is gone when it is stopped, where that stop
-- is saved, and whose wait ends after that, is published as failed where the wait or the exit code says
-- so and as completed where not, never as stopped; and it is saved so where that save succeeds, so that
-- it keeps the status stopped only where that save fails.
pub stop-wait_end_lost :
    (m : Manager) (id reason : Text) (alive : ℕ → Bool) (now later : ℕ) (bad : Bool) (code : ℤ)
    (saved : Bool) (r : Run)
    → lookup id m.runs ≡ some r
    → r.id ≡ id
    → active r ≡ true
    → group_alive alive r.process_group_id ≡ false
    → IsStopped id reason
        (exit_status bad code)
        saved
        (stopped_run reason now r)
        (wait_end (stop m id reason now alive true).0 id bad code later saved)
stop-wait_end_lost m id reason alive now later bad code saved r found same busy gone =
    let m1 = (stop m id reason now alive true).0 in
    let (row, unflagged) = stop-gone m id reason now alive r found same busy gone in
    let ended = wait_end-IsEnded m1 id bad code later saved (stopped_run reason now r) row same in
    record {
      end = ended.end;
      published = ended.published;
      row = ended.row;
      status = lost_status m1 id bad code ended.end.status unflagged ended.ends_as;
      reason_kept = ended.reason;
      forgotten_id = ended.forgotten_id;
    }
