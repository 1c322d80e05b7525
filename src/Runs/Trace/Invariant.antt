-- ===== src/Runs/Trace/Invariant.antt =====
-- Every step keeps the invariant, so it holds wherever the manager comes to.
use agent_shell.Base.{
  Bool-cases, Option-cases, ℤ, Text, text_eq, contains, lookup, ℕ, ◌≡◌, inl, inr, Bool, true, false,
  arith, text_eq_iff, refl, subst, none, List, ◌∷◌, add_id, add_id, drop_id, contains-drop_id,
  contains-drop_id_other, contains-add_id_other,
}
use agent_shell.Runs.Manager.{
  Manager, group_alive, stop, kill_after_grace, wait_end, stopped_run, stopping_run, end_status,
  ended_run, update_run, stop_dead, stop_live, update_run_observation,
  update_run_port_verifications,
}
use agent_shell.Runs.Manager.Flags.{lookup-update_run}
use agent_shell.Runs.Run.{Run, active, not_known}
use agent_shell.Runs.Start.{new_run}
use agent_shell.Runs.Trace.{
  Traced, Step, Reach, begins, goes_on, goes_on_late, ends_unsaved, resaves, starts, stops,
  times_out, ends, observes, verifies, empty, step,
}
use agent_shell.Runs.Trace.Launch.{fresh-IsSound, goes_on-IsSound, late-IsSound, start_run-IsSound}
use agent_shell.Runs.Trace.Sound.{
  fits, Sound, IsSound, saved-Sound, stale_saved-Sound, more_stale, self_stale,
}

-- An active run with a live group is running or stopping.
waited_for :
    (r : Run) (waited : Bool) (alive : ℕ → Bool)
    → fits waited r ≡ true
    → active r ≡ true
    → group_alive alive r.process_group_id ≡ true
    → waited ≡ true
waited_for r waited alive fit busy live = ground arith

-- A stop that changes the table: the save decides.
stop_dead-IsSound :
    (stale : List Text) (m : Manager) (id reason : Text) (now : ℕ) (saved : Bool) (r : Run)
    → IsSound stale m
    → r.id ≡ id
    → IsSound stale (stop_dead m id (stopped_run reason now r) saved).0
stop_dead-IsSound stale m id reason now false r f same = f
stop_dead-IsSound stale m id reason now true r f same =
    saved-Sound stale m (stopped_run reason now r) (drop_id id m.stopping_ids) m.waiters f
      (λ x ne. contains-drop_id_other id x m.stopping_ids (rw (← same) ne)) (λ x ne. refl)
      (λ u. refl)
      (λ u c. ground (arith, contains-drop_id id r.id m.stopping_ids, text_eq_iff id r.id))

stop_live-IsSound :
    (stale : List Text) (m : Manager) (id reason : Text) (saved : Bool) (r : Run)
    → IsSound stale m
    → r.id ≡ id
    → (contains stale id ≡ false → contains m.waiters id ≡ true)
    → IsSound stale (stop_live m id (stopping_run reason r) saved).0
stop_live-IsSound stale m id reason false r f same waited = record {
  at_id = f.at_id;
  fit = f.fit;
  flag = λ x u c. f.flag x u (ground (arith, contains-drop_id id x m.stopping_ids));
}
stop_live-IsSound stale m id reason true r f same waited =
    saved-Sound stale m (stopping_run reason r) (add_id id m.stopping_ids) m.waiters f
      (λ x ne. contains-add_id_other id x m.stopping_ids (rw (← same) ne)) (λ x ne. refl)
      (λ u. rw same (waited (rw (← same) u))) (λ u c. refl)

stop-IsSound :
    (stale : List Text) (m : Manager) (id reason : Text) (now : ℕ) (alive : ℕ → Bool) (saved : Bool)
    → IsSound stale m
    → IsSound stale (stop m id reason now alive saved).0
unfolding stop
stop-IsSound stale m id reason now alive saved f = elim (Option-cases (lookup id m.runs)) [
  | inl missing ↦ rw missing f
  | inr (r, found) ↦
      let same = f.at_id id r found in
      elim (Bool-cases (active r)) [
        | inr idle ↦ rw (found, idle) f
        | inl busy ↦ elim (Bool-cases (group_alive alive r.process_group_id)) [
          | inr dead ↦
              rw (found, busy, dead) (stop_dead-IsSound stale m id reason now saved r f same)
          | inl live ↦
              rw (found, busy, live)
                (stop_live-IsSound stale m id reason saved r f same
                  (λ u. waited_for r (contains m.waiters id) alive (f.fit id r u found) busy live))
        ]
      ]
]

kill_after_grace-IsSound :
    (stale : List Text) (m : Manager) (id : Text) (pgid : ℕ) (alive : ℕ → Bool)
    → IsSound stale m
    → IsSound stale (kill_after_grace m id pgid alive).0
unfolding kill_after_grace
kill_after_grace-IsSound stale m id pgid alive f = elim (Bool-cases (group_alive alive pgid)) [
  | inl there ↦ rw there f
  | inr gone ↦ rw gone f
]

updated-IsSound :
    (stale : List Text) (m : Manager) (id : Text) (g : Run → Run)
    → ((r : Run)
        → ((g r).id ≡ r.id)
          × ((g r).status ≡ r.status)
          × ((g r).process_group_id ≡ r.process_group_id))
    → IsSound stale m
    → Sound stale (update_run id g m.runs) m.stopping_ids m.waiters
updated-IsSound stale m id g keeps f = record {
  at_id = λ x r e. elim (Option-cases (lookup x m.runs)) [
    | inl missing ↦ ground (arith, lookup-update_run id x g m.runs)
    | inr (s, found) ↦ ground (arith, lookup-update_run id x g m.runs, f.at_id x s found, keeps s)
  ];
  fit = λ x r u e. elim (Option-cases (lookup x m.runs)) [
    | inl missing ↦ ground (arith, lookup-update_run id x g m.runs)
    | inr (s, found) ↦ ground (arith, lookup-update_run id x g m.runs, f.fit x s u found, keeps s)
  ];
  flag = λ x u c. elim (Option-cases (lookup x m.runs)) [
    | inl missing ↦ ground (arith, lookup-update_run id x g m.runs, f.flag x u)
    | inr (s, found) ↦ ground (arith, lookup-update_run id x g m.runs, f.flag x u, keeps s)
  ];
}

-- The row of the id is not read any more, or is stale.
unwaited :
    (stale : List Text) (m : Manager) (id : Text)
    → IsSound stale m
    → (contains stale id ≡ false → lookup id m.runs ≡ none)
    → Sound stale m.runs (drop_id id m.stopping_ids) (drop_id id m.waiters)
unwaited stale m id f gone = record {
  at_id = f.at_id;
  fit = λ x r u e. elim (Bool-cases (text_eq id x)) [
    | inr ne ↦ rw (contains-drop_id_other id x m.waiters ne) (f.fit x r u e)
    | inl same ↦
        let is : id ≡ x = (text_eq_iff id x).0 same in
        let none_there : lookup x m.runs ≡ none =
          subst (λ i. contains stale i ≡ false → lookup i m.runs ≡ none) is gone u in
        absurd (ground (arith, none_there, e))
  ];
  flag = λ x u c. f.flag x u (ground (arith, contains-drop_id id x m.stopping_ids));
}

wait_end-IsSound :
    (stale : List Text) (m : Manager) (id : Text) (bad : Bool) (code : ℤ) (now : ℕ)
    → IsSound stale m
    → IsSound stale (wait_end m id bad code now true).0
unfolding wait_end
wait_end-IsSound stale m id bad code now f = elim (Option-cases (lookup id m.runs)) [
  | inl missing ↦ rw missing (unwaited stale m id f (λ u. missing))
  | inr (r, found) ↦
      let same = f.at_id id r found in
      let s = end_status (contains m.stopping_ids id) (contains m.force_killed id) bad code in
      rw found (
        saved-Sound stale m (ended_run s code now r) (drop_id id m.stopping_ids)
          (drop_id id m.waiters) f
          (λ x ne. contains-drop_id_other id x m.stopping_ids (rw (← same) ne))
          (λ x ne. contains-drop_id_other id x m.waiters (rw (← same) ne)) (λ u. ground arith)
          (λ u c. ground (arith, contains-drop_id id r.id m.stopping_ids, text_eq_iff id r.id)))
]

unsaved_end-IsSound :
    (stale : List Text) (m : Manager) (id : Text) (bad : Bool) (code : ℤ) (now : ℕ)
    → IsSound stale m
    → IsSound (id ∷ stale) (wait_end m id bad code now false).0
unfolding wait_end
unsaved_end-IsSound stale m id bad code now f =
    let f' = more_stale id stale m.runs m.stopping_ids m.waiters f in
    let dropped = unwaited (id ∷ stale) m id f' (λ u. self_stale id stale u) in
    elim (Option-cases (lookup id m.runs)) [
      | inl missing ↦ rw missing dropped
      | inr (r, found) ↦ rw found dropped
    ]

Step-IsSound : (t t' : Traced) → Step t t' → IsSound t.stale t.manager → IsSound t'.stale t'.manager
unfolding update_run_observation update_run_port_verifications
Step-IsSound t _ (starts os spec fresh) f = start_run-IsSound t.stale t.manager os spec f fresh
Step-IsSound t _ (begins os spec cwd fresh) f =
    fresh-IsSound t.stale t.manager (new_run os spec cwd) t.manager.waiters f fresh (λ x ne. refl)
      refl
Step-IsSound t _ (goes_on os r here new) f = goes_on-IsSound t.stale t.manager os r f here new
Step-IsSound t _ (goes_on_late os r) f = late-IsSound t.stale t.manager os r f
Step-IsSound t _ (stops id why now alive saved) f =
    stop-IsSound t.stale t.manager id why now alive saved f
Step-IsSound t _ (times_out id pgid alive) f =
    kill_after_grace-IsSound t.stale t.manager id pgid alive f
Step-IsSound t _ (ends id bad code now here) f =
    wait_end-IsSound t.stale t.manager id bad code now f
Step-IsSound t _ (ends_unsaved id bad code now) f =
    unsaved_end-IsSound t.stale t.manager id bad code now f
Step-IsSound t _ (resaves r) f =
    stale_saved-Sound t.stale t.manager r t.manager.stopping_ids t.manager.waiters f (λ x ne. refl)
      (λ x ne. refl)
Step-IsSound t _ (observes id readiness) f =
    updated-IsSound t.stale t.manager id (λ r. record r { readiness = readiness })
      (λ r. (refl, refl, refl)) f
Step-IsSound t _ (verifies id expected vs) f =
    updated-IsSound t.stale t.manager id
      (λ r. record r { expected_ports = expected; port_verifications = vs; readiness = not_known })
      (λ r. (refl, refl, refl)) f

-- Wherever the manager comes to from an empty database, each row stands at its own id; and for each id
-- that is not stale, a run that is running or stopping has a goroutine that waits for it, one that is
-- starting has no process group, and where the id is flagged as stopping the run has that status. An id
-- is stale only if Restart has saved its copy of the run, if the second part of a Start has saved the
-- run after its row had changed, or if the save at the end of its wait has failed.
pub Reach-IsSound : (t : Traced) → Reach t → IsSound t.stale t.manager
unfolding lookup contains
Reach-IsSound _ empty = record { at_id = λ id r e. cc; fit = λ id r u e. cc; flag = λ id u c. cc }
Reach-IsSound _ (step t t' before s) = Step-IsSound t t' s (Reach-IsSound t before)
