-- ===== src/Runs/Trace/Waited.antt =====
-- Each goroutine of `wait` in internal/runtime/manager.go waits for a run that has been started and
-- has not ended.
use agent_shell.Base.{
  Bool-cases, Text, text_eq, text_eq_iff, contains, lookup, lookup-insert, ◌≡◌, ◌∙◌, inl, inr, Bool,
  true, false, Option, none, some, List, ◌∷◌, subst, if◌then◌else◌, Option-cases, add_id,
  contains-add_id_other, ℕ, refl, sym, arith, ℤ, drop_id, contains-drop_id, contains-drop_id_other,
  lit, is_empty, trim_space,
}
use agent_shell.Runs.Manager.{
  Manager, save_run, stop, group_alive, stopped_run, stopping_run, stop_found, kill_after_grace,
  end_status, ended_run, wait_end, update_run, update_run_observation,
  update_run_port_verifications, shell_error, port_in_use,
}
use agent_shell.Runs.Manager.Flags.{lookup-update_run}
use agent_shell.Runs.Run.{RunStatus, Run, running, stopping, stopped, starting, active, not_known}
use agent_shell.Runs.Start.{
  Os, spawn_failed, spawn_done, launch, create, StartSpec, refused, or_text, taken_port, new_run,
  start_in, start_run,
}
use agent_shell.Runs.Trace.{
  Traced, Step, Reach, begins, goes_on, goes_on_late, ends_unsaved, resaves, starts, stops,
  times_out, ends, observes, verifies, empty, step,
}
use agent_shell.Runs.Trace.Invariant.{Reach-IsSound}
use agent_shell.Runs.Trace.Sound.{IsSound, contains-cons_false, self_stale}

abbrev pub is_waited : RunStatus → Bool
is_waited running = true
is_waited stopping = true
is_waited stopped = true
is_waited _ = false

abbrev waited_row : Option Run → Bool
waited_row none = false
waited_row (some r) = is_waited r.status

-- Each id that is waited for and not stale has a row with such a status.
abbrev Waits : List Text → List (Text × Run) → List Text → Type 0
Waits stale runs ws =
    (id : Text)
    → contains stale id ≡ false
    → contains ws id ≡ true
    → waited_row (lookup id runs) ≡ true

abbrev pub AllWaited : List Text → Manager → Type 0
AllWaited stale m = Waits stale m.runs m.waiters

saved_row :
    (m : Manager) (r : Run) (id : Text)
    → lookup id (save_run r m).runs ≡ (if text_eq r.id id then some r else lookup id m.runs)
saved_row m r id = lookup-insert r.id id r m.runs

saved-Waits :
    (stale : List Text) (m : Manager) (r : Run) (ws : List Text)
    → AllWaited stale m
    → ((x : Text) → text_eq r.id x ≡ false → contains ws x ≡ contains m.waiters x)
    → (contains stale r.id ≡ false → contains ws r.id ≡ true → is_waited r.status ≡ true)
    → Waits stale (save_run r m).runs ws
saved-Waits stale m r ws f same_ws here id u c = elim (Bool-cases (text_eq r.id id)) [
  | inl same ↦
      let is : r.id ≡ id = (text_eq_iff r.id id).0 same in
      let u' : contains stale r.id ≡ false = subst (λ i. contains stale i ≡ false) (sym is) u in
      rw (saved_row m r id) (rw same (here u' (rw is c)))
  | inr other ↦ rw (saved_row m r id) (rw other (f id u (sym (same_ws id other) ∙ c)))
]

more_waited :
    (y : Text) (stale : List Text) (runs : List (Text × Run)) (ws : List Text)
    → Waits stale runs ws
    → Waits (y ∷ stale) runs ws
more_waited y stale runs ws f id u c = f id (contains-cons_false y id stale u).1 c

stale_saved-Waits :
    (stale : List Text) (m : Manager) (r : Run) (ws : List Text)
    → AllWaited stale m
    → ((x : Text) → text_eq r.id x ≡ false → contains ws x ≡ contains m.waiters x)
    → Waits (r.id ∷ stale) (save_run r m).runs ws
stale_saved-Waits stale m r ws f same_ws =
    saved-Waits (r.id ∷ stale) m r ws (more_waited r.id stale m.runs m.waiters f) same_ws
      (λ u c. self_stale r.id stale u)

-- A new id is not waited for.
fresh_unwaited :
    (stale : List Text) (m : Manager) (id : Text)
    → AllWaited stale m
    → lookup id m.runs ≡ none
    → contains stale id ≡ false
    → contains m.waiters id ≡ false
fresh_unwaited stale m id f fresh u = elim (Bool-cases (contains m.waiters id)) [
  | inl c ↦ absurd (ground (arith, f id u c))
  | inr c ↦ c
]

launched-AllWaited :
    (stale : List Text) (m : Manager) (os : Os) (r : Run)
    → AllWaited stale m
    → (contains stale r.id ≡ false → contains m.waiters r.id ≡ false)
    → AllWaited stale (launch os r m).manager
launched-AllWaited stale m os r f idle = elim (Option-cases os.spawned) [
  | inl nothing ↦ rw nothing (
      saved-Waits stale m (spawn_failed os r) m.waiters f (λ x ne. refl)
        (λ u c. absurd (ground (arith, idle u, c))))
  | inr (pid, spawned) ↦ elim (Bool-cases os.saved_running) [
    | inr unsaved ↦ rw (spawned, unsaved) f
    | inl kept ↦
        rw (spawned, kept)
          (saved-Waits stale m (spawn_done pid r) (add_id r.id m.waiters) f
            (λ x ne. contains-add_id_other r.id x m.waiters ne) (λ u c. refl))
  ]
]

created-AllWaited :
    (stale : List Text) (m : Manager) (os : Os) (r : Run)
    → AllWaited stale m
    → (contains stale r.id ≡ false → contains m.waiters r.id ≡ false)
    → AllWaited stale (create os r m).manager
created-AllWaited stale m os r f idle =
    let f1 : AllWaited stale (save_run r m) =
      saved-Waits stale m r m.waiters f (λ x ne. refl)
        (λ u c. absurd (ground (arith, idle u, c))) in
    elim (Bool-cases os.dir_made) [
      | inr unmade ↦ rw unmade f
      | inl made ↦ elim (Bool-cases os.saved) [
        | inr unsaved ↦ rw (made, unsaved) f
        | inl kept ↦ elim (Bool-cases os.logs_opened) [
          | inr shut ↦ rw (made, kept, shut) f1
          | inl opened ↦
              rw (made, kept, opened) (launched-AllWaited stale (save_run r m) os r f1 idle)
        ]
      ]
    ]

started-AllWaited :
    (stale : List Text) (m : Manager) (os : Os) (spec : StartSpec) (dir : Option Text)
    → AllWaited stale m
    → (contains stale os.new_id ≡ false → contains m.waiters os.new_id ≡ false)
    → AllWaited stale (start_in m os spec dir).manager
started-AllWaited stale m os spec none f idle = f
started-AllWaited stale m os spec (some dir) f idle =
    elim (Option-cases (taken_port os.port_available spec.expected_ports)) [
      | inr (port, taken) ↦
          let same : start_in m os spec (some dir) ≡ refused m (port_in_use port) = ground arith in
          rw same f
      | inl free ↦ elim (Bool-cases (os.shell_exists (or_text spec.shell (lit "/bin/sh")))) [
        | inr no_shell ↦
            let same : start_in m os spec (some dir) ≡ refused m shell_error = ground arith in
            rw same f
        | inl shell ↦
            let same : start_in m os spec (some dir) ≡ create os (new_run os spec dir) m =
              ground arith in
            rw same (created-AllWaited stale m os (new_run os spec dir) f idle)
      ]
    ]

start_run-AllWaited :
    (stale : List Text) (m : Manager) (os : Os) (spec : StartSpec)
    → AllWaited stale m
    → lookup os.new_id m.runs ≡ none
    → AllWaited stale (start_run m os spec).manager
unfolding start_run
start_run-AllWaited stale m os spec f fresh =
    elim (Bool-cases (is_empty (trim_space spec.command))) [
      | inl blank ↦ rw blank f
      | inr given ↦ rw given (
          started-AllWaited stale m os spec (os.canonical_dir spec.cwd) f
            (fresh_unwaited stale m os.new_id f fresh))
    ]

stop_found-AllWaited :
    (stale : List Text) (m : Manager) (id reason : Text) (now : ℕ) (alive : ℕ → Bool) (saved : Bool)
    (r : Run)
    → AllWaited stale m
    → AllWaited stale (stop_found m id reason now alive saved (some r)).0
stop_found-AllWaited stale m id reason now alive saved r f = elim (Bool-cases (active r)) [
  | inr idle ↦ rw idle f
  | inl busy ↦ elim (Bool-cases (group_alive alive r.process_group_id)) [
    | inr dead ↦ elim (Bool-cases saved) [
      | inr lost ↦ rw (busy, dead, lost) f
      | inl kept ↦
          rw (busy, dead, kept)
            (saved-Waits stale m (stopped_run reason now r) m.waiters f (λ x ne. refl)
              (λ u c. refl))
    ]
    | inl live ↦ elim (Bool-cases saved) [
      | inr lost ↦ rw (busy, live, lost) f
      | inl kept ↦
          rw (busy, live, kept)
            (saved-Waits stale m (stopping_run reason r) m.waiters f (λ x ne. refl) (λ u c. refl))
    ]
  ]
]

stop-AllWaited :
    (stale : List Text) (m : Manager) (id reason : Text) (now : ℕ) (alive : ℕ → Bool) (saved : Bool)
    → AllWaited stale m
    → AllWaited stale (stop m id reason now alive saved).0
unfolding stop
stop-AllWaited stale m id reason now alive saved f = elim (Option-cases (lookup id m.runs)) [
  | inl missing ↦ rw missing f
  | inr (r, there) ↦ rw there (stop_found-AllWaited stale m id reason now alive saved r f)
]

wait_end-AllWaited :
    (stale : List Text) (m : Manager) (id : Text) (bad : Bool) (code : ℤ) (now : ℕ)
    → IsSound stale m
    → AllWaited stale m
    → AllWaited stale (wait_end m id bad code now true).0
unfolding wait_end
wait_end-AllWaited stale m id bad code now sound f = elim (Option-cases (lookup id m.runs)) [
  | inl missing ↦ rw missing (λ x u c. f x u (ground (arith, contains-drop_id id x m.waiters)))
  | inr (r, there) ↦
      let same = sound.at_id id r there in
      let s = end_status (contains m.stopping_ids id) (contains m.force_killed id) bad code in
      rw there (
        saved-Waits stale m (ended_run s code now r) (drop_id id m.waiters) f
          (λ x ne. contains-drop_id_other id x m.waiters (rw (← same) ne))
          (λ u c. absurd (ground (arith, contains-drop_id id r.id m.waiters, text_eq_iff id r.id))))
]

updated-AllWaited :
    (stale : List Text) (m : Manager) (id : Text) (g : Run → Run)
    → ((r : Run) → (g r).status ≡ r.status)
    → AllWaited stale m
    → Waits stale (update_run id g m.runs) m.waiters
updated-AllWaited stale m id g keeps f x u c = elim (Option-cases (lookup x m.runs)) [
  | inl missing ↦ ground (arith, lookup-update_run id x g m.runs, f x u c)
  | inr (s, there) ↦ ground (arith, lookup-update_run id x g m.runs, f x u c, keeps s)
]

kill_after_grace-AllWaited :
    (stale : List Text) (m : Manager) (id : Text) (pgid : ℕ) (alive : ℕ → Bool)
    → AllWaited stale m
    → AllWaited stale (kill_after_grace m id pgid alive).0
unfolding kill_after_grace
kill_after_grace-AllWaited stale m id pgid alive f = elim (Bool-cases (group_alive alive pgid)) [
  | inl there ↦ rw there f
  | inr gone ↦ rw gone f
]

unsaved_end-AllWaited :
    (stale : List Text) (m : Manager) (id : Text) (bad : Bool) (code : ℤ) (now : ℕ)
    → AllWaited stale m
    → AllWaited (id ∷ stale) (wait_end m id bad code now false).0
unfolding wait_end
unsaved_end-AllWaited stale m id bad code now f =
    let dropped : Waits (id ∷ stale) m.runs (drop_id id m.waiters) = λ x u c.
      f x (contains-cons_false id x stale u).1 (ground (arith, contains-drop_id id x m.waiters)) in
    elim (Option-cases (lookup id m.runs)) [
      | inl missing ↦ rw missing dropped
      | inr (r, there) ↦ rw there dropped
    ]

-- A run that is starting is not waited for.
new_unwaited :
    (stale : List Text) (m : Manager) (r : Run)
    → AllWaited stale m
    → lookup r.id m.runs ≡ some r
    → r.status ≡ starting
    → contains stale r.id ≡ false
    → contains m.waiters r.id ≡ false
new_unwaited stale m r f here new u = elim (Bool-cases (contains m.waiters r.id)) [
  | inl c ↦ absurd (ground (arith, f r.id u c, here, new))
  | inr c ↦ c
]

late-AllWaited :
    (stale : List Text) (m : Manager) (os : Os) (r : Run)
    → AllWaited stale m
    → AllWaited (r.id ∷ stale) (launch os r m).manager
late-AllWaited stale m os r f = elim (Option-cases os.spawned) [
  | inl nothing ↦
      rw nothing (stale_saved-Waits stale m (spawn_failed os r) m.waiters f (λ x ne. refl))
  | inr (pid, spawned) ↦ elim (Bool-cases os.saved_running) [
    | inr unsaved ↦ rw (spawned, unsaved) (more_waited r.id stale m.runs m.waiters f)
    | inl kept ↦
        rw (spawned, kept)
          (stale_saved-Waits stale m (spawn_done pid r) (add_id r.id m.waiters) f
            (λ x ne. contains-add_id_other r.id x m.waiters ne))
  ]
]

Step-AllWaited :
    (t t' : Traced)
    → Step t t'
    → IsSound t.stale t.manager
    → AllWaited t.stale t.manager
    → AllWaited t'.stale t'.manager
unfolding update_run_observation update_run_port_verifications
Step-AllWaited t _ (starts os spec fresh) sound f =
    start_run-AllWaited t.stale t.manager os spec f fresh
Step-AllWaited t _ (begins os spec cwd fresh) sound f =
    let idle = fresh_unwaited t.stale t.manager os.new_id f fresh in
    saved-Waits t.stale t.manager (new_run os spec cwd) t.manager.waiters f (λ x ne. refl)
      (λ u c. absurd (ground (arith, idle u, c)))
Step-AllWaited t _ (goes_on os r here new) sound f =
    launched-AllWaited t.stale t.manager os r f (new_unwaited t.stale t.manager r f here new)
Step-AllWaited t _ (goes_on_late os r) sound f = late-AllWaited t.stale t.manager os r f
Step-AllWaited t _ (stops id why now alive saved) sound f =
    stop-AllWaited t.stale t.manager id why now alive saved f
Step-AllWaited t _ (times_out id pgid alive) sound f =
    kill_after_grace-AllWaited t.stale t.manager id pgid alive f
Step-AllWaited t _ (ends id bad code now here) sound f =
    wait_end-AllWaited t.stale t.manager id bad code now sound f
Step-AllWaited t _ (ends_unsaved id bad code now) sound f =
    unsaved_end-AllWaited t.stale t.manager id bad code now f
Step-AllWaited t _ (resaves r) sound f =
    stale_saved-Waits t.stale t.manager r t.manager.waiters f (λ x ne. refl)
Step-AllWaited t _ (observes id readiness) sound f =
    updated-AllWaited t.stale t.manager id (λ r. record r { readiness = readiness }) (λ r. refl) f
Step-AllWaited t _ (verifies id expected vs) sound f =
    updated-AllWaited t.stale t.manager id
      (λ r. record r { expected_ports = expected; port_verifications = vs; readiness = not_known })
      (λ r. refl) f

pub Reach-AllWaited : (t : Traced) → Reach t → AllWaited t.stale t.manager
unfolding contains
Reach-AllWaited _ empty = λ id u c. cc
Reach-AllWaited _ (step t t' before s) =
    Step-AllWaited t t' s (Reach-IsSound t before) (Reach-AllWaited t before)
