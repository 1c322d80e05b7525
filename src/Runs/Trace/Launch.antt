-- ===== src/Runs/Trace/Launch.antt =====
-- Start keeps the invariant of the manager.
use agent_shell.Base.{
  Bool-cases, Option-cases, Text, lit, text_eq, text_eq_iff, is_empty, trim_space, contains, lookup,
  ◌≡◌, refl, inl, inr, Bool, true, false, Option, none, some, List, ◌∷◌, arith, add_id,
  contains-add_id, contains-add_id_other,
}
use agent_shell.Runs.Manager.{Manager, save_run, shell_error, port_in_use}
use agent_shell.Runs.Run.{Run, starting}
use agent_shell.Runs.Start.{
  StartSpec, Os, or_text, taken_port, new_run, spawn_failed, spawn_done, launch, create, start_in,
  start_run, refused,
}
use agent_shell.Runs.Trace.Sound.{fits, Sound, IsSound, saved-Sound, stale_saved-Sound, more_stale}

-- A run that is saved under a new id; the maps of the other ids stay.
pub fresh-IsSound :
    (stale : List Text) (m : Manager) (r : Run) (ws : List Text)
    → IsSound stale m
    → lookup r.id m.runs ≡ none
    → ((x : Text) → text_eq r.id x ≡ false → contains ws x ≡ contains m.waiters x)
    → fits (contains ws r.id) r ≡ true
    → Sound stale (save_run r m).runs m.stopping_ids ws
fresh-IsSound stale m r ws f fresh same_ws fit =
    saved-Sound stale m r m.stopping_ids ws f (λ x ne. refl) same_ws (λ u. fit)
      (λ u c. ground (arith, f.flag r.id u c, fresh))

unflagged_fresh :
    (stale : List Text) (m : Manager) (r : Run)
    → IsSound stale m
    → lookup r.id m.runs ≡ none
    → {b : Bool} → contains stale r.id ≡ false
    → contains m.stopping_ids r.id ≡ true
    → b ≡ true
unflagged_fresh stale m r f fresh u c = ground (arith, f.flag r.id u c, fresh)

launched-IsSound :
    (stale : List Text) (m : Manager) (os : Os) (r : Run)
    → IsSound stale m
    → lookup r.id m.runs ≡ none
    → fits (contains m.waiters r.id) r ≡ true
    → IsSound stale (launch os r (save_run r m)).manager
launched-IsSound stale m os r f fresh fit =
    let m1 = save_run r m in
    let f1 = fresh-IsSound stale m r m.waiters f fresh (λ x ne. refl) fit in
    let unflagged = unflagged_fresh stale m r f fresh in
    elim (Option-cases os.spawned) [
      | inl none_spawned ↦ rw none_spawned (
          saved-Sound stale m1 (spawn_failed os r) m.stopping_ids m.waiters f1 (λ x ne. refl)
            (λ x ne. refl) (λ u. refl) unflagged)
      | inr (pid, spawned) ↦ elim (Bool-cases os.saved_running) [
        | inr unsaved ↦ rw (spawned, unsaved) f1
        | inl saved ↦
            rw (spawned, saved)
              (saved-Sound stale m1 (spawn_done pid r) m.stopping_ids (add_id r.id m.waiters) f1
                (λ x ne. refl) (λ x ne. contains-add_id_other r.id x m.waiters ne)
                (λ u. ground (arith, contains-add_id r.id r.id m.waiters, text_eq_iff r.id r.id))
                unflagged)
      ]
    ]

created-IsSound :
    (stale : List Text) (m : Manager) (os : Os) (r : Run)
    → IsSound stale m
    → lookup r.id m.runs ≡ none
    → fits (contains m.waiters r.id) r ≡ true
    → IsSound stale (create os r m).manager
created-IsSound stale m os r f fresh fit = elim (Bool-cases os.dir_made) [
  | inr unmade ↦ rw unmade f
  | inl made ↦ elim (Bool-cases os.saved) [
    | inr unsaved ↦ rw (made, unsaved) f
    | inl saved ↦ elim (Bool-cases os.logs_opened) [
      | inr shut ↦
          rw (made, saved, shut) (fresh-IsSound stale m r m.waiters f fresh (λ x ne. refl) fit)
      | inl opened ↦ rw (made, saved, opened) (launched-IsSound stale m os r f fresh fit)
    ]
  ]
]

start_in-IsSound :
    (stale : List Text) (m : Manager) (os : Os) (spec : StartSpec) (dir : Option Text)
    → IsSound stale m
    → lookup os.new_id m.runs ≡ none
    → IsSound stale (start_in m os spec dir).manager
start_in-IsSound stale m os spec none f fresh = f
start_in-IsSound stale m os spec (some dir) f fresh =
    elim (Option-cases (taken_port os.port_available spec.expected_ports)) [
      | inr (port, taken) ↦
          let same : start_in m os spec (some dir) ≡ refused m (port_in_use port) = ground arith in
          rw same f
      | inl free ↦ elim (Bool-cases (os.shell_exists (or_text spec.shell (lit "/bin/sh")))) [
        | inr no_shell ↦
            let same : start_in m os spec (some dir) ≡ refused m shell_error = ground arith in
            rw same f
        | inl shell ↦
            let r = new_run os spec dir in
            let same : start_in m os spec (some dir) ≡ create os r m = ground arith in
            rw same (created-IsSound stale m os r f fresh refl)
      ]
    ]

pub start_run-IsSound :
    (stale : List Text) (m : Manager) (os : Os) (spec : StartSpec)
    → IsSound stale m
    → lookup os.new_id m.runs ≡ none
    → IsSound stale (start_run m os spec).manager
unfolding start_run
start_run-IsSound stale m os spec f fresh = elim (Bool-cases (is_empty (trim_space spec.command))) [
  | inl blank ↦ rw blank f
  | inr given ↦ rw given (start_in-IsSound stale m os spec (os.canonical_dir spec.cwd) f fresh)
]

unflagged_new :
    (stale : List Text) (m : Manager) (r : Run)
    → IsSound stale m
    → lookup r.id m.runs ≡ some r
    → r.status ≡ starting
    → {b : Bool} → contains stale r.id ≡ false
    → contains m.stopping_ids r.id ≡ true
    → b ≡ true
unflagged_new stale m r f here new u c = absurd (ground (arith, f.flag r.id u c, here, new))

-- The second part of a Start whose row is as its first part has left it.
pub goes_on-IsSound :
    (stale : List Text) (m : Manager) (os : Os) (r : Run)
    → IsSound stale m
    → lookup r.id m.runs ≡ some r
    → r.status ≡ starting
    → IsSound stale (launch os r m).manager
goes_on-IsSound stale m os r f here new =
    let unflagged = unflagged_new stale m r f here new in
    elim (Option-cases os.spawned) [
      | inl none_spawned ↦ rw none_spawned (
          saved-Sound stale m (spawn_failed os r) m.stopping_ids m.waiters f (λ x ne. refl)
            (λ x ne. refl) (λ u. refl) unflagged)
      | inr (pid, spawned) ↦ elim (Bool-cases os.saved_running) [
        | inr unsaved ↦ rw (spawned, unsaved) f
        | inl saved ↦
            rw (spawned, saved)
              (saved-Sound stale m (spawn_done pid r) m.stopping_ids (add_id r.id m.waiters) f
                (λ x ne. refl) (λ x ne. contains-add_id_other r.id x m.waiters ne)
                (λ u. ground (arith, contains-add_id r.id r.id m.waiters, text_eq_iff r.id r.id))
                unflagged)
      ]
    ]

-- The same with any copy of the run.
pub late-IsSound :
    (stale : List Text) (m : Manager) (os : Os) (r : Run)
    → IsSound stale m
    → IsSound (r.id ∷ stale) (launch os r m).manager
late-IsSound stale m os r f = elim (Option-cases os.spawned) [
  | inl none_spawned ↦ rw none_spawned (
      stale_saved-Sound stale m (spawn_failed os r) m.stopping_ids m.waiters f (λ x ne. refl)
        (λ x ne. refl))
  | inr (pid, spawned) ↦ elim (Bool-cases os.saved_running) [
    | inr unsaved ↦ rw (spawned, unsaved) (more_stale r.id stale m.runs m.stopping_ids m.waiters f)
    | inl saved ↦
        rw (spawned, saved)
          (stale_saved-Sound stale m (spawn_done pid r) m.stopping_ids (add_id r.id m.waiters) f
            (λ x ne. refl) (λ x ne. contains-add_id_other r.id x m.waiters ne))
  ]
]
