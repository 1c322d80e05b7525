-- ===== src/Runs/Trace/Kept.antt =====
-- What a Start of internal/runtime/manager.go leaves of the rows of other runs.
use agent_shell.Base.{
  Bool-cases, Option-cases, Text, lit, text_eq, text_eq_iff, is_empty, trim_space, lookup,
  lookup-insert, ◌≡◌, ◌∙◌, inl, inr, false, Option, none, some, arith,
}
use agent_shell.Runs.Manager.{Manager, save_run}
use agent_shell.Runs.Run.{Run}
use agent_shell.Runs.Start.{
  StartSpec, Os, or_text, taken_port, new_run, spawn_failed, spawn_done, launch, create, start_in,
  start_run,
}

module _ (m : Manager) (x : Text) (r : Run) (there : lookup x m.runs ≡ some r) where
  -- The other rows are kept by a start.
  pub other_kept :
      (s : Run) (n : Manager)
      → text_eq s.id x ≡ false
      → lookup x n.runs ≡ some r
      → lookup x (save_run s n).runs ≡ some r
  other_kept s n ne e = lookup-insert s.id x s n.runs ∙ rw ne e

  launched-kept :
      (os : Os) (s : Run)
      → text_eq s.id x ≡ false
      → lookup x (save_run s m).runs ≡ some r
      → lookup x (launch os s (save_run s m)).manager.runs ≡ some r
  launched-kept os s ne e = elim (Option-cases os.spawned) [
    | inl nothing ↦ rw nothing (other_kept (spawn_failed os s) (save_run s m) ne e)
    | inr (pid, spawned) ↦ elim (Bool-cases os.saved_running) [
      | inr unsaved ↦ rw (spawned, unsaved) e
      | inl done ↦ rw (spawned, done) (other_kept (spawn_done pid s) (save_run s m) ne e)
    ]
  ]

  pub late-kept :
      (os : Os) (s : Run) → text_eq s.id x ≡ false → lookup x (launch os s m).manager.runs ≡ some r
  late-kept os s ne = elim (Option-cases os.spawned) [
    | inl nothing ↦ rw nothing (other_kept (spawn_failed os s) m ne there)
    | inr (pid, spawned) ↦ elim (Bool-cases os.saved_running) [
      | inr unsaved ↦ rw (spawned, unsaved) there
      | inl done ↦ rw (spawned, done) (other_kept (spawn_done pid s) m ne there)
    ]
  ]

  created-kept :
      (os : Os) (s : Run) → text_eq s.id x ≡ false → lookup x (create os s m).manager.runs ≡ some r
  created-kept os s ne =
      let e1 = other_kept s m ne there in
      elim (Bool-cases os.dir_made) [
        | inr unmade ↦ rw unmade there
        | inl made ↦ elim (Bool-cases os.saved) [
          | inr unsaved ↦ rw (made, unsaved) there
          | inl done ↦ elim (Bool-cases os.logs_opened) [
            | inr shut ↦ rw (made, done, shut) e1
            | inl opened ↦ rw (made, done, opened) (launched-kept os s ne e1)
          ]
        ]
      ]

  start_in-kept :
      (os : Os) (spec : StartSpec) (dir : Option Text)
      → text_eq os.new_id x ≡ false
      → lookup x (start_in m os spec dir).manager.runs ≡ some r
  start_in-kept os spec none ne = there
  start_in-kept os spec (some dir) ne =
      elim (Option-cases (taken_port os.port_available spec.expected_ports)) [
        | inr (port, taken) ↦ ground (arith, there)
        | inl free ↦ elim (Bool-cases (os.shell_exists (or_text spec.shell (lit "/bin/sh")))) [
          | inr no_shell ↦ ground (arith, there)
          | inl shell ↦
              let is : start_in m os spec (some dir) ≡ create os (new_run os spec dir) m =
                ground arith in
              rw is (created-kept os (new_run os spec dir) ne)
        ]
      ]

  pub start_run-kept :
      (os : Os) (spec : StartSpec)
      → lookup os.new_id m.runs ≡ none
      → lookup x (start_run m os spec).manager.runs ≡ some r
  unfolding start_run
  start_run-kept os spec fresh =
      let ne : text_eq os.new_id x ≡ false = ground (arith, text_eq_iff os.new_id x) in
      elim (Bool-cases (is_empty (trim_space spec.command))) [
        | inl blank ↦ rw blank there
        | inr given ↦ rw given (start_in-kept os spec (os.canonical_dir spec.cwd) ne)
      ]
