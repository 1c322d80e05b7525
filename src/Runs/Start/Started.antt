-- ===== src/Runs/Start/Started.antt =====
-- What Start leaves in the table of runs.
use agent_shell.Base.{
  Bool-cases, Option-cases, Text, lit, text_eq, text_eq_refl, is_empty, trim_space, contains,
  lookup, lookup-insert, ◌≡◌, refl, ◌∙◌, inl, inr, true, false, Option, none, some, List, arith,
  add_id,
}
use agent_shell.Runs.Manager.{Manager, save_run, log_error}
use agent_shell.Runs.Run.{Run, running, ready}
use agent_shell.Runs.Start.{
  StartSpec, Os, StartOutcome, start_run, or_text, taken_port, waits_for, new_run, spawn_done,
  launch, start_in, refused,
}

-- Rows of other runs are as before.
abbrev pub KeepsOthers : Text → List (Text × Run) → List (Text × Run) → Type 0
KeepsOthers id before after = (x : Text) → text_eq id x ≡ false → lookup x after ≡ lookup x before

save_run-keeps : (r : Run) (m : Manager) → KeepsOthers r.id m.runs (save_run r m).runs
save_run-keeps r m x h = ground (arith, lookup-insert r.id x r m.runs)

-- A run that was started: it is in the table as running, ready at once where it expects no port, and
-- the manager supervises it.
pub record IsStarted (m : Manager) (os : Os) (spec : StartSpec) (out : StartOutcome) : Type 0 where
  pub run : Run
  pub returned : out.run ≡ some run
  pub saved : lookup os.new_id out.manager.runs ≡ some run
  pub is_running : run.status ≡ running
  pub readiness : run.readiness ≡ waits_for spec.expected_ports ready
  pub held : contains out.manager.cmds os.new_id ≡ true
  pub awaited : contains out.manager.waiters os.new_id ≡ true
  pub others : KeepsOthers os.new_id m.runs out.manager.runs

contains-add_id_self : (id : Text) (xs : List Text) → contains (add_id id xs) id ≡ true
unfolding contains
contains-add_id_self id xs = ground (arith, text_eq_refl id)

launched-IsStarted :
    (m : Manager) (os : Os) (spec : StartSpec) (cwd : Text)
    → (launch os (new_run os spec cwd) (save_run (new_run os spec cwd) m)).error ≡ none
    → IsStarted m os spec (launch os (new_run os spec cwd) (save_run (new_run os spec cwd) m))
launched-IsStarted m os spec cwd e = elim (Option-cases os.spawned) [
  | inl nothing ↦ absurd (ground arith)
  | inr (pid, spawned) ↦
      let r = new_run os spec cwd in
      let good : os.saved_running ≡ true = ground arith in
      rw (spawned, good)
        (record {
          run = spawn_done pid r;
          returned = refl;
          saved = ground (
            arith,
            lookup-insert r.id r.id (spawn_done pid r) (save_run r m).runs,
            text_eq_refl r.id,
          );
          is_running = refl;
          readiness = refl;
          held = contains-add_id_self r.id m.cmds;
          awaited = contains-add_id_self r.id m.waiters;
          others =
              λ x h. save_run-keeps (spawn_done pid r) (save_run r m) x h ∙ save_run-keeps r m x h;
        })
]

started_in :
    (m : Manager) (os : Os) (spec : StartSpec) (cwd : Option Text)
    → (start_in m os spec cwd).error ≡ none
    → (dir : Text) × (cwd ≡ some dir)
      × (start_in m os spec cwd
          ≡ launch os (new_run os spec dir) (save_run (new_run os spec dir) m))
started_in m os spec none e = cc
started_in m os spec (some dir) e = (dir, refl, ground arith)

-- Where Start reports no error, it returns a run that is in the table as running, ready at once where
-- it expects no port and else waiting for its ports, that the manager holds and waits for, and the
-- other rows are as they were.
pub start_run-IsStarted :
    (m : Manager) (os : Os) (spec : StartSpec)
    → (start_run m os spec).error ≡ none
    → IsStarted m os spec (start_run m os spec)
unfolding start_run
start_run-IsStarted m os spec e = elim (Bool-cases (is_empty (trim_space spec.command))) [
  | inl blank ↦ absurd (ground arith)
  | inr filled ↦
      let e' : (start_in m os spec (os.canonical_dir spec.cwd)).error ≡ none = ground arith in
      let (dir, found, same) = started_in m os spec (os.canonical_dir spec.cwd) e' in
      rw (filled, same) (launched-IsStarted m os spec dir (rw same at e'))
]

left_over :
    (m : Manager) (os : Os) (spec : StartSpec) (dir : Text)
    → taken_port os.port_available spec.expected_ports ≡ none
    → os.shell_exists (or_text spec.shell (lit "/bin/sh")) ≡ true
    → os.dir_made ≡ true
    → os.saved ≡ true
    → os.logs_opened ≡ false
    → ((start_in m os spec (some dir)).error ≡ some log_error)
      × (lookup os.new_id (start_in m os spec (some dir)).manager.runs ≡ some (new_run os spec dir))
      × ((start_in m os spec (some dir)).manager.waiters ≡ m.waiters)
left_over m os spec dir c d e f g =
    let r = new_run os spec dir in
    let same : start_in m os spec (some dir) ≡ refused (save_run r m) log_error = ground arith in
    rw same (refl, lookup-insert r.id r.id r m.runs ∙ (rw text_eq_refl), refl)

-- Where the log files cannot be opened, Start reports an error, and the run stays in the table with
-- the status starting, though no process was spawned and nothing supervises it.
pub start_run-leftover :
    (m : Manager) (os : Os) (spec : StartSpec) (dir : Text)
    → is_empty (trim_space spec.command) ≡ false
    → os.canonical_dir spec.cwd ≡ some dir
    → taken_port os.port_available spec.expected_ports ≡ none
    → os.shell_exists (or_text spec.shell (lit "/bin/sh")) ≡ true
    → os.dir_made ≡ true
    → os.saved ≡ true
    → os.logs_opened ≡ false
    → ((start_run m os spec).error ≡ some log_error)
      × (lookup os.new_id (start_run m os spec).manager.runs ≡ some (new_run os spec dir))
      × ((start_run m os spec).manager.waiters ≡ m.waiters)
unfolding start_run
start_run-leftover m os spec dir a b c d e f g = rw (a, b) (left_over m os spec dir c d e f g)
