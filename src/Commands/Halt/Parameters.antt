-- ===== src/Commands/Halt/Parameters.antt =====
-- Wrong parameters in internal/runtime/manager.go: a restart looks at them before it stops anything, a
-- start that replaces the old runs only after it.
use agent_shell.Base.{
  Text, lit, text_eq, text_eq_iff, contains, lookup, lookup-insert, All, Bool, Bool-cases, true,
  false, err, ◌≡◌, ◌⊎◌, inl, inr, arith, refl, ap, ◌∙◌, sym, subst, none, some, List, [], ◌∷◌, ◌++◌,
  append-nil,
}
use agent_shell.Commands.Definition.{CommandDefinition, active_runs_for_command, replace}
use agent_shell.Commands.Halt.{restart_command_with_parameters, restart_resolved}
use agent_shell.Commands.Lifecycle.{
  Poll, wait_command_stopped, StopAnswer, stop_each, after_effects, start_command_locked,
}
use agent_shell.Commands.Actions.{CommandOutcome, failed_with, World, bad_parameters}
use agent_shell.Commands.Params.{ParamError, resolve_command_parameters}
use agent_shell.Runs.Manager.{
  Manager, Effect, Outcome, publish, sigterm, group_alive, stop, stopped_run, stopping_run,
}
use agent_shell.Runs.Manager.Offline.{AreRows, run_ids_of}
use agent_shell.Runs.Run.{Run, active}

-- An effect stands in a list.
abbrev pub IsIn : Effect → List Effect → Type 0
IsIn e [] = ⊥
IsIn e (x ∷ xs) = (x ≡ e) ⊎ IsIn e xs

-- What a stop does to a run: SIGTERM for a group that lives, and else the run is published as stopped.
abbrev pub stop_effect : StopAnswer → Run → Bool → Effect
stop_effect a s true = sigterm s.process_group_id
stop_effect a s false = publish (stopped_run (lit "requested") a.now s)

abbrev pub HasStopped : StopAnswer → List Effect → Run → Type 0
HasStopped a es s = IsIn (stop_effect a s (group_alive a.alive s.process_group_id)) es

IsIn-left : (e : Effect) (xs ys : List Effect) → IsIn e xs → IsIn e (xs ++ ys)
IsIn-left e [] ys h = absurd h
IsIn-left e (x ∷ xs) ys (inl here) = inl here
IsIn-left e (x ∷ xs) ys (inr later) = inr (IsIn-left e xs ys later)

IsIn-right : (e : Effect) (xs ys : List Effect) → IsIn e ys → IsIn e (xs ++ ys)
IsIn-right e [] ys h = h
IsIn-right e (x ∷ xs) ys h = inr (IsIn-right e xs ys h)

All-right :
    (a : StopAnswer) (xs ys : List Effect) (rs : List Run)
    → All (HasStopped a ys) rs
    → All (HasStopped a (xs ++ ys)) rs
All-right a xs ys [] h = tt
All-right a xs ys (r ∷ rs) (here, rest) = (
  IsIn-right (stop_effect a r (group_alive a.alive r.process_group_id)) xs ys here,
  All-right a xs ys rs rest,
)

-- A stop whose save succeeds, of an active run of the table; the other rows stay.
record Stops (a : StopAnswer) (m : Manager) (s : Run) (out : Outcome) : Type 0 where
  done : HasStopped a out.1 s
  others : (x : Text) → text_eq s.id x ≡ false → lookup x out.0.runs ≡ lookup x m.runs

stop-Stops :
    (a : StopAnswer) (m : Manager) (s : Run)
    → a.saved ≡ true
    → lookup s.id m.runs ≡ some s
    → active s ≡ true
    → Stops a m s (stop m s.id (lit "requested") a.now a.alive a.saved)
unfolding stop
stop-Stops a m s saved found busy = elim (Bool-cases (group_alive a.alive s.process_group_id)) [
  | inl live ↦
      rw (saved, found, busy, live)
        (record {
          done = rw live (inr (inl refl));
          others =
              λ x ne. lookup-insert s.id x (stopping_run (lit "requested") s) m.runs ∙ rw ne refl;
        })
  | inr gone ↦
      rw (saved, found, busy, gone)
        (record {
          done = rw gone (inl refl);
          others = λ x ne.
              lookup-insert s.id x (stopped_run (lit "requested") a.now s) m.runs ∙ rw ne refl;
        })
]

rows_kept :
    (m n : Manager) (s : Run) (rs : List Run)
    → contains (run_ids_of rs) s.id ≡ false
    → ((x : Text) → text_eq s.id x ≡ false → lookup x n.runs ≡ lookup x m.runs)
    → All (λ r. lookup r.id m.runs ≡ some r) rs
    → All (λ r. lookup r.id n.runs ≡ some r) rs
unfolding contains
rows_kept m n s [] fresh same h = tt
rows_kept m n s (r ∷ rs) fresh same (here, h) =
    let ne : text_eq s.id r.id ≡ false =
      ground (arith, fresh, text_eq_iff s.id r.id, text_eq_iff r.id s.id) in
    (same r.id ne ∙ here, rows_kept m n s rs (ground (arith, fresh)) same h)

stop_each-HasStopped :
    (a : StopAnswer) (m : Manager) (rs : List Run)
    → a.saved ≡ true
    → AreRows m rs
    → All (λ r. active r ≡ true) rs
    → All (HasStopped a (stop_each a m rs).1) rs
unfolding stop_each
stop_each-HasStopped a m [] saved rows busy = tt
stop_each-HasStopped a m (r ∷ rs) saved rows (busy, more) =
    let first = stop m r.id (lit "requested") a.now a.alive a.saved in
    let (fresh, once) = rows.each_once in
    let (here, there) = rows.as_saved in
    let h = stop-Stops a m r saved here busy in
    let kept = rows_kept m first.0 r rs fresh h.others there in
    (
      IsIn-left (stop_effect a r (group_alive a.alive r.process_group_id)) first.1
          (stop_each a first.0 rs).1 h.done,
      All-right a first.1 (stop_each a first.0 rs).1 rs (
          stop_each-HasStopped a first.0 rs saved (record { each_once = once; as_saved = kept })
            more),
    )

-- What a replacing start does where the old runs are gone and the parameters are wrong.
pub record IsLost (a : StopAnswer) (m' : Manager) (rs : List Run) (e : ParamError)
    (out : CommandOutcome) : Type 0 where
  pub stopped_all : All (HasStopped a out.effects) rs
  pub left : out.manager ≡ m'
  pub no_run : out.run ≡ none
  pub reported : out.error ≡ some (bad_parameters e)

-- Where the values do not fit the parameters, RestartCommandWithParameters reports it and leaves the
-- manager as it is, with no signal sent. A start of a command with the policy to replace, which has
-- active runs with no id twice, reports it too and starts none, but has by then stopped each of these
-- runs, where the saves succeed and the runs end before the deadline of the wait: a group that lives has
-- been sent SIGTERM, and a run whose group is gone has been published as stopped.
pub replace-IsLost :
    (w : World) (a : StopAnswer) (polls : List Poll) (m m' : Manager) (c : CommandDefinition)
    (stack_run_id : Text) (values overlay : List (Text × Text)) (r : Run) (rs : List Run)
    (e : ParamError)
    → c.concurrency_policy ≡ replace
    → active_runs_for_command m c.id ≡ r ∷ rs
    → AreRows m (r ∷ rs)
    → All (λ s. active s ≡ true) (r ∷ rs)
    → a.saved ≡ true
    → wait_command_stopped c.id polls ≡ some m'
    → resolve_command_parameters w.is_number c.parameters values ≡ err e
    → (restart_command_with_parameters w a polls m c c values ≡ failed_with m [] (bad_parameters e))
      × IsLost a m' (r ∷ rs) e (start_command_locked w a polls m c stack_run_id values overlay)
unfolding start_command_locked restart_command_with_parameters
replace-IsLost w a polls m m' c stack_run_id values overlay r rs e rule busy rows on saved gone
      wrong =
    let run : start_command_locked w a polls m c stack_run_id values overlay
        ≡ after_effects (stop_each a m (r ∷ rs)).1 (failed_with m' [] (bad_parameters e)) =
      rw (rule, busy, gone, wrong) refl in
    let stopped_runs = stop_each-HasStopped a m (r ∷ rs) saved rows on in
    (
      ap (restart_resolved w a polls m c c) wrong,
      rw run (record {
        stopped_all =
            subst (λ es. All (HasStopped a es) (r ∷ rs))
              (sym (append-nil (stop_each a m (r ∷ rs)).1)) stopped_runs;
        left = refl;
        no_run = refl;
        reported = refl;
      }),
    )
