-- ===== src/Runs/Manager/Flags.antt =====
-- The maps of the manager agree with the table of runs.
use agent_shell.Base.{
  Text, text_eq, text_eq_iff, contains, lookup, ◌≡◌, Bool, true, false, Option, none, some, List,
  [], ◌∷◌, arith, if◌then◌else◌, Bool-cases, Option-cases, lookup-insert, ℕ, inl, inr, map_some, ℤ,
  refl, add_id, drop_id, contains-add_id, contains-drop_id,
}
use agent_shell.Runs.Manager.{
  Manager, save_run, group_alive, stop, stopped_run, stopping_run, kill_after_grace, end_status,
  wait_end, update_run_observation, update_run_port_verifications, ended_run, update_run,
}
use agent_shell.Runs.Run.{
  Run, stopping, active, Readiness, ExpectedPort, PortVerification, not_known,
}

abbrev pub is_stopping : Option Run → Bool
is_stopping none = false
is_stopping (some r) = elim r.status [ stopping ↦ true | _ ↦ false ]

-- Each row stands at its own id, and an id is flagged as stopping exactly when its run has the status
-- stopping.
pub record Agrees (runs : List (Text × Run)) (ids : List Text) : Type 0 where
  pub at_id : (id : Text) (r : Run) → lookup id runs ≡ some r → r.id ≡ id
  pub agree : (id : Text) → contains ids id ≡ is_stopping (lookup id runs)

abbrev pub FlagsAgree : Manager → Type 0
FlagsAgree m = Agrees m.runs m.stopping_ids

-- Saving a run and changing the flag of its id together.
pub saved-FlagsAgree :
    (m : Manager) (r : Run) (ids : List Text)
    → FlagsAgree m
    → ((x : Text)
        → contains ids x
          ≡ (if text_eq r.id x then is_stopping (some r) else contains m.stopping_ids x))
    → Agrees (save_run r m).runs ids
saved-FlagsAgree m r ids f flags = record {
  at_id =
      λ id s e. ground (arith, lookup-insert r.id id r m.runs, text_eq_iff r.id id, f.at_id id s);
  agree = λ id. ground (arith, lookup-insert r.id id r m.runs, flags id, f.agree id);
}

forgotten :
    (m : Manager) (id x : Text)
    → contains (drop_id id m.stopping_ids) x
      ≡ (if text_eq id x then false else contains m.stopping_ids x)
forgotten m id x = ground (arith, contains-drop_id id x m.stopping_ids)

-- A stop whose save succeeds keeps the flags in agreement.
pub stop-FlagsAgree :
    (m : Manager) (id reason : Text) (now : ℕ) (alive : ℕ → Bool)
    → FlagsAgree m
    → FlagsAgree (stop m id reason now alive true).0
unfolding stop
stop-FlagsAgree m id reason now alive f = elim (Option-cases (lookup id m.runs)) [
  | inl missing ↦ rw missing f
  | inr (r, found) ↦
      let same = f.at_id id r found in
      elim (Bool-cases (active r)) [
        | inr idle ↦ rw (found, idle) f
        | inl busy ↦ elim (Bool-cases (group_alive alive r.process_group_id)) [
          | inr dead ↦
              rw (found, busy, dead)
                (saved-FlagsAgree m (stopped_run reason now r) (drop_id id m.stopping_ids) f
                  (λ x. rw same (forgotten m id x)))
          | inl live ↦
              rw (found, busy, live)
                (saved-FlagsAgree m (stopping_run reason r) (add_id id m.stopping_ids) f
                  (λ x. rw same (ground (arith, contains-add_id id x m.stopping_ids))))
        ]
      ]
]

-- So does the end of a wait whose save succeeds.
pub wait_end-FlagsAgree :
    (m : Manager) (id : Text) (wait_failed : Bool) (code : ℤ) (now : ℕ)
    → FlagsAgree m
    → FlagsAgree (wait_end m id wait_failed code now true).0
unfolding wait_end
wait_end-FlagsAgree m id wait_failed code now f = elim (Option-cases (lookup id m.runs)) [
  | inl missing ↦ rw missing (record {
    at_id = f.at_id;
    agree = λ x. ground (arith, forgotten m id x, f.agree x, f.agree id, text_eq_iff id x, missing);
  })
  | inr (r, found) ↦
      let same = f.at_id id r found in
      let s =
        end_status (contains m.stopping_ids id) (contains m.force_killed id) wait_failed code in
      rw found (
        saved-FlagsAgree m (ended_run s code now r) (drop_id id m.stopping_ids) f
          (λ x. rw same (ground (arith, forgotten m id x))))
]

pub lookup-update_run :
    (id x : Text) (g : Run → Run) (runs : List (Text × Run))
    → lookup x (update_run id g runs)
      ≡ (if text_eq id x then map_some g (lookup x runs) else lookup x runs)
unfolding lookup
lookup-update_run id x g [] = ground arith
lookup-update_run id x g ((k, r) ∷ runs) =
    ground
      (arith, text_eq_iff k id, text_eq_iff k x, text_eq_iff id x, lookup-update_run id x g runs)

-- A column update that leaves the id and the status alone.
pub updated-FlagsAgree :
    (m : Manager) (id : Text) (g : Run → Run)
    → ((r : Run) → ((g r).id ≡ r.id) × ((g r).status ≡ r.status))
    → FlagsAgree m
    → Agrees (update_run id g m.runs) m.stopping_ids
updated-FlagsAgree m id g keeps f = record {
  at_id = λ x r e. elim (Option-cases (lookup x m.runs)) [
    | inl missing ↦ ground (arith, lookup-update_run id x g m.runs)
    | inr (s, found) ↦ ground (arith, lookup-update_run id x g m.runs, f.at_id x s found, keeps s)
  ];
  agree = λ x. elim (Option-cases (lookup x m.runs)) [
    | inl missing ↦ ground (arith, lookup-update_run id x g m.runs, f.agree x)
    | inr (s, found) ↦ ground (arith, lookup-update_run id x g m.runs, f.agree x, keeps s)
  ];
}

pub update_run_observation-FlagsAgree :
    (m : Manager) (id : Text) (readiness : Readiness)
    → FlagsAgree m
    → FlagsAgree (update_run_observation m id readiness)
unfolding update_run_observation
update_run_observation-FlagsAgree m id readiness f =
    updated-FlagsAgree m id (λ r. record r { readiness = readiness }) (λ r. (refl, refl)) f

pub update_run_port_verifications-FlagsAgree :
    (m : Manager) (id : Text) (expected : List ExpectedPort) (vs : List PortVerification)
    → FlagsAgree m
    → FlagsAgree (update_run_port_verifications m id expected vs)
unfolding update_run_port_verifications
update_run_port_verifications-FlagsAgree m id expected vs f =
    updated-FlagsAgree m id
      (λ r. record r { expected_ports = expected; port_verifications = vs; readiness = not_known })
      (λ r. (refl, refl)) f

-- The kill timer changes neither the table nor the flags of stopping.
pub kill_after_grace-FlagsAgree :
    (m : Manager) (id : Text) (pgid : ℕ) (alive : ℕ → Bool)
    → FlagsAgree m
    → FlagsAgree (kill_after_grace m id pgid alive).0
unfolding kill_after_grace
kill_after_grace-FlagsAgree m id pgid alive f = elim (Bool-cases (group_alive alive pgid)) [
  | inl there ↦ rw there f
  | inr gone ↦ rw gone f
]
