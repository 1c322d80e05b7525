-- ===== src/Runs/Trace/Changes.antt =====
-- What one step of Runs.Trace does to a run of internal/runtime/manager.go: its status stays, or changes
-- in one of a few ways.
use agent_shell.Base.{
  Bool-cases, Option-cases, ℤ, Text, text_eq, text_eq_iff, contains, lookup, lookup-insert, ℕ, ◌≡◌,
  refl, sym, ap, ◌∙◌, subst, inl, inr, Bool, true, false, Option, some, List, arith,
}
use agent_shell.Runs.Manager.{
  Manager, save_run, group_alive, stopped_run, stopping_run, stop_found, stop, kill_after_grace,
  end_status, ended_run, wait_end, update_run, update_run_observation,
  update_run_port_verifications,
}
use agent_shell.Runs.Manager.Flags.{lookup-update_run}
use agent_shell.Runs.Run.{
  RunStatus, Run, is_active, active, starting, running, stopping, completed, failed, stopped,
  killed, not_known,
}
use agent_shell.Runs.Start.{Os, new_run, spawn_failed, spawn_done, launch}
use agent_shell.Runs.Trace.{
  Traced, Step, begins, goes_on, goes_on_late, ends_unsaved, resaves, starts, stops, times_out,
  ends, observes, verifies,
}
use agent_shell.Runs.Trace.Sound.{fits, IsSound, contains-cons_false}
use agent_shell.Runs.Trace.Waited.{is_waited, AllWaited}
use agent_shell.Runs.Trace.Kept.{other_kept, late-kept, start_run-kept}

-- The statuses that a process ends with.
abbrev pub is_end : RunStatus → Bool
is_end completed = true
is_end failed = true
is_end stopped = true
is_end killed = true
is_end _ = false

-- The process of a Start is there or not, a stop is asked for, it finds nothing left to stop, or the
-- process ends.
pub data Change : RunStatus → RunStatus → Type 0 where
  spawns : Change starting running
  misses : Change starting failed
  asks : Change running stopping
  halts : (s : RunStatus) → is_active s ≡ true → Change s stopped
  dies : (s t : RunStatus) → is_waited s ≡ true → is_end t ≡ true → Change s t

-- Any number of changes.
pub data Life (s : RunStatus) : RunStatus → Type 0 where
  same : Life s s
  change : (t u : RunStatus) → Life s t → Change t u → Life s u

-- The row of a run after a step: it is there, and its status comes from the old one.
pub record Follows (r : Run) (o : Option Run) : Type 0 where
  pub after : Run
  pub row : o ≡ some after
  pub life : Life r.status after.status

-- The row is not touched.
pub kept : (r : Run) (o : Option Run) → o ≡ some r → Follows r o
kept r o e = record { after = r; row = e; life = same }

saved-Follows :
    (m : Manager) (s s' : Run) (x : Text)
    → lookup s'.id m.runs ≡ some s
    → (text_eq s'.id x ≡ true → Life s.status s'.status)
    → (r : Run) → lookup x m.runs ≡ some r
    → Follows r (lookup x (save_run s' m).runs)
saved-Follows m s s' x here life r there = elim (Bool-cases (text_eq s'.id x)) [
  | inl at ↦
      let is : s'.id ≡ x = (text_eq_iff s'.id x).0 at in
      let old : s ≡ r = ground arith in
      record {
        after = s';
        row = lookup-insert s'.id x s' m.runs ∙ rw at refl;
        life = subst (λ q. Life q.status s'.status) old (life at);
      }
  | inr other ↦ kept r _ (lookup-insert s'.id x s' m.runs ∙ rw other there)
]

-- A run with a live group is not starting, so a stop that is asked for is a change or none.
asked : (s : RunStatus) → is_active s ≡ true → is_waited s ≡ true → Life s stopping
asked running busy waited = change running stopping same asks
asked stopping busy waited = same
asked _ busy waited = absurd (ground arith)

live_waited :
    (r : Run) (waited : Bool) (alive : ℕ → Bool)
    → fits waited r ≡ true
    → active r ≡ true
    → group_alive alive r.process_group_id ≡ true
    → is_waited r.status ≡ true
live_waited r waited alive fit busy live = ground arith

module _ (stale : List Text) (m : Manager) (sound : IsSound stale m) (x : Text)
    (fresh_row : contains stale x ≡ false) (r : Run) (there : lookup x m.runs ≡ some r) where
  -- The id of the row is not stale.
  row_fresh :
      (id : Text) (s : Run)
      → lookup id m.runs ≡ some s
      → text_eq s.id x ≡ true
      → contains stale id ≡ false
  row_fresh id s here at_row =
      subst (λ i. contains stale i ≡ false)
        (sym ((text_eq_iff s.id x).0 at_row) ∙ sound.at_id id s here) fresh_row

  stop_found-Follows :
      (id reason : Text) (now : ℕ) (alive : ℕ → Bool) (saved : Bool) (s : Run)
      → lookup id m.runs ≡ some s
      → Follows r (lookup x (stop_found m id reason now alive saved (some s)).0.runs)
  stop_found-Follows id reason now alive saved s here =
      let at : lookup s.id m.runs ≡ some s =
        ap (λ i. lookup i m.runs) (sound.at_id id s here) ∙ here in
      elim (Bool-cases (active s)) [
        | inr idle ↦ rw idle (kept r _ there)
        | inl busy ↦ elim (Bool-cases (group_alive alive s.process_group_id)) [
          | inr dead ↦ elim (Bool-cases saved) [
            | inr lost ↦ rw (busy, dead, lost) (kept r _ there)
            | inl done ↦
                rw (busy, dead, done)
                  (saved-Follows m s (stopped_run reason now s) x at
                    (λ _. change s.status stopped same (halts s.status busy)) r there)
          ]
          | inl live ↦ elim (Bool-cases saved) [
            | inr lost ↦ rw (busy, live, lost) (kept r _ there)
            | inl done ↦
                rw (busy, live, done)
                  (saved-Follows m s (stopping_run reason s) x at
                    (λ same_id. asked s.status busy (
                      live_waited s (contains m.waiters id) alive
                        (sound.fit id s (row_fresh id s here same_id) here) busy live))
                    r there)
          ]
        ]
      ]

  stop-Follows :
      (id reason : Text) (now : ℕ) (alive : ℕ → Bool) (saved : Bool)
      → Follows r (lookup x (stop m id reason now alive saved).0.runs)
  unfolding stop
  stop-Follows id reason now alive saved = elim (Option-cases (lookup id m.runs)) [
    | inl missing ↦ rw missing (kept r _ there)
    | inr (s, here) ↦ rw here (stop_found-Follows id reason now alive saved s here)
  ]

  end_status-is_end :
      (stop_asked forced bad : Bool) (code : ℤ)
      → is_end (end_status stop_asked forced bad code) ≡ true
  end_status-is_end stop_asked forced bad code = ground arith

  wait_end-Follows :
      AllWaited stale m
      → (id : Text) (bad : Bool) (code : ℤ) (now : ℕ) → contains m.waiters id ≡ true
      → Follows r (lookup x (wait_end m id bad code now true).0.runs)
  unfolding wait_end
  wait_end-Follows held id bad code now c = elim (Option-cases (lookup id m.runs)) [
    | inl missing ↦ rw missing (kept r _ there)
    | inr (s, here) ↦
        let at : lookup s.id m.runs ≡ some s =
          ap (λ i. lookup i m.runs) (sound.at_id id s here) ∙ here in
        let t = end_status (contains m.stopping_ids id) (contains m.force_killed id) bad code in
        let dead =
          end_status-is_end (contains m.stopping_ids id) (contains m.force_killed id) bad code in
        rw here (
          saved-Follows m s (ended_run t code now s) x at
            (λ same_id. change s.status t same (
              dies s.status t (ground (arith, held id (row_fresh id s here same_id) c, here)) dead))
            r there)
  ]

  -- A save that fails leaves the rows.
  unsaved_end-Follows :
      (id : Text) (bad : Bool) (code : ℤ) (now : ℕ)
      → Follows r (lookup x (wait_end m id bad code now false).0.runs)
  unfolding wait_end
  unsaved_end-Follows id bad code now = elim (Option-cases (lookup id m.runs)) [
    | inl missing ↦ rw missing (kept r _ there)
    | inr (s, here) ↦ rw here (kept r _ there)
  ]

  goes_on-Follows :
      (os : Os) (s : Run)
      → lookup s.id m.runs ≡ some s
      → s.status ≡ starting
      → Follows r (lookup x (launch os s m).manager.runs)
  goes_on-Follows os s here new =
      let first : (t : RunStatus) → Change starting t → Life s.status t =
        λ t c. change s.status t same (subst (λ u. Change u t) (sym new) c) in
      elim (Option-cases os.spawned) [
        | inl nothing ↦
            rw nothing
              (saved-Follows m s (spawn_failed os s) x here (λ _. first failed misses) r there)
        | inr (pid, spawned) ↦ elim (Bool-cases os.saved_running) [
          | inr unsaved ↦ rw (spawned, unsaved) (kept r _ there)
          | inl done ↦
              rw (spawned, done)
                (saved-Follows m s (spawn_done pid s) x here (λ _. first running spawns) r there)
        ]
      ]

  updated-Follows :
      (id : Text) (g : Run → Run)
      → ((s : Run) → (g s).status ≡ s.status)
      → Follows r (lookup x (update_run id g m.runs))
  updated-Follows id g keeps = elim (Bool-cases (text_eq id x)) [
    | inl at ↦ record {
      after = g r;
      row = lookup-update_run id x g m.runs ∙ rw (at, there) refl;
      life = subst (λ s. Life r.status s) (sym (keeps r)) same;
    }
    | inr other ↦ kept r _ (lookup-update_run id x g m.runs ∙ rw other there)
  ]

-- An id that is not stale was not stale before.
pub Step-stale :
    (t t' : Traced) (x : Text)
    → Step t t'
    → contains t'.stale x ≡ false
    → contains t.stale x ≡ false
Step-stale t _ x (starts os spec fresh) u = u
Step-stale t _ x (begins os spec cwd fresh) u = u
Step-stale t _ x (goes_on os r here new) u = u
Step-stale t _ x (goes_on_late os r) u = (contains-cons_false r.id x t.stale u).1
Step-stale t _ x (stops id why now alive saved) u = u
Step-stale t _ x (times_out id pgid alive) u = u
Step-stale t _ x (ends id bad code now c) u = u
Step-stale t _ x (ends_unsaved id bad code now) u = (contains-cons_false id x t.stale u).1
Step-stale t _ x (resaves r) u = (contains-cons_false r.id x t.stale u).1
Step-stale t _ x (observes id readiness) u = u
Step-stale t _ x (verifies id expected vs) u = u

pub Step-Follows :
    (t t' : Traced)
    → Step t t'
    → IsSound t.stale t.manager
    → AllWaited t.stale t.manager
    → (x : Text) (r : Run) → contains t'.stale x ≡ false
    → lookup x t.manager.runs ≡ some r
    → Follows r (lookup x t'.manager.runs)
unfolding update_run_observation update_run_port_verifications kill_after_grace
Step-Follows t _ (starts os spec fresh) f a x r u e =
    kept r _ (start_run-kept t.manager x r e os spec fresh)
Step-Follows t _ (begins os spec cwd fresh) f a x r u e =
    let ne : text_eq os.new_id x ≡ false = ground (arith, text_eq_iff os.new_id x, fresh, e) in
    kept r _ (other_kept t.manager x r e (new_run os spec cwd) t.manager ne e)
Step-Follows t _ (goes_on os s here new) f a x r u e =
    goes_on-Follows t.stale t.manager f x u r e os s here new
Step-Follows t _ (goes_on_late os s) f a x r u e =
    let (ne, u') = contains-cons_false s.id x t.stale u in
    kept r _ (late-kept t.manager x r e os s ne)
Step-Follows t _ (stops id why now alive saved) f a x r u e =
    stop-Follows t.stale t.manager f x u r e id why now alive saved
Step-Follows t _ (times_out id pgid alive) f a x r u e =
    elim (Bool-cases (group_alive alive pgid)) [
      | inl live ↦ rw live (kept r _ e)
      | inr gone ↦ rw gone (kept r _ e)
    ]
Step-Follows t _ (ends id bad code now c) f a x r u e =
    wait_end-Follows t.stale t.manager f x u r e a id bad code now c
Step-Follows t _ (ends_unsaved id bad code now) f a x r u e =
    unsaved_end-Follows t.stale t.manager f x (contains-cons_false id x t.stale u).1 r e id bad code
      now
Step-Follows t _ (resaves s) f a x r u e =
    let (ne, u') = contains-cons_false s.id x t.stale u in
    kept r _ (other_kept t.manager x r e s t.manager ne e)
Step-Follows t _ (observes id readiness) f a x r u e =
    updated-Follows t.stale t.manager f x u r e id (λ s. record s { readiness = readiness })
      (λ s. refl)
Step-Follows t _ (verifies id expected vs) f a x r u e =
    updated-Follows t.stale t.manager f x u r e id
      (λ s. record s { expected_ports = expected; port_verifications = vs; readiness = not_known })
      (λ s. refl)
