-- ===== src/Runs/Trace/Life.antt =====
-- The life of a run as a machine of its own, and that the Manager of internal/runtime/manager.go keeps
-- to it.
use agent_shell.Base.{
  Text, contains, lookup, ◌≡◌, refl, subst, Bool, true, false, not, ◌&&◌, some, arith,
}
use agent_shell.Runs.Run.{RunStatus, Run, is_active}
use agent_shell.Runs.Trace.{Traced, Step, Reach, step}
use agent_shell.Runs.Trace.Changes.{
  Change, Life, Follows, kept, Step-stale, Step-Follows, spawns, misses, asks, halts, dies, same,
  change,
}
use agent_shell.Runs.Trace.Invariant.{Reach-IsSound}
use agent_shell.Runs.Trace.Waited.{is_waited, Reach-AllWaited}

-- Steps from one state to a later one.
pub data Steps (t : Traced) : Traced → Type 0 where
  none_yet : Steps t t
  then_step : (s s' : Traced) → Steps t s → Step s s' → Steps t s'

Steps-Reach : (t s : Traced) → Reach t → Steps t s → Reach s
Steps-Reach t _ before none_yet = before
Steps-Reach t _ before (then_step s s' more st) = step s s' (Steps-Reach t s before more) st

Life-trans : (s t u : RunStatus) → Life s t → Life t u → Life s u
Life-trans s t _ a same = a
Life-trans s t _ a (change v u b c) = change v u (Life-trans s t v a b) c

-- Completed, failed, killed and unknown.
abbrev pub is_final : RunStatus → Bool
is_final s = not (is_active s) && not (is_waited s)

no-Change : (s t : RunStatus) → is_final s ≡ true → Change s t → ⊥
no-Change _ _ e spawns = cc
no-Change _ _ e misses = cc
no-Change _ _ e asks = cc
no-Change _ _ e (halts s busy) = ground arith
no-Change _ _ e (dies s t waited dead) = ground arith

Life-final : (s t : RunStatus) → is_final s ≡ true → Life s t → t ≡ s
Life-final s _ e same = refl
Life-final s _ e (change t u life c) =
    absurd (no-Change s u e (subst (λ v. Change v u) (Life-final s t e life) c))

Steps-Follows_each :
    (t s : Traced)
    → Reach t
    → Steps t s
    → (x : Text) (r : Run) → contains s.stale x ≡ false
    → lookup x t.manager.runs ≡ some r
    → Follows r (lookup x s.manager.runs)
Steps-Follows_each t _ before none_yet x r u e = kept r _ e
Steps-Follows_each t _ before (then_step s s' more st) x r u e =
    let old = Steps-Follows_each t s before more x r (Step-stale s s' x st u) e in
    let reached = Steps-Reach t s before more in
    let next =
      Step-Follows s s' st (Reach-IsSound s reached) (Reach-AllWaited s reached) x old.after u
        old.row in
    record {
      after = next.after;
      row = next.row;
      life = Life-trans r.status old.after.status next.after.status old.life next.life;
    }

-- Whatever steps the Manager makes from a state that it can be in, in any order, each run whose id is
-- not stale at the end stays in the table, and its status goes the way of the machine: from starting to
-- running or failed where its Start goes on, from running to stopping where a stop is asked for, to
-- stopped where a stop finds nothing left to stop, and to an end where the process ends, which only
-- happens while the run is running, stopping or stopped. So such a run that is completed, failed or
-- killed keeps its status. An id is stale only if Restart has saved its copy of the run, if the second
-- part of a Start has saved the run after its row had changed, or if the save at the end of its wait has
-- failed.
pub Steps-Follows :
    (t s : Traced)
    → Reach t
    → Steps t s
    → (x : Text) (r : Run) → contains s.stale x ≡ false
    → lookup x t.manager.runs ≡ some r
    → (f : Follows r (lookup x s.manager.runs)) × (is_final r.status ≡ true
        → f.after.status ≡ r.status)
Steps-Follows t s before steps x r u e =
    let f = Steps-Follows_each t s before steps x r u e in
    (f, λ final. Life-final r.status f.after.status final f.life)
