-- ===== src/Stacks/Waves/Accounts.antt =====
-- The maps of the loop account for each member.
use agent_shell.Base.{
  add_id, drop_id, contains-add_id, contains-drop_id, Text, text_eq, contains, ℕ, zero, suc, ◌≡◌,
  refl, Bool, true, false, ◌||◌, List, [], ◌∷◌, ◌++◌, arith,
}
use agent_shell.Env.Layers.{StackMember}
use agent_shell.Http.Templates.{ids}
use agent_shell.Stacks.Order.{command_ids}
use agent_shell.Stacks.Waves.{
  Attempt, Progress, skip, sweep, run_ids, try_all, succeed, lose, settle, round, waves, add_ids,
  first_progress, tried,
}
use agent_shell.Stacks.Waves.Cases.{
  sweep_cases, settle_cases, round_cases, waves_cases, over, waits, blocked, first_ready,
  next_ready, good, bad_result, ended, none_eligible, some_eligible, finished, goes_on, breaks,
}

pub record Accounts (ids : List Text) (p : Progress) : Type 0 where
  pub somewhere :
      (x : Text)
      → contains ids x ≡ true
      → (contains p.pending x || (contains p.succeeded x || contains p.failures x)) ≡ true
  pub apart :
      (x : Text)
      → contains p.pending x ≡ true
      → (contains p.succeeded x || contains p.failures x) ≡ false
  pub from_ids : (x : Text) → contains p.pending x ≡ true → contains ids x ≡ true

-- Taking an id out of `pending` into one of the two others.
moved-Accounts :
    (ids : List Text) (p p' : Progress) (id : Text)
    → p'.pending ≡ drop_id id p.pending
    → ((x : Text)
        → (contains p'.succeeded x || contains p'.failures x)
          ≡ (text_eq id x || (contains p.succeeded x || contains p.failures x)))
    → Accounts ids p
    → Accounts ids p'
moved-Accounts ids p p' id e moved a = record {
  somewhere = λ x h. rw e (ground (arith, contains-drop_id id x p.pending, moved x, a.somewhere x));
  apart = λ x h. ground (arith, contains-drop_id id x p.pending, moved x, a.apart x, rw e at h);
  from_ids = λ x h. ground (arith, contains-drop_id id x p.pending, a.from_ids x, rw e at h);
}

pub skip-Accounts :
    (ids : List Text) (m : StackMember) (p : Progress) → Accounts ids p → Accounts ids (skip m p)
skip-Accounts ids m p a =
    moved-Accounts ids p (skip m p) m.command_id refl
      (λ x. ground (arith, contains-add_id m.command_id x p.failures)) a

lose-Accounts :
    (ids : List Text) (m : StackMember) (p : Progress) → Accounts ids p → Accounts ids (lose m p)
lose-Accounts ids m p a =
    moved-Accounts ids p (lose m p) m.command_id refl
      (λ x. ground (arith, contains-add_id m.command_id x p.failures)) a

succeed-Accounts :
    (ids : List Text) (m : StackMember) (p : Progress) → Accounts ids p → Accounts ids (succeed m p)
succeed-Accounts ids m p a =
    moved-Accounts ids p (succeed m p) m.command_id refl
      (λ x. ground (arith, contains-add_id m.command_id x p.succeeded)) a

pub sweep-Accounts :
    (ids : List Text) (sequential : Bool) (ms : List StackMember) (p : Progress)
    → Accounts ids p
    → Accounts ids (sweep sequential ms p).0
unfolding sweep
sweep-Accounts ids sequential [] p a = a
sweep-Accounts ids sequential (m ∷ ms) p a = elim (sweep_cases sequential m ms p) [
  | over _ e ↦ rw e (sweep-Accounts ids sequential ms p a)
  | waits _ _ e ↦ rw e (sweep-Accounts ids sequential ms p a)
  | blocked _ _ e ↦ rw e (sweep-Accounts ids sequential ms (skip m p) (skip-Accounts ids m p a))
  | first_ready _ _ e ↦ rw e a
  | next_ready _ _ e ↦ rw e (sweep-Accounts ids sequential ms p a)
]

try_all-Accounts :
    (ids : List Text) (attempt : StackMember → Attempt) (ms : List StackMember) (p : Progress)
    → Accounts ids p
    → Accounts ids (try_all attempt ms p)
unfolding try_all
try_all-Accounts ids attempt [] p a = a
try_all-Accounts ids attempt (m ∷ ms) p a =
    try_all-Accounts ids attempt ms
      (record p { out = p.out ++ run_ids (attempt m).run_id; history = tried m ∷ p.history })
      (record { somewhere = a.somewhere; apart = a.apart; from_ids = a.from_ids })

settle-Accounts :
    (ids : List Text) (halts : Bool) (attempt : StackMember → Attempt) (ms : List StackMember)
    (p : Progress)
    → Accounts ids p
    → Accounts ids (settle halts attempt ms p).0
unfolding settle
settle-Accounts ids halts attempt [] p a = a
settle-Accounts ids halts attempt (m ∷ ms) p a = elim (settle_cases halts attempt m ms p) [
  | good _ e ↦
      rw e (settle-Accounts ids halts attempt ms (succeed m p) (succeed-Accounts ids m p a))
  | bad_result _ _ e ↦
      rw e (settle-Accounts ids halts attempt ms (lose m p) (lose-Accounts ids m p a))
  | ended _ _ e ↦ rw e (lose-Accounts ids m p a)
]

pub round-Accounts :
    (ids : List Text) (sequential halts : Bool) (attempt : StackMember → Attempt)
    (members : List StackMember) (p : Progress)
    → Accounts ids p
    → Accounts ids (round sequential halts attempt members p).0
round-Accounts ids sequential halts attempt members p a =
    let p1 = (sweep sequential members p).0 in
    let a1 = sweep-Accounts ids sequential members p a in
    elim (round_cases sequential halts attempt members p) [
      | none_eligible _ e ↦ rw e a1
      | some_eligible m ms found e ↦ rw e (
          settle-Accounts ids halts attempt (m ∷ ms) (try_all attempt (m ∷ ms) p1)
            (try_all-Accounts ids attempt (m ∷ ms) p1 a1))
    ]

pub waves-Accounts :
    (ids : List Text) (fuel : ℕ) (sequential halts : Bool) (attempt : StackMember → Attempt)
    (members : List StackMember) (p : Progress)
    → Accounts ids p
    → Accounts ids (waves fuel sequential halts attempt members p).0
unfolding waves
waves-Accounts ids zero sequential halts attempt members p a = a
waves-Accounts ids (suc fuel) sequential halts attempt members p a =
    let r = round-Accounts ids sequential halts attempt members p a in
    elim (waves_cases fuel sequential halts attempt members p) [
      | finished _ e ↦ rw e a
      | goes_on _ _ e ↦ rw e (
          waves-Accounts ids fuel sequential halts attempt members
            (round sequential halts attempt members p).0 r)
      | breaks _ _ _ e ↦ rw e r
    ]

contains-add_ids :
    (xs ids : List Text) (x : Text)
    → contains (add_ids xs ids) x ≡ (contains xs x || contains ids x)
unfolding contains
contains-add_ids [] ids x = refl
contains-add_ids (y ∷ xs) ids x =
    ground (arith, contains-add_ids xs (add_id y ids) x, contains-add_id y x ids)

pub first_progress-Accounts :
    (members : List StackMember) → Accounts (command_ids members) (first_progress members)
unfolding contains
first_progress-Accounts members = record {
  somewhere = λ x h. ground (arith, contains-add_ids (command_ids members) [] x);
  apart = λ x h. refl;
  from_ids = λ x h. ground (arith, contains-add_ids (command_ids members) [] x);
}
