-- ===== src/Runs/Trace/Sound.antt =====
-- An invariant of the steps of the manager.
use agent_shell.Base.{
  ◌==◌, Bool-cases, Text, text_eq, text_eq_iff, contains, lookup, lookup-insert, ◌≡◌, inl, inr,
  Bool, true, false, some, List, arith, refl, insert, sym, ◌∙◌, subst, ◌∷◌,
}
use agent_shell.Runs.Manager.{Manager, save_run}
use agent_shell.Runs.Manager.Flags.{is_stopping}
use agent_shell.Runs.Run.{Run, starting, running, stopping}

-- What the table says of a run, given whether a goroutine waits for it.
abbrev pub fits : Bool → Run → Bool
fits waited r = elim r.status [
  | starting ↦ r.process_group_id == 0
  | running ↦ waited
  | stopping ↦ waited
  | _ ↦ true
]

-- Each row stands at its own id. But for stale ids, a run that is running or stopping has a goroutine
-- that waits for it, and one that is starting has no process group; and an id that is flagged has a run
-- with the status stopping.
pub record Sound (stale : List Text) (runs : List (Text × Run)) (ids waiters : List Text)
    : Type 0 where
  pub at_id : (id : Text) (r : Run) → lookup id runs ≡ some r → r.id ≡ id
  pub fit :
      (id : Text) (r : Run)
      → contains stale id ≡ false
      → lookup id runs ≡ some r
      → fits (contains waiters id) r ≡ true
  pub flag :
      (id : Text)
      → contains stale id ≡ false
      → contains ids id ≡ true
      → is_stopping (lookup id runs) ≡ true

abbrev pub IsSound : List Text → Manager → Type 0
IsSound stale m = Sound stale m.runs m.stopping_ids m.waiters

pub contains-cons_false :
    (y x : Text) (ys : List Text)
    → contains (y ∷ ys) x ≡ false
    → (text_eq y x ≡ false) × (contains ys x ≡ false)
unfolding contains
contains-cons_false y x ys h = ground arith

pub self_stale {ℓ} : {A : Type ℓ} (y : Text) (ys : List Text) → contains (y ∷ ys) y ≡ false → A
self_stale y ys h = absurd (ground (arith, contains-cons_false y y ys h, text_eq_iff y y))

pub more_stale :
    (y : Text) (stale : List Text) (runs : List (Text × Run)) (ids ws : List Text)
    → Sound stale runs ids ws
    → Sound (y ∷ stale) runs ids ws
more_stale y stale runs ids ws f = record {
  at_id = f.at_id;
  fit = λ id r c e. f.fit id r (contains-cons_false y id stale c).1 e;
  flag = λ id c k. f.flag id (contains-cons_false y id stale c).1 k;
}

pub lookup-insert_hit :
    (r : Run) (id : Text) (runs : List (Text × Run))
    → text_eq r.id id ≡ true
    → lookup id (insert r.id r runs) ≡ some r
lookup-insert_hit r id runs same = lookup-insert r.id id r runs ∙ rw same refl

lookup-insert_miss :
    (r : Run) (id : Text) (runs : List (Text × Run))
    → text_eq r.id id ≡ false
    → lookup id (insert r.id r runs) ≡ lookup id runs
lookup-insert_miss r id runs other = lookup-insert r.id id r runs ∙ rw other refl

pub saved-Sound :
    (stale : List Text) (m : Manager) (r : Run) (ids ws : List Text)
    → IsSound stale m
    → ((x : Text) → text_eq r.id x ≡ false → contains ids x ≡ contains m.stopping_ids x)
    → ((x : Text) → text_eq r.id x ≡ false → contains ws x ≡ contains m.waiters x)
    → (contains stale r.id ≡ false → fits (contains ws r.id) r ≡ true)
    → (contains stale r.id ≡ false → contains ids r.id ≡ true → is_stopping (some r) ≡ true)
    → Sound stale (save_run r m).runs ids ws
saved-Sound stale m r flags ws f same_ids same_ws fit flag = record {
  at_id = λ id s e. elim (Bool-cases (text_eq r.id id)) [
    | inl same ↦ ground (arith, lookup-insert_hit r id m.runs same, text_eq_iff r.id id)
    | inr other ↦ ground (arith, lookup-insert_miss r id m.runs other, f.at_id id s)
  ];
  fit = λ id s u e. elim (Bool-cases (text_eq r.id id)) [
    | inl same ↦
        let here : s ≡ r = ground (arith, lookup-insert_hit r id m.runs same, e) in
        let is : id ≡ r.id = sym ((text_eq_iff r.id id).0 same) in
        let u' : contains stale r.id ≡ false = subst (λ i. contains stale i ≡ false) is u in
        rw (here, is) (fit u')
    | inr other ↦
        rw (same_ws id other)
          (f.fit id s u (ground (arith, lookup-insert_miss r id m.runs other, e)))
  ];
  flag = λ id u c. elim (Bool-cases (text_eq r.id id)) [
    | inl same ↦
        let is : r.id ≡ id = (text_eq_iff r.id id).0 same in
        let u' : contains stale r.id ≡ false = subst (λ i. contains stale i ≡ false) (sym is) u in
        rw (lookup-insert_hit r id m.runs same) (flag u' (rw is c))
    | inr other ↦
        rw (lookup-insert_miss r id m.runs other) (f.flag id u (sym (same_ids id other) ∙ c))
  ];
}

-- A copy that is saved over a row makes its id stale.
pub stale_saved-Sound :
    (stale : List Text) (m : Manager) (r : Run) (ids ws : List Text)
    → IsSound stale m
    → ((x : Text) → text_eq r.id x ≡ false → contains ids x ≡ contains m.stopping_ids x)
    → ((x : Text) → text_eq r.id x ≡ false → contains ws x ≡ contains m.waiters x)
    → Sound (r.id ∷ stale) (save_run r m).runs ids ws
stale_saved-Sound stale m r ids ws f same_ids same_ws =
    saved-Sound (r.id ∷ stale) m r ids ws (more_stale r.id stale m.runs m.stopping_ids m.waiters f)
      same_ids same_ws (λ u. self_stale r.id stale u) (λ u c. self_stale r.id stale u)
