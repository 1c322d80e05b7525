-- ===== src/Runs/Manager/Offline.antt =====
-- What a start of the Runtime makes of the runs that an earlier one left.
use agent_shell.Base.{
  if◌then◌else◌, Bool-cases, All, Text, text_eq, text_eq_iff, contains, Distinct, lookup,
  lookup-insert, ℕ, zero, suc, take, ◌≡◌, ◌∙◌, ap, subst, ◌&&◌, refl, inl, inr, Bool, true, false,
  some, List, [], ◌∷◌, map, arith,
}
use agent_shell.Runs.Manager.{
  Manager, save_run, unsupervised, reconcile_one, reconcile_each, listed_runs, newest_first,
  reconcile,
}
use agent_shell.Runs.Run.{Run, active, unknown, failed, not_known}

abbrev pub run_ids_of : List Run → List Text
run_ids_of rs = map (λ r. r.id) rs

-- No two rows have the same id, and each row is found at its own.
pub record AreRows (m : Manager) (rs : List Run) : Type 0 where
  pub each_once : Distinct (run_ids_of rs)
  pub as_saved : All (λ r. lookup r.id m.runs ≡ some r) rs

unsupervised-idle : (alive : Bool) (now : ℕ) (r : Run) → active (unsupervised alive now r) ≡ false
unsupervised-idle true now r = refl
unsupervised-idle false now r = refl

unsupervised-id : (alive : Bool) (now : ℕ) (r : Run) → (unsupervised alive now r).id ≡ r.id
unsupervised-id true now r = refl
unsupervised-id false now r = refl

save_run-lookup :
    (m : Manager) (r : Run) (id x : Text)
    → r.id ≡ id
    → lookup x (save_run r m).runs ≡ (if text_eq id x then some r else lookup x m.runs)
save_run-lookup m r id x same = rw (← same) (lookup-insert r.id x r m.runs)

saved-All :
    (m : Manager) (s : Run) (id : Text) (rs : List Run)
    → s.id ≡ id
    → contains (run_ids_of rs) id ≡ false
    → All (λ r. lookup r.id m.runs ≡ some r) rs
    → All (λ r. lookup r.id (save_run s m).runs ≡ some r) rs
unfolding contains
saved-All m s id [] same fresh h = tt
saved-All m s id (r ∷ rs) same fresh (e, h) = (
  ground (arith, save_run-lookup m s id r.id same, text_eq_iff id r.id, text_eq_iff r.id id, e),
  saved-All m s id rs same (ground arith) h,
)

-- What becomes of a run in the loop.
abbrev left_as : (Run → Bool) → (Run → Bool) → ℕ → Bool → Run → Run
left_as alive saved now listed r =
    if listed && (active r && saved r) then unsupervised (alive r) now r else r

reconcile_one-lookup :
    (alive saved : Run → Bool) (now : ℕ) (r : Run) (m : Manager) (x : Text)
    → lookup r.id m.runs ≡ some r
    → lookup x (reconcile_one alive saved now r m).runs
      ≡ (if text_eq r.id x then some (left_as alive saved now true r) else lookup x m.runs)
reconcile_one-lookup alive saved now r m x here =
    let u = unsupervised (alive r) now r in
    let put = save_run-lookup m u r.id x (unsupervised-id (alive r) now r) in
    elim (Bool-cases (active r)) [
      | inr idle ↦ rw idle (ground (arith, here, text_eq_iff r.id x))
      | inl busy ↦ elim (Bool-cases (saved r)) [
        | inr lost ↦ rw (busy, lost) (ground (arith, here, text_eq_iff r.id x))
        | inl done ↦ rw (busy, done) put
      ]
    ]

reconcile_one-AreRows :
    (alive saved : Run → Bool) (now : ℕ) (r : Run) (rs : List Run) (m : Manager)
    → AreRows m (r ∷ rs)
    → AreRows (reconcile_one alive saved now r m) rs
unfolding contains
reconcile_one-AreRows alive saved now r rs m a =
    let (fresh, once) = a.each_once in
    let (here, rows) = a.as_saved in
    elim (Bool-cases (active r)) [
      | inr idle ↦ rw idle (record { each_once = once; as_saved = rows })
      | inl busy ↦ elim (Bool-cases (saved r)) [
        | inr lost ↦ rw (busy, lost) (record { each_once = once; as_saved = rows })
        | inl done ↦
            rw (busy, done)
              (record {
                each_once = once;
                as_saved =
                    saved-All m (unsupervised (alive r) now r) r.id rs
                      (unsupervised-id (alive r) now r) fresh rows;
              })
      ]
    ]

reconcile_each-lookup :
    (alive saved : Run → Bool) (now : ℕ) (rs : List Run) (m : Manager)
    → AreRows m rs
    → (id : Text) (r : Run) → lookup id m.runs ≡ some r
    → lookup id (reconcile_each alive saved now rs m).runs
      ≡ some (left_as alive saved now (contains (run_ids_of rs) id) r)
unfolding reconcile_each contains
reconcile_each-lookup alive saved now [] m a id r e = e
reconcile_each-lookup alive saved now (s ∷ rs) m a id r e =
    let next = reconcile_one-AreRows alive saved now s rs m a in
    let one = reconcile_one-lookup alive saved now s m id a.as_saved.0 in
    elim (Bool-cases (text_eq s.id id)) [
      | inr other ↦
          let kept : lookup id (reconcile_one alive saved now s m).runs ≡ some r =
            one ∙ rw other e in
          rw other (
            reconcile_each-lookup alive saved now rs (reconcile_one alive saved now s m) next id r
              kept)
      | inl same ↦
          let is : s.id ≡ id = (text_eq_iff s.id id).0 same in
          let row : lookup id m.runs ≡ some s =
            subst (λ i. lookup i m.runs ≡ some s) is a.as_saved.0 in
          let as_found : s ≡ r = ground (arith, row, e) in
          let left : lookup id (reconcile_one alive saved now s m).runs
              ≡ some (left_as alive saved now true r) =
            one ∙ rw same (ap (λ q. some (left_as alive saved now true q)) as_found) in
          let over : contains (run_ids_of rs) id ≡ false =
            subst (λ i. contains (run_ids_of rs) i ≡ false) is a.each_once.0 in
          let rest =
            reconcile_each-lookup alive saved now rs (reconcile_one alive saved now s m) next id
              (left_as alive saved now true r) left in
          rw same (rest ∙ rw over refl)
    ]

contains-take :
    (n : ℕ) (rs : List Run) (x : Text)
    → contains (run_ids_of rs) x ≡ false
    → contains (run_ids_of (take n rs)) x ≡ false
unfolding contains
contains-take zero rs x h = refl
contains-take (suc n) [] x h = refl
contains-take (suc n) (r ∷ rs) x h = ground (arith, contains-take n rs x)

take-AreRows : (n : ℕ) (m : Manager) (rs : List Run) → AreRows m rs → AreRows m (take n rs)
take-AreRows zero m rs a = record { each_once = tt; as_saved = tt }
take-AreRows (suc n) m [] a = record { each_once = tt; as_saved = tt }
take-AreRows (suc n) m (r ∷ rs) a =
    let (fresh, once) = a.each_once in
    let (here, rows) = a.as_saved in
    let rest = take-AreRows n m rs (record { each_once = once; as_saved = rows }) in
    record {
      each_once = (contains-take n rs r.id fresh, rest.each_once);
      as_saved = (here, rest.as_saved);
    }

-- A run that the Runtime cannot supervise: it is not active and not ready; unknown if its process is
-- there, and failed, with an end, if it is not.
pub record IsUnsupervised (there : Bool) (now : ℕ) (r s : Run) : Type 0 where
  pub status : s.status ≡ (if there then unknown else failed)
  pub end : s.ended_at ≡ (if there then r.ended_at else some now)
  pub idle : active s ≡ false
  pub unready : s.readiness ≡ not_known
  pub same_id : s.id ≡ r.id
  pub group_kept : s.process_group_id ≡ r.process_group_id

unsupervised-IsUnsupervised :
    (there : Bool) (now : ℕ) (r : Run) → IsUnsupervised there now r (unsupervised there now r)
unsupervised-IsUnsupervised true now r = record {
  status = refl;
  end = refl;
  idle = refl;
  unready = refl;
  same_id = refl;
  group_kept = refl;
}
unsupervised-IsUnsupervised false now r = record {
  status = refl;
  end = refl;
  idle = refl;
  unready = refl;
  same_id = refl;
  group_kept = refl;
}

-- Whether a run is among the thousand newest, is active, and is saved.
abbrev pub is_picked : Manager → (Run → Bool) → Bool → Text → Run → Bool
is_picked m saved answered id r =
    answered && (contains (run_ids_of (listed_runs m)) id && (active r && saved r))

-- Where no two rows of the table have the same id, a reconciliation makes a run unsupervised exactly
-- where the query succeeds, the run is among the thousand newest, it is active and its save succeeds. It
-- leaves every other run as it is, also one that is active and older, or that could not be saved.
pub reconcile-IsUnsupervised :
    (alive saved : Run → Bool) (now : ℕ) (answered : Bool) (m : Manager)
    → AreRows m (newest_first m.runs)
    → (id : Text) (r : Run) → lookup id m.runs ≡ some r
    → (s : Run) × (lookup id (reconcile alive saved now answered m).runs ≡ some s)
      × (is_picked m saved answered id r ≡ true → IsUnsupervised (alive r) now r s)
      × (is_picked m saved answered id r ≡ false → s ≡ r)
unfolding reconcile
reconcile-IsUnsupervised alive saved now false m a id r e =
    (r, e, (λ picked. absurd (ground arith)), λ _. refl)
reconcile-IsUnsupervised alive saved now true m a id r e =
    let found =
      reconcile_each-lookup alive saved now (listed_runs m) m
        (take-AreRows 1000 m (newest_first m.runs) a) id r e in
    (
      left_as alive saved now (contains (run_ids_of (listed_runs m)) id) r,
      found,
      (λ picked. rw picked (unsupervised-IsUnsupervised (alive r) now r)),
      λ left. rw left refl,
    )
