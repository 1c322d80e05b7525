-- ===== src/Visibility/Seen.antt =====
-- The normalisation of the visible workspaces and what is seen.
use agent_shell.Base.{
  Bool-cases, Text, text_eq, text_eq_iff, is_empty, trim_space, contains, ◌≡◌, refl, inl, inr,
  false, not, ◌&&◌, ◌||◌, List, [], ◌∷◌, map, arith, add_id, contains-add_id, subst, true,
}
use agent_shell.Visibility.{
  collect_visible, put_sorted, sort_texts, normalize_visible_in, visible_in_workspace,
}

contains-put_sorted :
    (x : Text) (ys : List Text) (w : Text)
    → contains (put_sorted x ys) w ≡ (text_eq x w || contains ys w)
unfolding contains
contains-put_sorted x [] w = refl
contains-put_sorted x (y ∷ ys) w = ground (arith, contains-put_sorted x ys w)

contains-sort_texts : (xs : List Text) (w : Text) → contains (sort_texts xs) w ≡ contains xs w
unfolding contains
contains-sort_texts [] w = refl
contains-sort_texts (x ∷ xs) w =
    ground (arith, contains-put_sorted x (sort_texts xs) w, contains-sort_texts xs w)

abbrev trimmed : List Text → List Text
trimmed xs = map trim_space xs

dropped_differs :
    (owner r w : Text)
    → is_empty w ≡ false
    → text_eq w owner ≡ false
    → (is_empty r || text_eq r owner) ≡ true
    → text_eq r w ≡ false
dropped_differs owner r w real other h = elim (Bool-cases (text_eq r w)) [
  | inr ne ↦ ne
  | inl same ↦
      let is : r ≡ w = (text_eq_iff r w).0 same in
      let h' = subst (λ z. (is_empty z || text_eq z owner) ≡ true) is h in
      absurd (ground (arith, h', real, other))
]

contains-collect_visible :
    (owner : Text) (seen xs : List Text) (w : Text)
    → is_empty w ≡ false
    → text_eq w owner ≡ false
    → contains (collect_visible owner seen xs) w
      ≡ (contains (trimmed xs) w && not (contains seen w))
unfolding contains collect_visible
contains-collect_visible owner seen [] w real other = refl
contains-collect_visible owner seen (raw ∷ xs) w real other =
    let same = text_eq_iff (trim_space raw) w in
    let rest = contains-collect_visible owner seen xs w real other in
    elim (Bool-cases (is_empty (trim_space raw) || text_eq (trim_space raw) owner)) [
      | inl no_use ↦
          let ne = dropped_differs owner (trim_space raw) w real other no_use in
          ground (arith, rest, ne, no_use)
      | inr useful ↦ elim (Bool-cases (contains seen (trim_space raw))) [
        | inl before ↦
            let again : text_eq (trim_space raw) w ≡ true → contains seen w ≡ true =
              λ e. subst (λ z. contains seen z ≡ true) (same.0 e) before in
            ground (arith, rest, again, before, useful)
        | inr fresh ↦
            let next =
              contains-collect_visible owner (add_id (trim_space raw) seen) xs w real other in
            let added = contains-add_id (trim_space raw) w seen in
            let same_fresh : text_eq (trim_space raw) w ≡ true → contains seen w ≡ false =
              λ e. subst (λ z. contains seen z ≡ false) (same.0 e) fresh in
            ground (arith, next, added, same_fresh, fresh, useful)
      ]
    ]

none_seen : (w : Text) → contains [] w ≡ false
unfolding contains
none_seen w = refl

-- A workspace sees an item after the normalisation of the workspaces exactly where it saw it by the
-- trimmed list: the normalisation, which drops blank texts, repetitions and the owner, and sorts, loses
-- no workspace and adds none.
pub visible_in_workspace-normalize_visible_in :
    (owner_id : Text) (visible_ids : List Text) (workspace_id : Text)
    → visible_in_workspace owner_id (normalize_visible_in owner_id visible_ids) workspace_id
      ≡ visible_in_workspace owner_id (map trim_space visible_ids) workspace_id
unfolding visible_in_workspace normalize_visible_in
visible_in_workspace-normalize_visible_in owner_id visible_ids workspace_id =
    let w = trim_space workspace_id in
    elim (Bool-cases (is_empty w)) [
      | inl blank ↦ ground (arith, blank)
      | inr real ↦ elim (Bool-cases (text_eq (trim_space owner_id) w)) [
        | inl own ↦ ground (arith, real, own)
        | inr foreign ↦
            let other : text_eq w (trim_space owner_id) ≡ false =
              ground
                (arith, text_eq_iff w (trim_space owner_id), text_eq_iff (trim_space owner_id) w) in
            let all_of = collect_visible (trim_space owner_id) [] visible_ids in
            let sorted = contains-sort_texts all_of w in
            let kept = contains-collect_visible (trim_space owner_id) [] visible_ids w real other in
            ground (arith, real, foreign, sorted, kept, none_seen w)
      ]
    ]
