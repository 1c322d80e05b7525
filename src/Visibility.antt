-- ===== src/Visibility.antt =====
-- The workspaces that see an item: internal/domain/visibility.go. The order of texts is that of their
-- code points, as it is for their bytes.
pub mod Seen
use agent_shell.Base.{
  ltb, ◌==◌, if◌then◌else◌, add_id, Text, lit, text_eq, is_empty, trim_space, CaseTable, to_lower,
  contains, Bool, true, false, ◌&&◌, ◌||◌, List, [], ◌∷◌,
}

abbrev product_kind : Text
product_kind = lit "product"

abbrev focus_kind : Text
focus_kind = lit "focus"

unfoldable pub normalize_project_kind : CaseTable → Text → Text
unfolding to_lower
normalize_project_kind t kind =
    let k = to_lower t (trim_space kind) in
    if is_empty k || text_eq k product_kind
    then product_kind
    else if text_eq k focus_kind
    then focus_kind
    else trim_space kind

unfoldable pub project_can_own_catalog : CaseTable → Text → Bool
unfolding normalize_project_kind
project_can_own_catalog t kind = text_eq (normalize_project_kind t kind) product_kind

-- The loop of NormalizeVisibleIn; `owner` is trimmed.
unfoldable pub collect_visible : Text → List Text → List Text → List Text
unfolding contains
collect_visible owner seen [] = []
collect_visible owner seen (raw ∷ ids_left) =
    elim (is_empty (trim_space raw) || text_eq (trim_space raw) owner) [
      | true ↦ collect_visible owner seen ids_left
      | false ↦ elim (contains seen (trim_space raw)) [
        | true ↦ collect_visible owner seen ids_left
        | false ↦ trim_space raw ∷ collect_visible owner (add_id (trim_space raw) seen) ids_left
      ]
    ]

abbrev pub text_leb : Text → Text → Bool
text_leb [] t = true
text_leb (a ∷ s) [] = false
text_leb (a ∷ s) (b ∷ t) = ltb a b || a == b && text_leb s t

abbrev pub put_sorted : Text → List Text → List Text
put_sorted x [] = x ∷ []
put_sorted x (y ∷ ys) = let rest = put_sorted x ys in if text_leb x y then x ∷ y ∷ ys else y ∷ rest

-- sort.Strings
abbrev pub sort_texts : List Text → List Text
sort_texts [] = []
sort_texts (x ∷ xs) = put_sorted x (sort_texts xs)

unfoldable pub normalize_visible_in : Text → List Text → List Text
unfolding collect_visible
normalize_visible_in owner_id visible_ids =
    sort_texts (collect_visible (trim_space owner_id) [] visible_ids)

unfoldable pub visible_in_workspace : Text → List Text → Text → Bool
unfolding contains
visible_in_workspace owner_id visible_in workspace_id =
    let w = trim_space workspace_id in
    if is_empty w
    then true
    else if text_eq (trim_space owner_id) w
    then true
    else contains visible_in w

pub data Origin : Type 0 where
  owned referenced : Origin

unfoldable pub visibility_origin : Text → Text → Origin
visibility_origin owner_id workspace_id =
    let w = trim_space workspace_id in
    if is_empty w || text_eq (trim_space owner_id) w then owned else referenced
