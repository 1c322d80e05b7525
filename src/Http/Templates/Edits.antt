-- ===== src/Http/Templates/Edits.antt =====
-- Switching, adding and removing a template leave the templates valid.
use agent_shell.Base.{
  leb, ◌==◌, if◌then◌else◌, Bool-cases, Option-cases, length, length-append, length-keep, All, Text,
  text_eq, text_eq_refl, text_eq_iff, is_empty, trim_space, trim_space_idem, contains, Distinct, ℕ,
  ◌+◌, ◌≤◌, ◌<◌, ◌≡◌, refl, ◌∙◌, inl, inr, false, not, some, List, [], ◌∷◌, ◌++◌, arith,
}
use agent_shell.Http.Templates.{
  HttpBodyTemplate, Bodies, max_http_body_templates, ids, normalize_http_body_templates, body_of,
  switch_http_body_template, add_http_body_template, remove_http_body_template, without,
  reactivated,
}
use agent_shell.Http.Templates.Valid.{
  IsValid, IsId, AreTemplates, snoc-AreTemplates, body_of-first, IsValid-of_ids,
  normalize_http_body_templates-IsValid, templates-AreTemplates,
}

-- A switch, whether it finds its template or not, leaves valid templates and changes none of them.
pub switch_http_body_template-IsValid :
    (b : Bodies) (next : Text)
    → IsValid (switch_http_body_template b next).0
      × ((switch_http_body_template b next).0.templates
          ≡ (normalize_http_body_templates b).templates)
unfolding switch_http_body_template
switch_http_body_template-IsValid b next =
    let n = normalize_http_body_templates b in
    let v = normalize_http_body_templates-IsValid b in
    elim (Option-cases (body_of (trim_space next) n.templates)) [
      | inl missing ↦ rw missing (v, refl)
      | inr (body, found) ↦ rw found (
        IsValid-of_ids (record n { body = body; active_id = trim_space next }) n.templates
            (templates-AreTemplates v) v.some_template refl found,
        refl,
      )
    ]

body_of-snoc :
    (xs : List HttpBodyTemplate) (x : HttpBodyTemplate)
    → contains (ids xs) x.id ≡ false
    → body_of x.id (xs ++ x ∷ []) ≡ some x.body
unfolding body_of contains
body_of-snoc [] x h = ground (arith, text_eq_refl x.id)
body_of-snoc (y ∷ xs) x h = ground (arith, body_of-snoc xs x)

added-IsValid :
    (n : Bodies) (x : HttpBodyTemplate)
    → IsValid n
    → length n.templates < max_http_body_templates
    → IsId x.id
    → contains (ids n.templates) x.id ≡ false
    → IsValid (record { body = x.body; templates = n.templates ++ x ∷ []; active_id = x.id })
added-IsValid n x v room i fresh =
    IsValid-of_ids (record { body = x.body; templates = n.templates ++ x ∷ []; active_id = x.id })
      (n.templates ++ x ∷ [])
      (snoc-AreTemplates n.templates x (templates-AreTemplates v) room i fresh)
      (omega (arith, length-append n.templates (x ∷ []))) refl (body_of-snoc n.templates x fresh)

-- Adding a template, also when it is refused, leaves valid templates.
pub add_http_body_template-IsValid :
    (numbered : ℕ → Text) (b : Bodies) (raw_id raw_name new_body : Text)
    → IsValid (add_http_body_template numbered b raw_id raw_name new_body).0
unfolding add_http_body_template
add_http_body_template-IsValid numbered b raw_id raw_name new_body =
    let n = normalize_http_body_templates b in
    let v = normalize_http_body_templates-IsValid b in
    let given = trim_space raw_name in
    let name = if is_empty given then numbered (length n.templates + 1) else given in
    elim (Bool-cases (leb max_http_body_templates (length n.templates))) [
      | inl full ↦ rw full v
      | inr room ↦ elim (Bool-cases (is_empty (trim_space raw_id))) [
        | inl blank ↦ rw (room, blank) v
        | inr filled ↦ elim (Bool-cases (contains (ids n.templates) (trim_space raw_id))) [
          | inl known ↦ rw (room, filled, known) v
          | inr fresh ↦
              rw (room, filled, fresh)
                (added-IsValid n (record { id = trim_space raw_id; name = name; body = new_body }) v
                  (ground arith) (filled, trim_space_idem raw_id) fresh)
        ]
      ]
    ]

contains-ids-without :
    (id x : Text) (xs : List HttpBodyTemplate)
    → contains (ids xs) x ≡ false
    → contains (ids (without id xs)) x ≡ false
unfolding contains
contains-ids-without id x [] h = refl
contains-ids-without id x (y ∷ xs) h = ground (arith, contains-ids-without id x xs)

without_fresh :
    (id : Text) (xs : List HttpBodyTemplate) → contains (ids xs) id ≡ false → without id xs ≡ xs
unfolding contains
without_fresh id [] h = refl
without_fresh id (y ∷ xs) h = ground (arith, without_fresh id xs)

length-without :
    (id : Text) (xs : List HttpBodyTemplate)
    → Distinct (ids xs)
    → length xs ≤ length (without id xs) + 1
length-without id [] d = omega arith
length-without id (y ∷ xs) (fresh, d) =
    ground (arith, text_eq_iff y.id id, without_fresh id xs, length-without id xs d)

without-AreTemplates :
    (id : Text) (xs : List HttpBodyTemplate) → AreTemplates xs → AreTemplates (without id xs)
without-AreTemplates id xs a = record {
  distinct = distinct xs a.distinct;
  named = named xs a.named;
  few =
      omega
        (arith, length-keep {0} (λ (item : HttpBodyTemplate). not (text_eq item.id id)) xs, a.few);
}
  where
    distinct : (ys : List HttpBodyTemplate) → Distinct (ids ys) → Distinct (ids (without id ys))
    distinct [] d = tt
    distinct (y ∷ ys) (fresh, d) =
        ground (arith, distinct ys d, contains-ids-without id y.id ys fresh)

    named : (ys : List HttpBodyTemplate) → All IsId (ids ys) → All IsId (ids (without id ys))
    named [] h = tt
    named (y ∷ ys) (h, hs) = ground (arith, named ys hs)

body_of-without :
    (id x : Text) (xs : List HttpBodyTemplate)
    → text_eq x id ≡ false
    → body_of x (without id xs) ≡ body_of x xs
unfolding body_of
body_of-without id x [] h = refl
body_of-without id x (y ∷ xs) h =
    ground
      (arith, text_eq_iff y.id x, text_eq_iff y.id id, text_eq_iff x id, body_of-without id x xs h)

reactivated-IsValid :
    (id : Text) (n : Bodies) (out : List HttpBodyTemplate)
    → AreTemplates out
    → 1 ≤ length out
    → (text_eq n.active_id id ≡ false → body_of n.active_id out ≡ some n.body)
    → IsValid (reactivated id n out)
reactivated-IsValid id n [] a filled active = absurd (omega arith)
reactivated-IsValid id n (x ∷ xs) a filled active = elim (Bool-cases (text_eq n.active_id id)) [
  | inl gone ↦ rw gone (
      IsValid-of_ids (record { body = x.body; templates = x ∷ xs; active_id = x.id }) (x ∷ xs) a
        filled refl (body_of-first x xs))
  | inr kept ↦
      rw kept
        (IsValid-of_ids (record n { templates = x ∷ xs }) (x ∷ xs) a filled refl (active kept))
]

-- Removing a template, also when it is refused, leaves valid templates: the last one is kept, and
-- where the active one goes the first one left takes its place.
pub remove_http_body_template-IsValid :
    (b : Bodies) (raw_id : Text) → IsValid (remove_http_body_template b raw_id).0
unfolding remove_http_body_template
remove_http_body_template-IsValid b raw_id =
    let n = normalize_http_body_templates b in
    let v = normalize_http_body_templates-IsValid b in
    let id = trim_space raw_id in
    let out = without id n.templates in
    elim (Bool-cases (leb (length n.templates) 1)) [
      | inl last ↦ rw last v
      | inr several ↦ elim (Bool-cases (length out == length n.templates)) [
        | inl missing ↦ rw (several, missing) v
        | inr fewer ↦
            rw (several, fewer)
              (reactivated-IsValid id n out
                (without-AreTemplates id n.templates (templates-AreTemplates v))
                (ground (arith, length-without id n.templates v.distinct))
                (λ kept. body_of-without id n.active_id n.templates kept ∙ v.active))
      ]
    ]
