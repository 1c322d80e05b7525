-- ===== src/Http/Templates/Valid.antt =====
-- The operations on body templates keep them valid.
use agent_shell.Base.{
  length, All, is_empty, trim_space, Distinct, ◌≤◌, ◌≡◌, false, some, leb, Bool-cases, or-false,
  length-append, All-append, Text, lit, text_eq_refl, trim_space_idem, contains, Distinct-snoc, suc,
  ◌<◌, refl, sym, ap, ◌∙◌, subst, inl, inr, true, ◌||◌, List, [], ◌∷◌, ◌++◌, arith,
}
use agent_shell.Http.Templates.{
  Bodies, max_http_body_templates, ids, body_of, HttpBodyTemplate, collect, set_body,
  normalize_http_body_templates, cleaned, default_template, activated,
}

-- Between 1 and 20 templates with trimmed, non-blank, distinct ids, one of which is active; the
-- request's body is the active template's.
pub record IsValid (b : Bodies) : Type 0 where
  pub distinct : Distinct (ids b.templates)
  pub named : All (λ i. (is_empty i ≡ false) × (trim_space i ≡ i)) (ids b.templates)
  pub some_template : 1 ≤ length b.templates
  pub few : length b.templates ≤ max_http_body_templates
  pub active : body_of b.active_id b.templates ≡ some b.body

ids-append : (xs ys : List HttpBodyTemplate) → ids (xs ++ ys) ≡ ids xs ++ ids ys
ids-append [] ys = refl
ids-append (x ∷ xs) ys = ap (λ r. x.id ∷ r) (ids-append xs ys)

length-ids : (xs : List HttpBodyTemplate) → length (ids xs) ≡ length xs
length-ids [] = refl
length-ids (x ∷ xs) = ap suc (length-ids xs)

abbrev pub IsId : Text → Type 0
IsId i = (is_empty i ≡ false) × (trim_space i ≡ i)

pub record AreTemplates (xs : List HttpBodyTemplate) : Type 0 where
  pub distinct : Distinct (ids xs)
  pub named : All IsId (ids xs)
  pub few : length xs ≤ max_http_body_templates

pub snoc-AreTemplates :
    (out : List HttpBodyTemplate) (item : HttpBodyTemplate)
    → AreTemplates out
    → length out < max_http_body_templates
    → IsId item.id
    → contains (ids out) item.id ≡ false
    → AreTemplates (out ++ item ∷ [])
snoc-AreTemplates out item a room i fresh = record {
  distinct =
      subst Distinct (sym (ids-append out (item ∷ [])))
        (Distinct-snoc (ids out) item.id a.distinct fresh);
  named =
      subst (All IsId) (sym (ids-append out (item ∷ [])))
        (All-append IsId (ids out) (item.id ∷ []) a.named (i, tt));
  few = omega (arith, length-append out (item ∷ []));
}

collect-AreTemplates :
    (out items : List HttpBodyTemplate)
    → AreTemplates out
    → length out < max_http_body_templates
    → AreTemplates (collect out items)
unfolding collect
collect-AreTemplates out [] a room = a
collect-AreTemplates out (item ∷ items) a room =
    elim (Bool-cases (is_empty (trim_space item.id) || contains (ids out) (trim_space item.id))) [
      | inl skipped ↦ rw skipped (collect-AreTemplates out items a room)
      | inr taken ↦
          let (filled, fresh) = or-false _ _ taken in
          let a' =
            snoc-AreTemplates out (cleaned item) a room (filled, trim_space_idem item.id) fresh in
          elim (Bool-cases (leb max_http_body_templates (length (out ++ cleaned item ∷ [])))) [
            | inl full ↦ rw (taken, full) a'
            | inr room' ↦
                rw (taken, room')
                  (collect-AreTemplates (out ++ cleaned item ∷ []) items a' (ground arith))
          ]
    ]

ids-set_body :
    (active body : Text) (xs : List HttpBodyTemplate) → ids (set_body active body xs) ≡ ids xs
unfolding set_body
ids-set_body active body [] = refl
ids-set_body active body (x ∷ xs) = ground (arith, ids-set_body active body xs)

body_of-set_body :
    (active body : Text) (xs : List HttpBodyTemplate)
    → contains (ids xs) active ≡ true
    → body_of active (set_body active body xs) ≡ some body
unfolding body_of set_body contains
body_of-set_body active body [] h = cc
body_of-set_body active body (x ∷ xs) h = ground (arith, body_of-set_body active body xs)

pub body_of-first :
    (x : HttpBodyTemplate) (xs : List HttpBodyTemplate) → body_of x.id (x ∷ xs) ≡ some x.body
unfolding body_of
body_of-first x xs = ground (arith, text_eq_refl x.id)

-- The ids decide all of validity but the active template.
pub IsValid-of_ids :
    (b : Bodies) (xs : List HttpBodyTemplate)
    → AreTemplates xs
    → 1 ≤ length xs
    → ids b.templates ≡ ids xs
    → body_of b.active_id b.templates ≡ some b.body
    → IsValid b
IsValid-of_ids b xs a filled same active =
    let len : length b.templates ≡ length xs =
      sym (length-ids b.templates) ∙ ap length same ∙ length-ids xs in
    record {
      distinct = subst Distinct (sym same) a.distinct;
      named = subst (All IsId) (sym same) a.named;
      some_template = omega (arith, a.few);
      few = omega (arith, a.few);
      active = active;
    }

default_template-IsId : IsId (lit "default")
unfolding trim_space
default_template-IsId = (refl, refl)

activated-IsValid :
    (body active : Text) (xs : List HttpBodyTemplate)
    → AreTemplates xs
    → IsValid (activated body active xs)
activated-IsValid body active [] a = record {
  distinct = (unfold contains in refl, tt);
  named = (default_template-IsId, tt);
  some_template = omega arith;
  few = omega arith;
  active = body_of-first (default_template body) [];
}
activated-IsValid body active (x ∷ xs) a = elim (Bool-cases (contains (ids (x ∷ xs)) active)) [
  | inl found ↦ rw found (
      IsValid-of_ids
        (record { body = body; templates = set_body active body (x ∷ xs); active_id = active })
        (x ∷ xs) a (omega arith) (ids-set_body active body (x ∷ xs))
        (body_of-set_body active body (x ∷ xs) found))
  | inr missing ↦ rw missing (
      IsValid-of_ids
        (record { body = body; templates = record x { body = body } ∷ xs; active_id = x.id })
        (x ∷ xs) a (omega arith) refl (body_of-first (record x { body = body }) xs))
]

-- Whatever templates a request comes with, the normalised ones are valid.
pub normalize_http_body_templates-IsValid : (b : Bodies) → IsValid (normalize_http_body_templates b)
unfolding normalize_http_body_templates
normalize_http_body_templates-IsValid b =
    activated-IsValid b.body (trim_space b.active_id) (collect [] b.templates) (
      collect-AreTemplates [] b.templates (record { distinct = tt; named = tt; few = omega arith })
        (omega arith))

pub templates-AreTemplates : {b : Bodies} → IsValid b → AreTemplates b.templates
templates-AreTemplates v = record { distinct = v.distinct; named = v.named; few = v.few }
