-- ===== src/Http/Templates.antt =====
-- The body templates of a request in internal/domain/http.go: NormalizeHTTPBodyTemplates,
-- SwitchHTTPBodyTemplate, AddHTTPBodyTemplate, RemoveHTTPBodyTemplate, RenameHTTPBodyTemplate.
pub mod Valid
pub mod Edits
use agent_shell.Base.{
  leb, ◌==◌, if◌then◌else◌, length, keep, Text, lit, text_eq, is_empty, trim_space, contains, ℕ,
  ◌+◌, not, ◌||◌, Option, none, some, List, [], ◌∷◌, ◌++◌,
}
use agent_shell.Http.Request.{
  HttpError, unknown_template, duplicate_template, too_many_templates, template_id_required,
  template_name_required, keep_one_template,
}

pub record HttpBodyTemplate : Type 0 where
  pub id : Text
  pub name : Text
  pub body : Text

-- The results `body, templates, activeID`.
pub record Bodies : Type 0 where
  pub body : Text
  pub templates : List HttpBodyTemplate
  pub active_id : Text

abbrev pub max_http_body_templates : ℕ
max_http_body_templates = 20

abbrev pub ids : List HttpBodyTemplate → List Text
ids [] = []
ids (item ∷ items) = item.id ∷ ids items

abbrev or_template : Text → Text
or_template [] = lit "Template"
or_template (c ∷ s) = c ∷ s

abbrev cleaned : HttpBodyTemplate → HttpBodyTemplate
cleaned item = record {
  id = trim_space item.id;
  name = or_template (trim_space item.name);
  body = item.body;
}

-- The loop; `seen` holds exactly the ids of `out`.
unfoldable pub collect : List HttpBodyTemplate → List HttpBodyTemplate → List HttpBodyTemplate
collect out [] = out
collect out (item ∷ items) =
    let skip = collect out items in
    let out' = out ++ cleaned item ∷ [] in
    let more = collect out' items in
    if is_empty (trim_space item.id) || contains (ids out) (trim_space item.id)
    then skip
    else if leb max_http_body_templates (length out')
    then out'
    else more

-- `out[i].Body = body` at the first item with the id.
unfoldable pub set_body : Text → Text → List HttpBodyTemplate → List HttpBodyTemplate
set_body active body [] = []
set_body active body (item ∷ items) =
    if text_eq item.id active
    then record item { body = body } ∷ items
    else item ∷ set_body active body items

abbrev default_template : Text → HttpBodyTemplate
default_template body = record { id = lit "default"; name = lit "Default"; body = body }

-- What follows the loop.
abbrev activated : Text → Text → List HttpBodyTemplate → Bodies
activated body active [] = record {
  body = body;
  templates = default_template body ∷ [];
  active_id = lit "default";
}
activated body active (first ∷ items) =
    if contains (ids (first ∷ items)) active
    then record {
      body = body;
      templates = set_body active body (first ∷ items);
      active_id = active;
    }
    else record {
      body = body;
      templates = record first { body = body } ∷ items;
      active_id = first.id;
    }

unfoldable pub normalize_http_body_templates : Bodies → Bodies
unfolding collect set_body
normalize_http_body_templates b = activated b.body (trim_space b.active_id) (collect [] b.templates)

-- The body of the first template with the id.
unfoldable pub body_of : Text → List HttpBodyTemplate → Option Text
body_of id [] = none
body_of id (item ∷ items) = if text_eq item.id id then some item.body else body_of id items

abbrev switched : Bodies → Text → Option Text → Bodies × Option HttpError
switched b next none = (b, some unknown_template)
switched b next (some body) = (record b { body = body; active_id = next }, none)

unfoldable pub switch_http_body_template : Bodies → Text → Bodies × Option HttpError
switch_http_body_template b next =
    let n = normalize_http_body_templates b in
    switched n (trim_space next) (body_of (trim_space next) n.templates)

-- `fmt.Sprintf("Template %d", n)`: the decimal print of package fmt is an argument.
unfoldable pub add_http_body_template :
    (ℕ → Text) → Bodies → Text → Text → Text → Bodies × Option HttpError
add_http_body_template numbered b raw_id raw_name new_body =
    let n = normalize_http_body_templates b in
    let id = trim_space raw_id in
    let given = trim_space raw_name in
    let name = if is_empty given then numbered (length n.templates + 1) else given in
    if leb max_http_body_templates (length n.templates)
    then (n, some too_many_templates)
    else if is_empty id
    then (n, some template_id_required)
    else if contains (ids n.templates) id
    then (n, some duplicate_template)
    else (
      record {
        body = new_body;
        templates = n.templates ++ record { id = id; name = name; body = new_body } ∷ [];
        active_id = id;
      },
      none,
    )

abbrev without : Text → List HttpBodyTemplate → List HttpBodyTemplate
without id items = keep (λ item. not (text_eq item.id id)) items

-- `out[0]` once the active template is gone; the list is not empty then.
abbrev reactivated : Text → Bodies → List HttpBodyTemplate → Bodies
reactivated removed n [] = record n { templates = [] }
reactivated removed n (first ∷ items) =
    if text_eq n.active_id removed
    then record { body = first.body; templates = first ∷ items; active_id = first.id }
    else record n { templates = first ∷ items }

unfoldable pub remove_http_body_template : Bodies → Text → Bodies × Option HttpError
remove_http_body_template b raw_id =
    let n = normalize_http_body_templates b in
    let id = trim_space raw_id in
    let out = without id n.templates in
    if leb (length n.templates) 1
    then (n, some keep_one_template)
    else if length out == length n.templates
    then (n, some unknown_template)
    else (reactivated id n out, none)

unfoldable pub set_name : Text → Text → List HttpBodyTemplate → List HttpBodyTemplate
set_name id name [] = []
set_name id name (item ∷ items) =
    if text_eq item.id id
    then record item { name = name } ∷ items
    else item ∷ set_name id name items

unfoldable pub rename_http_body_template :
    List HttpBodyTemplate → Text → Text → List HttpBodyTemplate × Option HttpError
unfolding set_name
rename_http_body_template templates raw_id raw_name =
    let id = trim_space raw_id in
    let name = trim_space raw_name in
    if is_empty name
    then (templates, some template_name_required)
    else if contains (ids templates) id
    then (set_name id name templates, none)
    else (templates, some unknown_template)
