-- ===== src/Stacks/Start/Planned.antt =====
-- The starts of startStack of internal/runtime/prerequisites.go, in their order.
use agent_shell.Base.{
  arith, true, false, Text, refl, All, ◌≡◌, Bool, Option, none, some, List, [], ◌∷◌, ◌++◌,
  if◌then◌else◌, map_some, sym, ap, ◌∙◌, subst,
}
use agent_shell.Stacks.Needed.{NeededStack}
use agent_shell.Stacks.Preflight.{
  StackAnswers, MembersError, Values, MembersOutcome, start_stack_members_only,
}
use agent_shell.Stacks.Start.{
  StartEvent, StackStart, StartRequest, members_began, came_up, itself_began, wait_stack_ready,
  began_events, start_itself, StackError, halted, waited, started_first, start_each,
  prerequisite_failed, members_failed,
}
use agent_shell.Stacks.Start.Checked.{HasPassed, SeenUp, HasBegun, start_HasBegun, ready_SeenUp}

-- What startStack does for a plan where nothing goes wrong.
abbrev pub planned_events : List NeededStack → Text → List StartEvent
planned_events [] id = itself_began id ∷ []
planned_events (n ∷ ns) id = members_began n.id ∷ came_up n.id ∷ planned_events ns id

module _ (is_number : Text → Bool) (answers : Text → StackAnswers) (r : StartRequest) where
  abbrev pub Confirmed : StartEvent → Type 0
  Confirmed (members_began id) = HasPassed is_number [] none (answers id)
  Confirmed (itself_began id) = HasPassed is_number r.values r.command_ids (answers id)
  Confirmed (came_up id) = SeenUp (answers id)

  -- The events are those of the plan up to a point, and all of them where there is no error.
  pub record FollowsPlan (planned : List StartEvent) (s : StackStart) : Type 0 where
    pub rest : List StartEvent
    pub on_plan : s.events ++ rest ≡ planned
    pub whole : s.error ≡ none → rest ≡ []
    pub confirmed : All Confirmed s.events

map_some-none {ℓ κ} :
    {A : Type ℓ} {B : Type κ} (f : A → B) (o : Option A) → map_some f o ≡ none → o ≡ none
map_some-none f none h = refl
map_some-none f (some a) h = absurd cc

module _ (is_number : Text → Bool) (answers : Text → StackAnswers) (r : StartRequest) where
  -- A start of members that ends what is done, with an error or as the last one of the plan.
  last_FollowsPlan :
      (values : Values) (selected : Option (List Text)) (id : Text) (o : MembersOutcome)
      (event : StartEvent) (more : List StartEvent) (s : StackStart) (began : Bool)
      → HasBegun is_number values selected (answers id) o
      → (HasPassed is_number values selected (answers id) → Confirmed is_number answers r event)
      → o.began ≡ began
      → s.events ≡ (if began then event ∷ [] else [])
      → (s.error ≡ none → (o.began ≡ true) × (more ≡ []))
      → FollowsPlan is_number answers r (event ∷ more) s
  last_FollowsPlan values selected id o event more s true h to_event b e last = record {
    rest = more;
    on_plan = ap (λ l. l ++ more) e;
    whole = λ n. (last n).1;
    confirmed =
        subst (λ l. All (Confirmed is_number answers r) l) (sym e) (to_event (h.passes b), tt);
  }
  last_FollowsPlan values selected id o event more s false h to_event b e last = record {
    rest = event ∷ more;
    on_plan = ap (λ l. l ++ event ∷ more) e;
    whole = λ n. absurd (ground (arith, (last n).0, b));
    confirmed = subst (λ l. All (Confirmed is_number answers r) l) (sym e) tt;
  }

  pub itself_FollowsPlan : FollowsPlan is_number answers r (itself_began r.stack_id ∷ []) (
      start_itself r.stack_id
        (start_stack_members_only is_number r.values (answers r.stack_id) r.command_ids))
  itself_FollowsPlan =
      let o = start_stack_members_only is_number r.values (answers r.stack_id) r.command_ids in
      let h = start_HasBegun is_number r.values r.command_ids (answers r.stack_id) in
      last_FollowsPlan r.values r.command_ids r.stack_id o (itself_began r.stack_id) []
        (start_itself r.stack_id o) o.began h (λ p. p) refl refl
        (λ n. (h.begins (map_some-none members_failed o.error n), refl))

  -- One stack of the plan, the members first and then the wait, and what comes behind it.
  waited-FollowsPlan :
      (n : NeededStack) (o : MembersOutcome) (result : Option StackError) (more : List StartEvent)
      (s : StackStart)
      → HasBegun is_number [] none (answers n.id) o
      → o.error ≡ none
      → wait_stack_ready (answers n.id).stack (answers n.id).rounds ≡ result
      → FollowsPlan is_number answers r more s
      → FollowsPlan is_number answers r
          (members_began n.id ∷ came_up n.id ∷ more)
          (waited n.id o result s)
  waited-FollowsPlan n o (some e) more s h fine w f =
      last_FollowsPlan [] none n.id o (members_began n.id) (came_up n.id ∷ more)
        (halted (began_events (members_began n.id) o) e) o.began h (λ p. p) refl refl
        (λ e. absurd cc)
  waited-FollowsPlan n o none more s h fine w f =
      let began : o.began ≡ true = h.begins fine in
      let seen = ready_SeenUp (answers n.id) (answers n.id).stack refl w in
      let events : began_events (members_began n.id) o ≡ members_began n.id ∷ [] = rw began refl in
      record {
        rest = f.rest;
        on_plan =
            ap (λ l. (l ++ came_up n.id ∷ s.events) ++ f.rest) events
            ∙ ap (λ l. members_began n.id ∷ came_up n.id ∷ l) f.on_plan;
        whole = f.whole;
        confirmed =
            subst (λ l. All (Confirmed is_number answers r) (l ++ came_up n.id ∷ s.events))
              (sym events) (h.passes began, (seen, f.confirmed));
      }

  started_FollowsPlan :
      (n : NeededStack) (o : MembersOutcome) (error : Option MembersError) (more : List StartEvent)
      (s : StackStart)
      → HasBegun is_number [] none (answers n.id) o
      → o.error ≡ error
      → FollowsPlan is_number answers r more s
      → FollowsPlan is_number answers r
          (members_began n.id ∷ came_up n.id ∷ more)
          (started_first n (answers n.id) o error s)
  started_FollowsPlan n o (some e) more s h k f =
      last_FollowsPlan [] none n.id o (members_began n.id) (came_up n.id ∷ more)
        (halted (began_events (members_began n.id) o) (prerequisite_failed n.name e)) o.began h
        (λ p. p) refl refl (λ e. absurd cc)
  started_FollowsPlan n o none more s h k f =
      waited-FollowsPlan n o (wait_stack_ready (answers n.id).stack (answers n.id).rounds) more s h
        k refl f

  pub each_FollowsPlan :
      (needed : List NeededStack) (own : StackStart)
      → FollowsPlan is_number answers r (itself_began r.stack_id ∷ []) own
      → FollowsPlan is_number answers r
          (planned_events needed r.stack_id)
          (start_each is_number answers needed own)
  unfolding start_each
  each_FollowsPlan [] own f = f
  each_FollowsPlan (n ∷ ns) own f =
      let o = start_stack_members_only is_number [] (answers n.id) none in
      started_FollowsPlan n o o.error (planned_events ns r.stack_id)
        (start_each is_number answers ns own) (start_HasBegun is_number [] none (answers n.id)) refl
        (each_FollowsPlan ns own f)
