-- ===== src/Env/Layers/Profiles.antt =====
-- Which environment a stack and its members are in.
use agent_shell.Base.{
  All, Text, text_eq_iff, ◌≡◌, refl, ◌≢◌, ◌↔◌, List, [], ◌∷◌, arith, Bool-cases, text_eq, is_empty,
  trim_space, trim_space_idem, trim_space-nil, sym, inl, inr, false, map,
}
use agent_shell.Env.Layers.{
  StackMember, stack_resolved_environment, member_environment_name, resolved_from, Stack,
  apply_stack_environment, remap_deleted_environment, unpin, unpinned,
}
use agent_shell.Env.Names.{reserved_environment_name}

-- Every member resolves to one environment.
abbrev pub Agree : Text → Text → List StackMember → Type 0
Agree base stack_env members =
    All (λ m. member_environment_name stack_env m.environment ≡ base) members

resolved_from-Agree :
    (base stack_env : Text) (members : List StackMember)
    → base ≢ reserved_environment_name
    → (resolved_from base stack_env members ≡ base) ↔ Agree base stack_env members
resolved_from-Agree base stack_env [] h = (λ _. tt, λ _. refl)
resolved_from-Agree base stack_env (m ∷ members) h = ground (
  arith,
  text_eq_iff (member_environment_name stack_env m.environment) base,
  resolved_from-Agree base stack_env members h,
)

-- The stack shows its own environment exactly when every member resolves to it.
pub stack_resolved_environment_iff :
    (stack_env : Text) (members : List StackMember)
    → member_environment_name stack_env [] ≢ reserved_environment_name
    → (stack_resolved_environment stack_env members ≡ member_environment_name stack_env [])
      ↔ Agree (member_environment_name stack_env []) stack_env members
unfolding stack_resolved_environment
stack_resolved_environment_iff stack_env members h =
    resolved_from-Agree (member_environment_name stack_env []) stack_env members h

apply_agrees :
    (name : Text) (members : List StackMember)
    → is_empty (trim_space name) ≡ false
    → Agree (trim_space name) (trim_space name) (map unpin members)
unfolding member_environment_name
apply_agrees name [] h = tt
apply_agrees name (m ∷ members) h =
    (ground (arith, trim_space_idem name, trim_space-nil), apply_agrees name members h)

-- After a non-blank environment is applied to a stack, the stack and each member resolve to it.
pub apply_stack_environment-resolves :
    (stack : Stack) (name : Text)
    → is_empty (trim_space name) ≡ false
    → (member_environment_name (apply_stack_environment stack name).environment []
        ≡ trim_space name)
      × Agree
          (trim_space name)
          (apply_stack_environment stack name).environment
          (apply_stack_environment stack name).members
unfolding apply_stack_environment member_environment_name
apply_stack_environment-resolves stack name h =
    (ground (arith, trim_space_idem name, trim_space-nil), apply_agrees name stack.members h)

-- Nothing of the stack names the environment.
pub record Forgets (deleted : Text) (stack : Stack) : Type 0 where
  pub own : stack.environment ≢ deleted
  pub pins : All (λ m. m.environment ≢ deleted) stack.members

unpinned-forgets :
    (deleted : Text) (members : List StackMember)
    → deleted ≢ []
    → All (λ m. m.environment ≢ deleted) (map (unpinned deleted) members)
unpinned-forgets deleted [] h = tt
unpinned-forgets deleted (m ∷ members) h = (
  elim (Bool-cases (text_eq m.environment deleted)) [
    | inl same ↦ rw same (λ e. h (sym e))
    | inr other ↦ rw other (λ e. ground (arith, text_eq_iff m.environment deleted))
  ],
  unpinned-forgets deleted members h,
)

-- Once a named environment is deleted and remapped to another one, nothing of the stack names it.
pub remap_deleted_environment-Forgets :
    (stack : Stack) (deleted fallback : Text)
    → deleted ≢ []
    → fallback ≢ deleted
    → Forgets deleted (remap_deleted_environment stack deleted fallback)
unfolding remap_deleted_environment
remap_deleted_environment-Forgets stack deleted fallback h k = record {
  own = ground (arith, text_eq_iff stack.environment deleted);
  pins = unpinned-forgets deleted stack.members h;
}

unpinned_kept :
    (deleted : Text) (members : List StackMember)
    → All (λ m. m.environment ≢ deleted) members
    → map (unpinned deleted) members ≡ members
unpinned_kept deleted [] h = refl
unpinned_kept deleted (m ∷ members) (e, h) =
    ground (arith, text_eq_iff m.environment deleted, unpinned_kept deleted members h)

-- A stack that does not name the deleted environment stays as it is.
pub remap_deleted_environment_kept :
    (stack : Stack) (deleted fallback : Text)
    → Forgets deleted stack
    → remap_deleted_environment stack deleted fallback ≡ stack
unfolding remap_deleted_environment
remap_deleted_environment_kept stack deleted fallback f =
    let members = unpinned_kept deleted stack.members f.pins in
    let other : text_eq stack.environment deleted ≡ false =
      ground (arith, text_eq_iff stack.environment deleted) in
    rw (other, members)
