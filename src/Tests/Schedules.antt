-- ===== src/Tests/Schedules.antt =====
-- Schedules and orders of small stacks.
use agent_shell.Base.{
  if◌then◌else◌, pos, Text, lit, text_eq, lookup, ok, ℕ, ◌≡◌, refl, true, false, none, some, List,
  [], ◌∷◌, arith, insert, All, lookup-All, fails_with, Result, reverse,
}
use agent_shell.Env.Layers.{StackMember}
use agent_shell.Stacks.Halt.{stop_stack}
use agent_shell.Stacks.Halt.Ordered.{is_stop_order, recorded, stop_stack-IsStopOrder}
use agent_shell.Stacks.Order.{by_id, stack_dependency_order, command_ids}
use agent_shell.Stacks.Order.Found.{IsRanked, stack_dependency_order_found, IsBelow}
use agent_shell.Stacks.Order.Fuel.{runs_out, stack_dependency_order_fuel}
use agent_shell.Stacks.Order.Sorted.{is_ordered}
use agent_shell.Stacks.Order.Sorted.Visits.{IsOrderOf, stack_dependency_order-IsOrderOf}
use agent_shell.Stacks.Selection.{with_defaults, member_table, stack_members_for_start}
use agent_shell.Stacks.Selection.Enough.{is_no_levels, stack_members_for_start_fuel}
use agent_shell.Stacks.Selection.Kept.{StartsWhole, stack_members_for_start-IsWhole}
use agent_shell.Stacks.Waves.{Attempt, start_in_waves, no_error, cyclic_or_incomplete}
use agent_shell.Stacks.Waves.Ends.{runs_out_of_waves, start_in_waves_fuel}
use agent_shell.Stacks.Waves.Ordered.{start_in_waves-ordered}
use agent_shell.Stacks.Waves.Outcomes.{IsFinished, start_in_waves-IsFinished}
use agent_shell.Stacks.Waves.Safe.{is_safe, start_in_waves-IsSafe}

abbrev member : Text → List Text → StackMember
member id ids_before = record {
  command_id = id;
  position = 0;
  depends_on = ids_before;
  wait_for = lit "ready";
  wait_timeout_ms = pos 30000;
  environment = [];
  env = [];
}

abbrev db : StackMember
db = member (lit "db") []

abbrev api : StackMember
api = member (lit "api") (lit "db" ∷ [])

abbrev web : StackMember
web = member (lit "web") (lit "api" ∷ [])

abbrev shuffled : List StackMember
shuffled = db ∷ web ∷ api ∷ []

abbrev in_order : List StackMember
in_order = db ∷ api ∷ web ∷ []

abbrev all_good : StackMember → Attempt
all_good m = record { run_id = some m.command_id; start_error = no_error; wait_fails = false }

abbrev all_bad : StackMember → Attempt
all_bad m = record { run_id = some m.command_id; start_error = no_error; wait_fails = true }

-- Three waves, from an order that is not that of the dependencies.
shuffled_waves :
    (start_in_waves [] [] all_good shuffled).0.out ≡ lit "db" ∷ lit "api" ∷ lit "web" ∷ []
unfolding start_in_waves text_eq
shuffled_waves = refl

-- The first fails, and the schedule reports a cycle, though there is none: the last one in the list
-- is failed in the second wave, and the one before it was looked at earlier in the same wave.
shuffled_cyclic :
    (start_in_waves [] (lit "continue") all_bad shuffled).1 ≡ some cyclic_or_incomplete
unfolding start_in_waves text_eq
shuffled_cyclic = refl

-- The same members in order.
in_order_waves : (start_in_waves [] (lit "continue") all_bad in_order).1 ≡ none
unfolding start_in_waves text_eq
in_order_waves = refl

start_in_waves-IsSafe_example :
    is_safe all_good (start_in_waves [] [] all_good shuffled).0.history ≡ true
start_in_waves-IsSafe_example = start_in_waves-IsSafe [] [] all_good shuffled

start_in_waves-ordered_example :
    ((start_in_waves [] (lit "continue") all_bad in_order).1 ≡ none)
    × IsFinished in_order (start_in_waves [] (lit "continue") all_bad in_order).0
unfolding is_ordered text_eq
start_in_waves-ordered_example =
    start_in_waves-ordered [] (lit "continue") all_bad in_order refl refl

start_in_waves-IsFinished_example : IsFinished shuffled (start_in_waves [] [] all_good shuffled).0
unfolding start_in_waves text_eq
start_in_waves-IsFinished_example = start_in_waves-IsFinished [] [] all_good shuffled refl

start_in_waves_fuel_example : runs_out_of_waves (start_in_waves [] [] all_good shuffled).1 ≡ false
start_in_waves_fuel_example = start_in_waves_fuel [] [] all_good shuffled

stack_dependency_order-IsOrderOf_example : IsOrderOf (web ∷ api ∷ db ∷ []) in_order
unfolding stack_dependency_order insert text_eq
stack_dependency_order-IsOrderOf_example =
    stack_dependency_order-IsOrderOf (web ∷ api ∷ db ∷ []) in_order refl

stack_dependency_order_fuel_example : runs_out (stack_dependency_order (api ∷ [])) ≡ false
stack_dependency_order_fuel_example = stack_dependency_order_fuel (api ∷ [])

abbrev chain_rank : Text → ℕ
chain_rank id = if text_eq id (lit "db") then 0 else 1

pair-IsRanked : IsRanked (by_id (api ∷ db ∷ []) []) chain_rank
unfolding by_id lookup insert text_eq
pair-IsRanked =
    lookup-All (λ id m. All (IsBelow (by_id (api ∷ db ∷ []) []) chain_rank id) m.depends_on)
      (by_id (api ∷ db ∷ []) []) (((refl, omega arith), tt), (tt, tt))

stack_dependency_order_found_example :
    (order : List StackMember) × (stack_dependency_order (api ∷ db ∷ []) ≡ ok order)
stack_dependency_order_found_example =
    stack_dependency_order_found (api ∷ db ∷ []) chain_rank pair-IsRanked

-- A request for the last one of a chain starts the chain.
stack_members_for_start-IsWhole_example :
    StartsWhole
      (member_table shuffled)
      (lit "api" ∷ [])
      (with_defaults 0 db ∷ with_defaults 2 api ∷ [])
unfolding stack_members_for_start insert text_eq
stack_members_for_start-IsWhole_example =
    stack_members_for_start-IsWhole shuffled (lit "api") []
      (with_defaults 0 db ∷ with_defaults 2 api ∷ []) refl

stack_members_for_start_fuel_example :
    fails_with is_no_levels (stack_members_for_start shuffled (some (lit "web" ∷ []))) ≡ false
stack_members_for_start_fuel_example = stack_members_for_start_fuel shuffled (some (lit "web" ∷ []))

abbrev stops_all : Text → Result Text (List Text)
stops_all id = ok (id ∷ [])

stop_stack-IsStopOrder_example :
    (is_stop_order in_order [] (stop_stack (recorded stops_all) [] (web ∷ api ∷ db ∷ [])).0 ≡ true)
    × ((stop_stack (recorded stops_all) [] (web ∷ api ∷ db ∷ [])).2 ≡ none
        → (stop_stack (recorded stops_all) [] (web ∷ api ∷ db ∷ [])).0
          ≡ command_ids (reverse in_order))
unfolding stack_dependency_order insert text_eq
stop_stack-IsStopOrder_example =
    stop_stack-IsStopOrder stops_all (web ∷ api ∷ db ∷ []) in_order refl
