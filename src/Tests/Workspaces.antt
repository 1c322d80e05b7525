-- ===== src/Tests/Workspaces.antt =====
-- Workspaces and subscribers.
use agent_shell.Base.{Text, lit, trim_space, ℕ, ◌≡◌, List, [], ◌∷◌, map, arith}
use agent_shell.Events.{Bus}
use agent_shell.Events.Delivery.{publish_all, publish_all-holding}
use agent_shell.Visibility.{normalize_visible_in, visible_in_workspace}
use agent_shell.Visibility.Seen.{visible_in_workspace-normalize_visible_in}

abbrev untidy_ids : List Text
untidy_ids = lit " w2 " ∷ lit "" ∷ lit "w1" ∷ lit "w2" ∷ lit "own" ∷ []

tidied_ids_show_the_same :
    visible_in_workspace (lit "own") (normalize_visible_in (lit "own") untidy_ids) (lit "w2")
    ≡ visible_in_workspace (lit "own") (map trim_space untidy_ids) (lit "w2")
tidied_ids_show_the_same =
    visible_in_workspace-normalize_visible_in (lit "own") untidy_ids (lit "w2")

abbrev two_subs : Bus ℕ
two_subs = record {
  next_id = 2;
  subs = record { sub_id = 0; queue = 7 ∷ [] } ∷ record { sub_id = 1; queue = [] } ∷ [];
}

publish_all-holding_example :
    (publish_all (8 ∷ 9 ∷ []) two_subs).subs
    ≡ record { sub_id = 0; queue = 7 ∷ 8 ∷ 9 ∷ [] } ∷ record { sub_id = 1; queue = 8 ∷ 9 ∷ [] } ∷ []
publish_all-holding_example =
    publish_all-holding (8 ∷ 9 ∷ []) two_subs (omega arith, (omega arith, tt))
