-- ===== src/Tests/Runtimes.antt =====
-- The controller of the Runtime, and logs.
use agent_shell.Base.{
  pos, Text, lit, refl, true, false, some, [], ◌∷◌, ◌==◌, length, drop, text_eq, trim_space, join,
  contains, lookup, ok, err, ℕ, zero, suc, ◌≤◌, ◌≡◌, ◌⊎◌, Bool, not, ◌||◌, none, ◌++◌, arith,
}
use agent_shell.Controller.{
  InstanceRecord, Controller, McpClient, new_controller, request_shutdown, timer_sends,
  heartbeat_mcp, prune, client_not_found, accepting_commands,
}
use agent_shell.Controller.Leases.{after_beat, heartbeat_mcp-prune}
use agent_shell.Controller.Names.{client_name}
use agent_shell.Controller.Operations.{start, requests, sends, Steps, has_no, IsOrderly}
use agent_shell.Controller.Shutdown.{request_shutdown-IsOrderly}
use agent_shell.Runs.Log.{tail_file, lines_of, last_lines, tail_count, newline_byte}
use agent_shell.Runs.Log.Tail.{tail_file-last_lines}

abbrev this_instance : InstanceRecord
this_instance = record {
  instance_id = lit "i";
  instance_pid = 7;
  api_url = lit "http";
  started_at = 0;
  version = [];
}

abbrev at_start : Controller
at_start = new_controller this_instance (lit "db") true

abbrev asked_twice : Controller
asked_twice = timer_sends (request_shutdown (lit "b") (request_shutdown (lit "a") at_start).0).0

asked_twice_steps : Steps at_start (lit "a" ∷ []) [] asked_twice
unfolding request_shutdown timer_sends new_controller
asked_twice_steps = sends (requests (lit "b") (requests (lit "a") start))

request_shutdown-IsOrderly_example :
    IsOrderly (lit "a" ∷ []) [] asked_twice
    × (length (asked_twice.shutdown ++ asked_twice.timers) ≤ 1)
    × ((reason : Text) → (request_shutdown reason asked_twice).1 ≡ has_no (lit "a" ∷ []))
    × ((accepting_commands asked_twice || not (accepting_commands asked_twice)) ≡ true)
request_shutdown-IsOrderly_example =
    request_shutdown-IsOrderly this_instance (lit "db") true asked_twice_steps start

abbrev one_client : McpClient
one_client = record {
  id = lit "m";
  name = lit "n";
  pid = pos 5;
  connected_at = 1;
  last_seen_at = 1;
}

abbrev with_client : Controller
with_client = record at_start { clients = (lit "m", one_client) ∷ [] }

abbrev five_lives : ℕ → Bool
five_lives p = p == 5

heartbeat_mcp-prune_example :
    ((lookup (lit "m") with_client.clients ≡ none)
      × (heartbeat_mcp (lit "m") 4 with_client ≡ err client_not_found))
    ⊎ (client : McpClient) × (c' : Controller) × (lookup (lit "m") with_client.clients
        ≡ some client)
      × (heartbeat_mcp (lit "m") 4 with_client ≡ ok c')
      × (lookup (lit "m") (prune 9 five_lives c').0.clients
          ≡ after_beat with_client.lease_ttl 4 9 five_lives client)
      × ((j : Text)
          → text_eq (lit "m") j ≡ false
          → lookup j (prune 9 five_lives c').0.clients
            ≡ lookup j (prune 9 five_lives with_client).0.clients)
unfolding contains
heartbeat_mcp-prune_example = heartbeat_mcp-prune with_client (lit "m") 4 9 five_lives (refl, tt)

-- A name of 121 bytes whose last rune takes two of them.
abbrev long_name : ℕ → Text
long_name zero = 0xE9 ∷ []
long_name (suc n) = 97 ∷ long_name n

client_name_cut : (drop 118 (client_name (long_name 119)) ≡ 97 ∷ 0xFFFD ∷ [])
unfolding trim_space
client_name_cut = refl

abbrev short_log : Text
short_log = 97 ∷ 10 ∷ 98 ∷ 10 ∷ 99 ∷ 10 ∷ 100 ∷ 10 ∷ []

short_log_tail : tail_file 3 short_log (pos 2) ≡ 99 ∷ 10 ∷ 100 ∷ []
unfolding tail_file
short_log_tail = refl

tail_file-last_lines_example :
    tail_file 3 short_log (pos 2)
    ≡ join (last_lines (tail_count (pos 2)) (lines_of short_log)) (newline_byte ∷ [])
tail_file-last_lines_example = tail_file-last_lines 3 short_log (pos 2) (omega arith)
