-- ===== src/Controller.antt =====
-- internal/lifecycle/controller.go: the status of the Runtime, the leases of its MCP clients and the one
-- request to shut it down. Times are nanoseconds; an operation gives the statuses that it publishes.
-- The clock, the new id of a client and the live processes are arguments.
pub mod Names
pub mod Leases
pub mod Operations
pub mod Orderly
pub mod Shutdown
use agent_shell.Base.{
  ltb, leb, if◌then◌else◌, ℤ, pos, negsuc, to_ℕ, length, Text, lit, is_empty, trim_space, lookup,
  insert, delete, Result, ok, err, ℕ, zero, suc, ◌-◌, ◌/◌, Bool, true, false, not, ◌&&◌, ◌||◌,
  Option, none, some, List, [], ◌∷◌, ◌++◌, map, ◌+◌, ◌*◌,
}
use agent_shell.Controller.Names.{client_name}

pub record McpClient : Type 0 where
  pub id : Text
  pub name : Text
  pub pid : ℤ
  pub connected_at : ℕ
  pub last_seen_at : ℕ

-- Record of internal/runtimeinstance/registry.go.
pub record InstanceRecord : Type 0 where
  pub instance_id : Text
  pub instance_pid : ℕ
  pub api_url : Text
  pub started_at : ℕ
  pub version : Text

pub data Status : Type 0 where
  running : Status
  stopping : Status
  stopped : Status

-- `shutdown` is the channel, with room for one reason, and `timers` the reasons of the AfterFunc calls
-- that have not sent yet.
pub record Controller : Type 0 where
  pub status : Status
  pub instance_record : InstanceRecord
  pub database_path : Text
  pub has_bus : Bool
  pub clients : List (Text × McpClient)
  pub lease_ttl : ℕ
  pub shutdown : List Text
  pub timers : List Text
  pub shutdown_done : Bool
  pub closed : Bool

abbrev pub second : ℕ
second = 1000000000

unfoldable pub new_controller : InstanceRecord → Text → Bool → Controller
new_controller r path bus = record {
  status = running;
  instance_record = r;
  database_path = path;
  has_bus = bus;
  clients = [];
  lease_ttl = 10 * second;
  shutdown = [];
  timers = [];
  shutdown_done = false;
  closed = false;
}

abbrev pub is_running : Status → Bool
is_running running = true
is_running stopping = false
is_running stopped = false

unfoldable pub accepting_commands : Controller → Bool
accepting_commands c = is_running c.status

abbrev pub publish : Controller → List Status
publish c = if c.has_bus then c.status ∷ [] else []

-- `client.PID > 0 && !pidAlive(client.PID)`
abbrev pub is_dead : (ℕ → Bool) → ℤ → Bool
is_dead alive (pos zero) = false
is_dead alive (pos (suc p)) = not (alive (suc p))
is_dead alive (negsuc p) = false

abbrev pub is_gone : ℕ → ℕ → (ℕ → Bool) → McpClient → Bool
is_gone ttl now alive client = ltb ttl (now - client.last_seen_at) || is_dead alive client.pid

unfoldable pub prune_clients :
    ℕ → ℕ → (ℕ → Bool) → List (Text × McpClient) → List (Text × McpClient) × Bool
prune_clients ttl now alive [] = ([], false)
prune_clients ttl now alive ((id, client) ∷ clients) =
    let (left, changed) = prune_clients ttl now alive clients in
    if is_gone ttl now alive client then (left, true) else ((id, client) ∷ left, changed)

-- pruneLocked.
abbrev pub prune : ℕ → (ℕ → Bool) → Controller → Controller × Bool
prune now alive c =
    let (left, changed) = prune_clients c.lease_ttl now alive c.clients in
    (record c { clients = left }, changed)

pub record Snapshot : Type 0 where
  pub status : Status
  pub instance_id : Text
  pub pid : ℕ
  pub api_url : Text
  pub started_at : ℕ
  pub uptime_seconds : ℕ
  pub managed_runs : ℕ
  pub database_path : Text
  pub count : ℕ
  pub clients : List McpClient

-- The code divides by floats; here the seconds are exact. A start in the future shows as no time.
unfoldable pub snapshot : ℕ → ℕ → (ℕ → Bool) → ℕ → Controller → Controller × Snapshot
unfolding prune_clients
snapshot now later alive managed_runs c =
    let (c', changed) = prune now alive c in
    let shown = map (λ (id, client). client) c'.clients in
    (
      c',
      record {
        status = c'.status;
        instance_id = c.instance_record.instance_id;
        pid = c.instance_record.instance_pid;
        api_url = c.instance_record.api_url;
        started_at = c.instance_record.started_at;
        uptime_seconds = (later - c.instance_record.started_at) / second;
        managed_runs = managed_runs;
        database_path = c.database_path;
        count = length shown;
        clients = shown;
      },
    )

unfoldable pub register_mcp :
    Text → ℤ → Text → ℕ → Controller → Controller × McpClient × List Status
unfolding insert trim_space
register_mcp name pid id now c =
    let client : McpClient = record {
      id = id;
      name = client_name name;
      pid = pid;
      connected_at = now;
      last_seen_at = now;
    } in
    let c' = record c { clients = insert id client c.clients } in (c', client, publish c')

pub data LifecycleError : Type 0 where
  client_not_found : LifecycleError

abbrev pub beat : Controller → Text → ℕ → Option McpClient → Result LifecycleError Controller
beat c id now none = err client_not_found
beat c id now (some client) =
    ok (record c { clients = insert id (record client { last_seen_at = now }) c.clients })

unfoldable pub heartbeat_mcp : Text → ℕ → Controller → Result LifecycleError Controller
unfolding lookup insert
heartbeat_mcp id now c = beat c id now (lookup id c.clients)

abbrev is_found : Option McpClient → Bool
is_found none = false
is_found (some client) = true

unfoldable pub unregister_mcp : Text → Controller → Controller × List Status
unfolding lookup delete
unregister_mcp id c =
    let c' = record c { clients = delete id c.clients } in
    (c', if is_found (lookup id c.clients) then publish c' else [])

-- shutdownOnce.Do, told whether it has run before.
abbrev pub request_once : Text → Controller → Bool → Controller × Bool × List Status
request_once reason c true = (c, false, [])
request_once reason c false =
    let c' = record c {
      status = stopping;
      shutdown_done = true;
      timers = c.timers ++ reason ∷ [];
    } in
    (c', true, publish c')

unfoldable pub request_shutdown : Text → Controller → Controller × Bool × List Status
request_shutdown reason c = request_once reason c c.shutdown_done

abbrev pub send_next : Controller → List Text → Controller
send_next c [] = c
send_next c (reason ∷ timers) =
    if ltb (length c.shutdown) 1
    then record c { shutdown = c.shutdown ++ reason ∷ []; timers = timers }
    else c

-- The send of a timer; it waits where the channel has no room.
unfoldable pub timer_sends : Controller → Controller
timer_sends c = send_next c c.timers

abbrev pub receive_next : Controller → List Text → Controller × List Text
receive_next c [] = (c, [])
receive_next c (reason ∷ rest) = (record c { shutdown = rest }, reason ∷ [])

-- A receive from ShutdownRequests.
unfoldable pub receive_shutdown : Controller → Controller × List Text
receive_shutdown c = receive_next c c.shutdown

unfoldable pub mark_stopped : Controller → Controller × List Status
mark_stopped c = let c' = record c { status = stopped; clients = [] } in (c', publish c')

-- `closeOnce` and `closed` in one.
unfoldable pub close : Controller → Controller
close c = record c { closed = true }

-- One tick of reapLoop. A tick can still come with the close, since select picks either.
unfoldable pub reap : ℕ → (ℕ → Bool) → Controller → Controller × List Status
unfolding prune_clients
reap now alive c = let (c', changed) = prune now alive c in (c', if changed then publish c' else [])
