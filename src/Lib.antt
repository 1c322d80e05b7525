-- ===== src/Lib.antt =====
-- AgentShell runs commands and services for agents and people: it keeps saved commands, stacks of
-- commands, environments and HTTP requests in a database, supervises the processes that it starts, and
-- shows both to a dashboard and to an MCP server. This library models the parts of its Go code that
-- decide: the rules for environments, the saved requests, the imports of curl commands, the parameters
-- of saved commands, the life of a run and of a saved command, the schedules of stacks, the workspaces
-- that see an item, the shutdown of the Runtime, and the event bus.
--
-- Env models internal/domain/env.go: Env.Names its names and keys, Env.Library the type
-- EnvironmentLibrary and NormalizeEnvironmentLibrary, Env.Redact how secrets go out and come back,
-- Env.Layers how a stack, its members and a command share values, Env.Extras the values that a stack
-- brings, and Env.Hook the writes of an HTTP hook. Http models internal/domain/http.go: Http.Request
-- the rules for one request, Http.Interpolate its placeholders, Http.Templates its saved bodies. Curl
-- models internal/domain/curl.go: Curl.Split splitCurl, Curl.Flags the tests of a flag, Curl.Parse
-- ParseCurl, and Curl.Vars RewriteURLWithVars.
--
-- Runs models the life of a run: Runs.Run the types of internal/domain/domain.go, Runs.Observe what the
-- ports of an external run show, Runs.Ports snapshotExternalPorts and verifyExternalPorts, and of
-- internal/runtime/manager.go Runs.Start Manager.Start, Runs.Manager its stop, kill timer, wait and
-- reconcile with the saves of internal/store/store.go, Runs.Config the defaults of NewManager, and
-- Runs.Log tailFile. Runs.Trace has these operations as steps in any order, with Start in
-- one part or in two, the last save of Restart, and the ids whose row a stale save has made wrong;
-- Runs.Trace.Changes has what one step does to a run, and Runs.Trace.Life the machine that a run follows
-- along them.
--
-- Commands models what a saved command has: Commands.Params ValidateCommandParameters and
-- ResolveCommandParameters of internal/domain/domain.go, Commands.Definition the type and its
-- queries of runs, and of internal/runtime/manager.go Commands.Actions startLifecycleAction,
-- Commands.Lifecycle startCommandLocked and waitCommandStopped, and Commands.Halt StopCommand
-- and RestartCommandWithParameters; they stand on Runs.
--
-- Stacks models the schedules: Stacks.Order stackDependencyOrder, Stacks.Waves the loop of
-- startStackMembersOnly, Stacks.Halt StopStack, Stacks.Selection stackMembersForStart,
-- Stacks.Preflight what startStackMembersOnly checks before its loop, Stacks.Prerequisites the check for
-- cycles among stacks of internal/domain/domain.go, Stacks.Needed unreadyPrerequisites of
-- internal/runtime/prerequisites.go, and Stacks.Start its startStack, which has all of them in one.
-- Visibility models internal/domain/visibility.go, Controller internal/lifecycle/controller.go, and
-- Events internal/events/bus.go. Base holds what they share, Tests runs and uses of the theorems.
--
-- A text is the list of its code points (of its bytes, for a log), a Go map with text keys an
-- association list in the order in which a range loop meets the keys, and a set of ids a list. An
-- operation of Manager takes the manager and gives the next one, with the events, signals and
-- goroutines it starts as a list of effects; what the operating system, the clock and the database
-- answer is an argument: Os for a start, Probe for the ports, a list of polls for the loop of
-- waitCommandStopped, lists of rounds for those of verifyExternalPorts and waitStackReady, and
-- StackAnswers for the start of a stack. The case mapping of the
-- standard library above ASCII is a parameter, CaseTable, as are for curl its reading of a number and
-- of a URL, CurlLibrary, and for a parameter of a command the test of a number. Times are numbers.
--
-- Recursion: a loop over a slice or a map is structural. The searches of Stacks.Order,
-- Stacks.Selection and Stacks.Prerequisites and the rounds of Stacks.Waves take fuel, one level for
-- each member or row and one more; a search only goes deeper at a member or row that is not open, and
-- a round that does not end the loop takes a member out. The loop of Runs.Log has a level for each
-- byte, and a round with a chunk of at least one byte lowers the position. The walk of Stacks.Needed
-- has no bound in the code, so its fuel is an argument: where the prerequisites can be ranked, the
-- rank bounds it.
--
-- Not modelled: the web interface, the HTTP and MCP servers, SQL, the platform's probes of ports and
-- processes, the hooks' compiler, imports and exports of collections, the registry of instances, and
-- the checks. Of Manager, Restart of a run but for its last save, RestartStack, Wait, ScheduleTimeout,
-- observe and waitStackMember are not modelled.
pub mod Base
pub mod Env
pub mod Http
pub mod Curl
pub mod Commands
pub mod Runs
pub mod Stacks
pub mod Tests
pub mod Visibility
pub mod Events
pub mod Controller
