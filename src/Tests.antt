-- ===== src/Tests.antt =====
-- The theorems at concrete inputs, and runs of the definitions.
mod Schedules
mod Graphs
mod Plans
mod Lives
mod Environments
mod Runtimes
mod Workspaces
mod Imports
mod Commands
mod Ports
