-- ===== src/Runs.antt =====
-- internal/runtime: the life of a run, from Manager.Start to its end; internal/domain/domain.go: the
-- type Run and what its port evidence shows.
pub mod Run
pub mod Observe
pub mod Manager
pub mod Start
pub mod Trace
pub mod Ports
pub mod Log
pub mod Config
