-- ===== src/Commands.antt =====
-- Saved commands: their parameters, of internal/domain/domain.go, and how internal/runtime/manager.go
-- starts, stops and restarts them.
pub mod Params
pub mod Definition
pub mod Actions
pub mod Lifecycle
pub mod Halt
