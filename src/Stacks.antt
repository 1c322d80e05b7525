-- ===== src/Stacks.antt =====
-- The schedules of stacks in internal/runtime/manager.go and internal/runtime/prerequisites.go, and
-- the graph checks of internal/domain/domain.go that they rely on.
pub mod Order
pub mod Waves
pub mod Selection
pub mod Prerequisites
pub mod Needed
pub mod Halt
pub mod Preflight
pub mod Start
