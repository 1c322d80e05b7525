-- ===== src/Env.antt =====
-- internal/domain/env.go: named environments, the library of their values, its redaction, and the
-- environment of a stack member.
pub mod Names
pub mod Library
pub mod Redact
pub mod Layers
pub mod Extras
pub mod Hook
