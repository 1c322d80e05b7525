-- ===== src/Http.antt =====
-- internal/domain/http.go: saved HTTP requests, their body templates, methods, timeouts and
-- placeholders.
pub mod Request
pub mod Templates
pub mod Interpolate
