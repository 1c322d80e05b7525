-- ===== src/Curl.antt =====
-- internal/domain/curl.go: the import of a curl command as a request.
pub mod Split
pub mod Flags
pub mod Parse
pub mod Vars
