-- ===== src/Http/Request/Bounds.antt =====
-- Ranges of what a request is normalised to, and where its variables come from.
use agent_shell.Base.{
  ℤ, pos, negsuc, Text, CaseTable, contains, ok, ℕ, zero, suc, ◌≤◌, ◌≡◌, true, arith,
}
use agent_shell.Http.Request.{
  max_http_request_timeout_ms, http_methods, normalize_http_method, normalize_http_request_timeout,
}

-- Whatever number the caller gives, the timeout lies between 100 ms and two minutes.
pub normalize_http_request_timeout_bounds :
    (ms : ℤ)
    → (100 ≤ normalize_http_request_timeout ms)
      × (normalize_http_request_timeout ms ≤ max_http_request_timeout_ms)
unfolding normalize_http_request_timeout
normalize_http_request_timeout_bounds (pos zero) = omega arith
normalize_http_request_timeout_bounds (pos (suc ms)) = ground arith
normalize_http_request_timeout_bounds (negsuc n) = omega arith

-- A timeout in the range stays as it is.
pub normalize_http_request_timeout_kept :
    (ms : ℕ)
    → 100 ≤ ms
    → ms ≤ max_http_request_timeout_ms
    → normalize_http_request_timeout (pos ms) ≡ ms
unfolding normalize_http_request_timeout
normalize_http_request_timeout_kept zero h k = absurd (omega arith)
normalize_http_request_timeout_kept (suc ms) h k = ground arith

-- A method that is accepted is one of the seven that a request may have.
pub normalize_http_method-known :
    (t : CaseTable) (raw out : Text)
    → normalize_http_method t raw ≡ ok out
    → contains http_methods out ≡ true
unfolding normalize_http_method
normalize_http_method-known t raw out e = ground arith
