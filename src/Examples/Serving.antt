-- ===== src/Examples/Serving.antt =====
-- Requests that are admitted or refused, and calls that are tried again.
use agentic_engineering_url.Prelude.{
  ℕ, zero, suc, ◌≤◌, ◌<◌, ◌≡◌, ◌≢◌, refl, ◌↔◌, inl, some, List, [], ◌∷◌, arith, take,
}
use agentic_engineering_url.Api.RateLimit.{
  Request, dispatch, serve, admissions, reset_all, client_ip, limited,
}
use agentic_engineering_url.Api.RateLimit.Window.{
  in_window, recent, no_window_over_limit, limited_iff,
}
use agentic_engineering_url.Persistence.Retry.{
  Attempt, returned, busy, settled, with_bounded_retry, retry_settles,
}

abbrev request_at : ℕ → Request
request_at now = record { path = "/links"; client = some "10.0.0.1"; time = now }

abbrev three_requests : List Request
three_requests = request_at 5 ∷ request_at 9 ∷ request_at 61_000_000 ∷ []

no_window_over_limit_example : in_window "10.0.0.1" 5 (admissions three_requests reset_all) ≤ 60
no_window_over_limit_example =
    no_window_over_limit three_requests (omega arith, (omega arith, (omega arith, tt))) "10.0.0.1" 5

limited_iff_example :
    let r = request_at 62_000_000 in
    ((dispatch r (serve three_requests reset_all)).1 ≡ limited)
    ↔ (60 ≤ recent (client_ip r) r.time (admissions three_requests reset_all))
limited_iff_example =
    limited_iff three_requests (omega arith, (omega arith, (omega arith, tt)))
      (request_at 62_000_000) (omega arith) refl

abbrev busy_once : ℕ → Attempt ℕ
busy_once (suc (suc n)) = returned 42
busy_once _ = busy

busy_before : (j : ℕ) → 1 ≤ j → j < 2 → busy_once j ≡ busy
busy_before zero low high = refl
busy_before (suc zero) low high = refl
busy_before (suc (suc j)) low high = absurd (omega arith)

not_busy_twice : busy_once 2 ≢ busy
not_busy_twice e = absurd (ground (arith, e))

retry_settles_example :
    let r = with_bounded_retry busy_once in
    (r.result ≡ settled (busy_once 2)) × (r.waits ≡ take 1 (1 ∷ 2 ∷ [])) × (r.calls ≡ 2)
retry_settles_example =
    retry_settles busy_once 2 (omega arith) (omega arith) busy_before (inl not_busy_twice)
