-- ===== src/Orchestration/RetryPolicy.antt =====
-- src/orchestration/retry_policy.py: the bounds on the attempts of a stage.
use agentic_engineering_url.Prelude.{
  ℕ, zero, suc, ◌-◌, String, Option, none, some, List, [], ◌∷◌, ◌==◌, leb, if◌then◌else◌,
}

abbrev pub max_stage_attempts : ℕ
max_stage_attempts = 3

abbrev pub stage_backoff_seconds : List ℕ
stage_backoff_seconds = 1 ∷ 2 ∷ []

abbrev at : List ℕ → ℕ → Option ℕ
at [] i = none
at (x ∷ xs) zero = some x
at (x ∷ xs) (suc i) = at xs i

-- `none` is the ValueError of an unknown type.
unfoldable pub timeout_for : String → Option ℕ
timeout_for kind =
    if kind == "internal"
    then some 5
    else if kind == "pytest"
    then some 300
    else if kind == "claude"
    then some 600
    else none

unfoldable pub backoff_for_attempt : ℕ → Option ℕ
backoff_for_attempt attempt_number =
    if leb attempt_number 1 then none else at stage_backoff_seconds (attempt_number - 2)
