-- ===== src/Persistence/Retry.antt =====
-- src/persistence/retry.py: at most three attempts, with two waits between them.
use agentic_engineering_url.Prelude.{
  ℕ, zero, suc, ◌+◌, ◌-◌, ◌≤◌, ◌<◌, ◌≡◌, ◌≢◌, refl, ◌⊎◌, inl, inr, Bool, true, false, List, [], ◌∷◌,
  arith, ltb, if◌then◌else◌, Result, ok, err, take,
}

-- What one call of `fn` does: it returns, or raises OperationalError with "locked" or "busy" in its
-- message, or raises anything else.
pub data Attempt {ℓ} (T : Type ℓ) : Type ℓ where
  returned : T → Attempt T
  busy : Attempt T
  failed : Attempt T

pub data RetryError : Type 0 where
  exhausted other : RetryError

abbrev pub max_attempts : ℕ
max_attempts = 3

-- BACKOFF_SECONDS[attempt - 1]
abbrev pub backoff_seconds : ℕ → ℕ
backoff_seconds zero = 0
backoff_seconds (suc zero) = 1
backoff_seconds (suc (suc n)) = 2

-- What is left of the loop: `left` attempts, the first of them numbered `attempt`. `fn attempt` is
-- what that call does. The result comes with the waits that were made and the calls.
-- What a call decides when it is the last one.
abbrev pub settled {ℓ} : {T : Type ℓ} → Attempt T → Result RetryError T
settled (returned t) = ok t
settled busy = err exhausted
settled failed = err other

abbrev is_busy {ℓ} : {T : Type ℓ} → Attempt T → Bool
is_busy busy = true
is_busy _ = false

not_busy {ℓ} : {T : Type ℓ} (a : Attempt T) → a ≢ busy → is_busy a ≡ false
not_busy (returned t) h = refl
not_busy busy h = absurd (h refl)
not_busy failed h = refl

module _ {ℓ} {T : Type ℓ} (fn : ℕ → Attempt T) where
  pub record Run : Type ℓ where
    pub result : Result RetryError T
    pub waits : List ℕ
    pub calls : ℕ

  abbrev after_busy : ℕ → ℕ → Run → Run
  after_busy attempt left rest =
      if ltb attempt max_attempts
      then record {
        result = rest.result;
        waits = backoff_seconds attempt ∷ rest.waits;
        calls = suc rest.calls;
      }
      else record { result = rest.result; waits = rest.waits; calls = suc rest.calls }

  unfoldable pub attempts : (left attempt : ℕ) → Run
  attempts zero attempt = record { result = err exhausted; waits = []; calls = 0 }
  attempts (suc left) attempt =
      let rest = attempts left (attempt + 1) in
      elim (fn attempt) [
        | returned t ↦ record { result = ok t; waits = []; calls = 1 }
        | failed ↦ record { result = err other; waits = []; calls = 1 }
        | busy ↦ after_busy attempt left rest
      ]

  unfoldable pub with_bounded_retry : Run
  unfolding attempts
  with_bounded_retry = attempts max_attempts 1

  settle_at :
      (k : ℕ)
      → 1 ≤ k
      → k ≤ 3
      → (1 < k → fn 1 ≡ busy)
      → (2 < k → fn 2 ≡ busy)
      → (is_busy (fn k) ≡ false) ⊎ (k ≡ 3)
      → (with_bounded_retry.result ≡ settled (fn k))
        × (with_bounded_retry.waits ≡ take (k - 1) (1 ∷ 2 ∷ []))
        × (with_bounded_retry.calls ≡ k)
  unfolding with_bounded_retry
  settle_at zero low high b1 b2 h = absurd (omega arith)
  settle_at (suc zero) low high b1 b2 h = ground arith
  settle_at (suc (suc zero)) low high b1 b2 h = ground (arith, b1 (omega arith))
  settle_at (suc (suc (suc zero))) low high b1 b2 h =
      ground (arith, b1 (omega arith), b2 (omega arith))
  settle_at (suc (suc (suc (suc k)))) low high b1 b2 h = absurd (omega arith)

  -- If the calls before call `k` found the database busy, and call `k` did not or is the third, then
  -- call `k` is the last: it decides the result, which is the exhaustion if it too was busy, and the
  -- waits are the first `k - 1` of 1 and 2 seconds.
  pub retry_settles :
      (k : ℕ)
      → 1 ≤ k
      → k ≤ 3
      → ((j : ℕ) → 1 ≤ j → j < k → fn j ≡ busy)
      → (fn k ≢ busy) ⊎ (k ≡ 3)
      → (with_bounded_retry.result ≡ settled (fn k))
        × (with_bounded_retry.waits ≡ take (k - 1) (1 ∷ 2 ∷ []))
        × (with_bounded_retry.calls ≡ k)
  retry_settles k low high before h =
      settle_at k low high (before 1 (omega arith)) (before 2 (omega arith))
        (elim h [ inl n ↦ inl (not_busy (fn k) n) | inr e ↦ inr e ])
