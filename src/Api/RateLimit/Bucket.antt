-- ===== src/Api/RateLimit/Bucket.antt =====
-- What `prune` keeps of one bucket, for src/api/middleware/rate_limit.py.
use agentic_engineering_url.Prelude.{
  ℕ, ◌+◌, ◌-◌, ◌≤◌, ◌<◌, ◌≡◌, refl, inl, inr, List, [], ◌∷◌, ◌++◌, arith, ltb, Bool-cases, length,
  length-append, All,
}
use agentic_engineering_url.Api.RateLimit.{window, prune}

pub prune-prune :
    (now later : ℕ) (ts : List ℕ) → now ≤ later → prune later (prune now ts) ≡ prune later ts
unfolding prune
prune-prune now later [] h = refl
prune-prune now later (t ∷ ts) h = ground (arith, prune-prune now later ts)

pub length-prune-append_new :
    (now t : ℕ) (ts : List ℕ)
    → now ≤ t + window
    → length (prune now (ts ++ t ∷ [])) ≡ length (prune now ts) + 1
unfolding prune
length-prune-append_new now t [] h = ground arith
length-prune-append_new now t (u ∷ ts) h =
    ground (arith, length-prune-append_new now t ts, length-append ts (t ∷ []))

pub prune-All : (now : ℕ) (ts : List ℕ) → All (λ t. t + window < now) ts → prune now ts ≡ []
unfolding prune
prune-All now [] h = refl
prune-All now (t ∷ ts) h = ground (arith, prune-All now ts)

pub All-prune : (P : ℕ → Type 0) (now : ℕ) (ts : List ℕ) → All P ts → All P (prune now ts)
unfolding prune
All-prune P now [] h = tt
All-prune P now (t ∷ ts) h = elim (Bool-cases (ltb window (now - t))) [
  | inl e ↦ rw e (All-prune P now ts h.1)
  | inr e ↦ rw e h
]
