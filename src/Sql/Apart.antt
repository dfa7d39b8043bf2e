-- ===== src/Sql/Apart.antt =====
-- Statements on other rows than those that are read.
use agentic_engineering_url.Prelude.{
  ◌≡◌, refl, ap, inl, inr, Bool, true, false, some, List, [], ◌∷◌, if◌then◌else◌, Bool-cases,
}
use agentic_engineering_url.Sql.{fetch, update}

module _ {ℓ} {A : Type ℓ} (p : A → Bool) (f : A → A) (q : A → Bool) where
  -- What a SELECT finds or counts, when no row that the UPDATE reaches meets its condition.
  pub fetch-update_apart :
      ((x : A) → q (f x) ≡ q x)
      → ((x : A) → p x ≡ true → q x ≡ false)
      → (xs : List A) → fetch q (update p f xs) ≡ fetch q xs
  unfolding fetch update
  fetch-update_apart same h [] = refl
  fetch-update_apart same h (x ∷ xs) = elim (Bool-cases (p x)) [
    | inl y ↦ rw (y, same x, h x y) (fetch-update_apart same h xs)
    | inr n ↦ rw n (ap (λ r. if q x then some x else r) (fetch-update_apart same h xs))
  ]
