-- ===== src/Sql/Last.antt =====
-- What the last row that satisfies a condition is: `ORDER BY id DESC LIMIT 1`.
use agentic_engineering_url.Prelude.{
  ◌≡◌, refl, ap, ◌∙◌, sym, inl, inr, Bool, true, false, none, some, List, [], ◌∷◌, ◌++◌, arith,
  Bool-cases, Option-cases, All,
}
use agentic_engineering_url.Sql.{fetch_last}

module _ {ℓ} {A : Type ℓ} (p : A → Bool) where
  -- The table falls into the rows before `a`, `a`, and rows after it none of which satisfies `p`.
  abbrev pub IsLast : List A → A → Type ℓ
  IsLast xs a =
      (before : List A) × (after : List A) × (xs ≡ before ++ a ∷ after)
      × (p a ≡ true)
      × All (λ x. p x ≡ false) after

  fetch_last-none : (xs : List A) → fetch_last p xs ≡ none → All (λ x. p x ≡ false) xs
  unfolding fetch_last
  fetch_last-none [] h = tt
  fetch_last-none (x ∷ xs) h = elim (Option-cases (fetch_last p xs)) [
    | inr q ↦ absurd (ground (arith, q.1))
    | inl n ↦ elim (Bool-cases (p x)) [
      | inl y ↦ absurd (ground (arith, n, y))
      | inr m ↦ (m, fetch_last-none xs n)
    ]
  ]

  pub fetch_last-IsLast : (xs : List A) (a : A) → fetch_last p xs ≡ some a → IsLast xs a
  unfolding fetch_last
  fetch_last-IsLast [] a h = absurd (ground arith)
  fetch_last-IsLast (x ∷ xs) a h = elim (Option-cases (fetch_last p xs)) [
    | inr q ↦
        let (before, after, e, holds, rest) = fetch_last-IsLast xs a (ground (arith, q.1)) in
        (x ∷ before, after, ap (λ ys. x ∷ ys) e, holds, rest)
    | inl n ↦ elim (Bool-cases (p x)) [
      | inr m ↦ absurd (ground (arith, n, m))
      | inl y ↦
          let same : x ≡ a = ground (arith, n, y) in
          ([], xs, ap (λ z. z ∷ xs) same, ap p (sym same) ∙ y, fetch_last-none xs n)
    ]
  ]

  none-fetch_last : (xs : List A) → All (λ x. p x ≡ false) xs → fetch_last p xs ≡ none
  unfolding fetch_last
  none-fetch_last [] h = refl
  none-fetch_last (x ∷ xs) h = ground (arith, h.0, none-fetch_last xs h.1)

  split-fetch_last :
      (before : List A) (a : A) (after : List A)
      → p a ≡ true
      → All (λ x. p x ≡ false) after
      → fetch_last p (before ++ a ∷ after) ≡ some a
  unfolding fetch_last
  split-fetch_last [] a after t h = ground (arith, t, none-fetch_last after h)
  split-fetch_last (x ∷ before) a after t h = ground (arith, split-fetch_last before a after t h)

  pub IsLast-fetch_last : (xs : List A) (a : A) → IsLast xs a → fetch_last p xs ≡ some a
  IsLast-fetch_last xs a (before, after, e, t, h) =
      ap (fetch_last p) e ∙ split-fetch_last before a after t h
