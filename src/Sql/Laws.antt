-- ===== src/Sql/Laws.antt =====
-- The laws of the statements: what they keep, and what is read after a write.
use mathlib.Core.Option
use agentic_engineering_url.Prelude.{
  ◌+◌, ◌≤◌, ◌≡◌, refl, subst, Bool, true, false, none, some, List, [], ◌∷◌, ◌++◌, arith, All,
  Bool-cases, inl, inr, if◌then◌else◌, or_else, All-map, ◌<◌, ◌⊎◌,
}
use agentic_engineering_url.Sql.{select, fetch, update, count}

module _ {ℓ κ} {A : Type ℓ} (P : A → Type κ) (p : A → Bool) where
  pub All-select : (xs : List A) → All P xs → All P (select p xs)
  unfolding select
  All-select [] h = tt
  All-select (x ∷ xs) h = elim (Bool-cases (p x)) [
    | inl e ↦ rw e (h.0, All-select xs h.1)
    | inr e ↦ rw e (All-select xs h.1)
  ]

  pub All-fetch : (xs : List A) (a : A) → All P xs → fetch p xs ≡ some a → P a
  unfolding fetch
  All-fetch [] a h e = absurd (ground arith)
  All-fetch (x ∷ xs) a h e = elim (Bool-cases (p x)) [
    | inl t ↦ subst P (ground arith) h.0
    | inr t ↦ All-fetch xs a h.1 (ground arith)
  ]

module _ {ℓ} {A : Type ℓ} (p : A → Bool) where
  pub fetch-holds : (xs : List A) (a : A) → fetch p xs ≡ some a → p a ≡ true
  unfolding fetch
  fetch-holds [] a e = absurd (ground arith)
  fetch-holds (x ∷ xs) a e = ground (arith, fetch-holds xs a)

  pub fetch-none : (xs : List A) → fetch p xs ≡ none → All (λ x. p x ≡ false) xs
  unfolding fetch
  fetch-none [] e = tt
  fetch-none (x ∷ xs) e = elim (Bool-cases (p x)) [
    | inl t ↦ absurd (ground arith)
    | inr t ↦ (t, fetch-none xs (ground arith))
  ]

  pub fetch_of_none : (xs : List A) → All (λ x. p x ≡ false) xs → fetch p xs ≡ none
  unfolding fetch
  fetch_of_none [] h = refl
  fetch_of_none (x ∷ xs) h = ground (arith, fetch_of_none xs)

  pub fetch-append : (xs ys : List A) → fetch p (xs ++ ys) ≡ or_else (fetch p xs) (fetch p ys)
  unfolding fetch
  fetch-append [] ys = refl
  fetch-append (x ∷ xs) ys = ground (arith, fetch-append xs ys)

  pub select-append : (xs ys : List A) → select p (xs ++ ys) ≡ select p xs ++ select p ys
  unfolding select
  select-append [] ys = refl
  select-append (x ∷ xs) ys = ground (arith, select-append xs ys)

  pub count-append : (xs ys : List A) → count p (xs ++ ys) ≡ count p xs + count p ys
  unfolding count
  count-append [] ys = omega arith
  count-append (x ∷ xs) ys = ground (arith, count-append xs ys)

  pub select-holds : (xs : List A) → All (λ x. p x ≡ true) (select p xs)
  unfolding select
  select-holds [] = tt
  select-holds (x ∷ xs) = elim (Bool-cases (p x)) [
    | inl e ↦ rw e (e, select-holds xs)
    | inr e ↦ rw e (select-holds xs)
  ]

  pub count-zero : (xs : List A) → count p xs ≡ 0 → All (λ x. p x ≡ false) xs
  unfolding count
  count-zero [] e = tt
  count-zero (x ∷ xs) e = elim (Bool-cases (p x)) [
    | inl t ↦ absurd (ground arith)
    | inr t ↦ (t, count-zero xs (ground arith))
  ]

  pub count_of_none : (xs : List A) → All (λ x. p x ≡ false) xs → count p xs ≡ 0
  unfolding count
  count_of_none [] h = refl
  count_of_none (x ∷ xs) h = ground (arith, count_of_none xs)

  pub select_of_none : (xs : List A) → All (λ x. p x ≡ false) xs → select p xs ≡ []
  unfolding select
  select_of_none [] h = refl
  select_of_none (x ∷ xs) h = ground (arith, select_of_none xs)

  pub update_of_none : (f : A → A) (xs : List A) → count p xs ≡ 0 → update p f xs ≡ xs
  unfolding count update
  update_of_none f [] e = refl
  update_of_none f (x ∷ xs) e = ground (arith, update_of_none f xs)

  -- A row set to fail the condition is not counted again.
  pub count-update :
      (f : A → A) → ((x : A) → p (f x) ≡ false) → (xs : List A) → count p (update p f xs) ≡ 0
  unfolding count update
  count-update f h [] = refl
  count-update f h (x ∷ xs) = ground (arith, h x, count-update f h xs)

module _ {ℓ} {A : Type ℓ} (p q : A → Bool) (f : A → A) where
  pub fetch-update :
      ((x : A) → p x ≡ true → q (f x) ≡ q x)
      → (xs : List A)
      → fetch q (update p f xs) ≡ Option.map (λ x. if p x then f x else x) (fetch q xs)
  unfolding fetch update
  fetch-update h [] = refl
  fetch-update h (x ∷ xs) = ground (arith, h x, fetch-update h xs)

module _ {ℓ κ κ'} {A : Type ℓ} (P : A → Type κ) (Q : A → Type κ') (p : A → Bool) (f : A → A) where
  pub All-update :
      ((x : A) → P x → p x ≡ true → Q (f x))
      → ((x : A) → P x → p x ≡ false → Q x)
      → (xs : List A) → All P xs
      → All Q (update p f xs)
  unfolding update
  All-update hit miss [] h = tt
  All-update hit miss (x ∷ xs) h = elim (Bool-cases (p x)) [
    | inl e ↦ rw e (hit x h.0 e, All-update hit miss xs h.1)
    | inr e ↦ rw e (miss x h.0 e, All-update hit miss xs h.1)
  ]

module _ {ℓ} {A : Type ℓ} where
  pub count-update_same :
      (p q : A → Bool) (f : A → A)
      → ((x : A) → q (f x) ≡ q x)
      → (xs : List A) → count q (update p f xs) ≡ count q xs
  unfolding count update
  count-update_same p q f h [] = refl
  count-update_same p q f h (x ∷ xs) = ground (arith, h x, count-update_same p q f h xs)

  pub count_mono :
      (q r : A → Bool)
      → ((x : A) → q x ≡ true → r x ≡ true)
      → (xs : List A) → count q xs ≤ count r xs
  unfolding count
  count_mono q r h [] = omega arith
  count_mono q r h (x ∷ xs) = ground (arith, h x, count_mono q r h xs)

  -- A row that `r` counts and `q` does not makes the difference.
  pub count-lt :
      (q r t : A → Bool)
      → ((x : A) → q x ≡ true → r x ≡ true)
      → ((x : A) → t x ≡ true → (q x ≡ false) × (r x ≡ true))
      → (xs : List A) → 0 < count t xs
      → count q xs + 1 ≤ count r xs
  unfolding count
  count-lt q r t h k [] m = elim m [ ]
  count-lt q r t h k (x ∷ xs) m =
      ground (arith, h x, k x, count_mono q r h xs, count-lt q r t h k xs)

  -- Every member is found by a reflexive test.
  pub All-counted :
      (R : A → A → Bool)
      → ((x : A) → R x x ≡ true)
      → (xs : List A) → All (λ x. 0 < count (R x) xs) xs
  unfolding count
  All-counted R r [] = tt
  All-counted R r (x ∷ xs) =
      (ground (arith, r x), All-map xs (λ y h. ground arith) (All-counted R r xs))

  -- What `r` counts is counted by `q` or by `t`.
  pub count-le-add :
      (r q t : A → Bool)
      → ((x : A) → r x ≡ true → (q x ≡ true) ⊎ (t x ≡ true))
      → (xs : List A) → count r xs ≤ count q xs + count t xs
  unfolding count
  count-le-add r q t h [] = omega arith
  count-le-add r q t h (x ∷ xs) = ground (arith, h x, count-le-add r q t h xs)

  -- What `q` and `t` count apart, `r` counts together.
  pub add-le-count :
      (r q t : A → Bool)
      → ((x : A) → q x ≡ true → (t x ≡ false) × (r x ≡ true))
      → ((x : A) → t x ≡ true → r x ≡ true)
      → (xs : List A) → count q xs + count t xs ≤ count r xs
  unfolding count
  add-le-count r q t h k [] = omega arith
  add-le-count r q t h k (x ∷ xs) = ground (arith, h x, k x, add-le-count r q t h k xs)

  pub count_of_All :
      (q r : A → Bool) (xs : List A) → All (λ x. q x ≡ r x) xs → count q xs ≡ count r xs
  unfolding count
  count_of_All q r [] h = refl
  count_of_All q r (x ∷ xs) h = ground (arith, count_of_All q r xs)

  -- Every member that meets the condition is found among the selected rows.
  pub All-selected :
      (R : A → A → Bool) (p : A → Bool)
      → ((x : A) → R x x ≡ true)
      → (xs : List A) → All (λ x. p x ≡ true → 0 < count (R x) (select p xs)) xs
  unfolding count select
  All-selected R p r [] = tt
  All-selected R p r (x ∷ xs) =
      (λ t. ground (arith, r x), All-map xs (λ y h t. ground (arith, h t)) (All-selected R p r xs))

  -- An update that reaches every selected row, and unselects what it reaches, leaves none.
  pub select-update-All :
      (p q : A → Bool) (f : A → A)
      → ((x : A) → p (f x) ≡ false)
      → (xs : List A) → All (λ x. q x ≡ true) (select p xs)
      → select p (update q f xs) ≡ []
  unfolding select update
  select-update-All p q f h [] k = refl
  select-update-All p q f h (x ∷ xs) k = elim (Bool-cases (p x)) [
    | inl e ↦
        let k' : All (λ y. q y ≡ true) (x ∷ select p xs) =
          subst (λ b. All (λ y. q y ≡ true) (if b then x ∷ select p xs else select p xs)) e k in
        rw (k'.0, h x) (select-update-All p q f h xs k'.1)
    | inr e ↦
        let k' : All (λ y. q y ≡ true) (select p xs) =
          subst (λ b. All (λ y. q y ≡ true) (if b then x ∷ select p xs else select p xs)) e k in
        ground (arith, h x, select-update-All p q f h xs k')
  ]
