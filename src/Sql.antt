-- ===== src/Sql.antt =====
-- A table is the list of its rows, oldest first, and this is what the SQL statements of the program
-- do to it.
pub mod Laws
pub mod Apart
pub mod Last
use agentic_engineering_url.Prelude.{
  ℕ, suc, Bool, Option, none, some, List, [], ◌∷◌, ◌++◌, if◌then◌else◌,
}

module _ {ℓ} {A : Type ℓ} where
  -- SELECT … WHERE p
  unfoldable pub select : (A → Bool) → List A → List A
  select p [] = []
  select p (x ∷ xs) = let rest = select p xs in if p x then x ∷ rest else rest

  -- SELECT … WHERE p, then fetchone()
  unfoldable pub fetch : (A → Bool) → List A → Option A
  fetch p [] = none
  fetch p (x ∷ xs) = let rest = fetch p xs in if p x then some x else rest

  -- SELECT … WHERE p ORDER BY id DESC LIMIT 1, then fetchone()
  unfoldable pub fetch_last : (A → Bool) → List A → Option A
  fetch_last p [] = none
  fetch_last p (x ∷ xs) = elim (fetch_last p xs) [
    | some y ↦ some y
    | none ↦ if p x then some x else none
  ]

  -- UPDATE … SET f WHERE p
  unfoldable pub update : (A → Bool) → (A → A) → List A → List A
  update p f [] = []
  update p f (x ∷ xs) = (if p x then f x else x) ∷ update p f xs

  -- SELECT COUNT(*) … WHERE p, and the `rowcount` of an UPDATE … WHERE p
  unfoldable pub count : (A → Bool) → List A → ℕ
  count p [] = 0
  count p (x ∷ xs) = let rest = count p xs in if p x then suc rest else rest

  -- INSERT
  abbrev pub insert : A → List A → List A
  insert x xs = xs ++ x ∷ []
