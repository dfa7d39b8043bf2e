-- ===== src/Orchestration/Branching/Meaning.antt =====
-- What the condition of a branch says, independently of its evaluation in
-- src/orchestration/branching.py.
use agentic_engineering_url.Prelude.{
  ℕ, String, ◌≡◌, refl, sym, ap, ◌∙◌, subst, ◌⊎◌, inl, inr, true, false, false≢true, some, [], ◌∷◌,
  arith, ◌==◌, eq→≡, eq_refl, Bool-cases, Option-cases,
}
use mathlib.Core.Option
use agentic_engineering_url.Sql.{fetch}
use agentic_engineering_url.Schema.{Json, Payload, Condition}
use agentic_engineering_url.Orchestration.Branching.{json_eq, get, evaluate_condition, is_selected}

-- In Python `True` is the number 1, and `False` the number 0.
abbrev pub without_booleans : Json → Json
without_booleans (Json.boolean true) = Json.number 1
without_booleans (Json.boolean false) = Json.number 0
without_booleans v = v

abbrev pub IsSame : Json → Json → Type 0
IsSame a b = without_booleans a ≡ without_booleans b

-- The condition has a field, a value and an operator, the outcome has the field, and the two values
-- are the same for "eq", or are not for "ne".
abbrev pub Holds : Payload → Condition → Type 0
Holds outcome c =
    (field : String) × (expected : Json) × (actual : Json) × (c.field ≡ some field)
    × (c.value ≡ some expected)
    × (Option.map (λ x. x.1) (fetch (λ x. x.0 == field) outcome) ≡ some actual)
    × (((c.op ≡ some "eq") × IsSame actual expected)
        ⊎ ((c.op ≡ some "ne") × ¬ (IsSame actual expected)))

get-fetch :
    (field : String) (outcome : Payload)
    → get field outcome ≡ Option.map (λ x. x.1) (fetch (λ x. x.0 == field) outcome)
unfolding get fetch
get-fetch field [] = refl
get-fetch field ((name, value) ∷ rest) = ground (arith, get-fetch field rest)

abbrev text_of : Json → String
text_of (Json.text t) = t
text_of _ = ""

abbrev number_of : Json → ℕ
number_of (Json.number n) = n
number_of _ = 0

json_eq-IsSame : (a b : Json) → json_eq a b ≡ true → IsSame a b
unfolding json_eq
json_eq-IsSame (Json.text a) (Json.text b) h = ap Json.text (eq→≡ a b h)
json_eq-IsSame (Json.number a) (Json.number b) h = ap Json.number (ground arith)
json_eq-IsSame (Json.number a) (Json.boolean true) h = ap Json.number (ground arith)
json_eq-IsSame (Json.number a) (Json.boolean false) h = ap Json.number (ground arith)
json_eq-IsSame (Json.boolean true) (Json.number b) h = ap Json.number (ground arith)
json_eq-IsSame (Json.boolean false) (Json.number b) h = ap Json.number (ground arith)
json_eq-IsSame (Json.boolean true) (Json.boolean true) h = refl
json_eq-IsSame (Json.boolean false) (Json.boolean false) h = refl
json_eq-IsSame (Json.boolean true) (Json.boolean false) h = absurd (ground arith)
json_eq-IsSame (Json.boolean false) (Json.boolean true) h = absurd (ground arith)
json_eq-IsSame Json.null Json.null h = refl
json_eq-IsSame Json.null (Json.text b) h = absurd (ground arith)
json_eq-IsSame Json.null (Json.number b) h = absurd (ground arith)
json_eq-IsSame Json.null (Json.boolean b) h = absurd (ground arith)
json_eq-IsSame (Json.text a) Json.null h = absurd (ground arith)
json_eq-IsSame (Json.text a) (Json.number b) h = absurd (ground arith)
json_eq-IsSame (Json.text a) (Json.boolean b) h = absurd (ground arith)
json_eq-IsSame (Json.number a) Json.null h = absurd (ground arith)
json_eq-IsSame (Json.number a) (Json.text b) h = absurd (ground arith)
json_eq-IsSame (Json.boolean a) Json.null h = absurd (ground arith)
json_eq-IsSame (Json.boolean a) (Json.text b) h = absurd (ground arith)

IsSame-json_eq : (a b : Json) → IsSame a b → json_eq a b ≡ true
unfolding json_eq
IsSame-json_eq (Json.text a) (Json.text b) h =
    subst (λ z. (a == z) ≡ true) (ap text_of h) (eq_refl a)
IsSame-json_eq (Json.number a) (Json.number b) h = let e = ap number_of h in ground arith
IsSame-json_eq (Json.number a) (Json.boolean true) h = let e = ap number_of h in ground arith
IsSame-json_eq (Json.number a) (Json.boolean false) h = let e = ap number_of h in ground arith
IsSame-json_eq (Json.boolean true) (Json.number b) h = let e = ap number_of h in ground arith
IsSame-json_eq (Json.boolean false) (Json.number b) h = let e = ap number_of h in ground arith
IsSame-json_eq (Json.boolean true) (Json.boolean true) h = refl
IsSame-json_eq (Json.boolean false) (Json.boolean false) h = refl
IsSame-json_eq (Json.boolean true) (Json.boolean false) h = absurd (cc h)
IsSame-json_eq (Json.boolean false) (Json.boolean true) h = absurd (cc h)
IsSame-json_eq Json.null Json.null h = refl
IsSame-json_eq Json.null (Json.text b) h = absurd (cc h)
IsSame-json_eq Json.null (Json.number b) h = absurd (cc h)
IsSame-json_eq Json.null (Json.boolean true) h = absurd (cc h)
IsSame-json_eq Json.null (Json.boolean false) h = absurd (cc h)
IsSame-json_eq (Json.text a) Json.null h = absurd (cc h)
IsSame-json_eq (Json.text a) (Json.number b) h = absurd (cc h)
IsSame-json_eq (Json.text a) (Json.boolean true) h = absurd (cc h)
IsSame-json_eq (Json.text a) (Json.boolean false) h = absurd (cc h)
IsSame-json_eq (Json.number a) Json.null h = absurd (cc h)
IsSame-json_eq (Json.number a) (Json.text b) h = absurd (cc h)
IsSame-json_eq (Json.boolean true) Json.null h = absurd (cc h)
IsSame-json_eq (Json.boolean true) (Json.text b) h = absurd (cc h)
IsSame-json_eq (Json.boolean false) Json.null h = absurd (cc h)
IsSame-json_eq (Json.boolean false) (Json.text b) h = absurd (cc h)

unlike : (a b : Json) → json_eq a b ≡ false → ¬ (IsSame a b)
unlike a b h s = false≢true (sym h ∙ IsSame-json_eq a b s)

unlike-same : (a b : Json) → ¬ (IsSame a b) → json_eq a b ≡ false
unlike-same a b h = elim (Bool-cases (json_eq a b)) [
  | inl y ↦ absurd (h (json_eq-IsSame a b y))
  | inr n ↦ n
]

pub selected-Holds :
    (outcome : Payload) (c : Condition) → is_selected outcome c ≡ true → Holds outcome c
unfolding is_selected evaluate_condition
selected-Holds outcome c h = elim (Option-cases c.field) [
  | inl n ↦ absurd (ground (arith, n))
  | inr f ↦ elim (Option-cases c.op) [
    | inl n ↦ absurd (ground (arith, f.1, n))
    | inr o ↦ elim (Option-cases c.value) [
      | inl n ↦ absurd (ground (arith, f.1, o.1, n))
      | inr v ↦ elim (Option-cases (get f.0 outcome)) [
        | inl n ↦ absurd (ground (arith, f.1, o.1, v.1, n))
        | inr a ↦ (
          f.0,
          v.0,
          a.0,
          f.1,
          v.1,
          sym (get-fetch f.0 outcome) ∙ a.1,
          elim (Bool-cases (o.0 == "eq")) [
            | inl y ↦ inl (
              o.1 ∙ ap some (eq→≡ o.0 "eq" y),
              json_eq-IsSame a.0 v.0 (ground (arith, f.1, o.1, v.1, a.1, y)),
            )
            | inr n ↦ elim (Bool-cases (o.0 == "ne")) [
              | inr m ↦ absurd (ground (arith, f.1, o.1, v.1, a.1, n, m))
              | inl y ↦ inr (
                o.1 ∙ ap some (eq→≡ o.0 "ne" y),
                unlike a.0 v.0 (ground (arith, f.1, o.1, v.1, a.1, n, y)),
              )
            ]
          ],
        )
      ]
    ]
  ]
]

pub Holds-selected :
    (outcome : Payload) (c : Condition) → Holds outcome c → is_selected outcome c ≡ true
unfolding is_selected evaluate_condition
Holds-selected outcome c (field, expected, actual, f, v, a, inl (o, s)) =
    ground (arith, f, v, get-fetch field outcome ∙ a, o, IsSame-json_eq actual expected s)
Holds-selected outcome c (field, expected, actual, f, v, a, inr (o, s)) =
    ground (arith, f, v, get-fetch field outcome ∙ a, o, unlike-same actual expected s)
