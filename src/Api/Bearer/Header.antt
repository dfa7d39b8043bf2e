-- ===== src/Api/Bearer/Header.antt =====
-- A token that is sent in a header is the token that is read: src/api/routers/approvals.py.
use text.Mathlib.TextLemmas
use agentic_engineering_url.Prelude.{String, ◌≡◌, refl, ap, true, false, some, concat}
use agentic_engineering_url.Api.Bearer.{
  lowers_to, after_prefix, is_space, strip_left, strip_right, extract_bearer,
}

-- No character is one that `strip` takes away: so with the tokens of `secrets.token_urlsafe`.
abbrev pub HasNoSpace : String → Type 0
HasNoSpace String.[] = Unit
HasNoSpace (String.◌∷◌ c s) = (is_space c ≡ false) × HasNoSpace s

strip_left-same : (s : String) → HasNoSpace s → strip_left s ≡ s
unfolding strip_left
strip_left-same String.[] h = refl
strip_left-same (String.◌∷◌ c s) h = rw h.0 refl

strip_right-same : (s : String) → HasNoSpace s → strip_right s ≡ s
unfolding strip_right
strip_right-same String.[] h = refl
strip_right-same (String.◌∷◌ c s) h = rw (h.0, strip_right-same s h.1) refl

-- The second text spells the first one, in whatever case.
abbrev Spells : String → String → Type 0
Spells String.[] String.[] = Unit
Spells (String.◌∷◌ p ps) (String.◌∷◌ c cs) = (lowers_to p c ≡ true) × Spells ps cs
Spells _ _ = ⊥

after_prefix-concat :
    (prefix head rest : String)
    → Spells prefix head
    → after_prefix prefix (concat head rest) ≡ some rest
unfolding after_prefix
after_prefix-concat String.[] String.[] rest h = ap some (TextLemmas.nil-append rest)
after_prefix-concat String.[] (String.◌∷◌ c cs) rest h = absurd h
after_prefix-concat (String.◌∷◌ p ps) String.[] rest h = absurd h
after_prefix-concat (String.◌∷◌ p ps) (String.◌∷◌ c cs) rest h =
    rw (TextLemmas.cons-append c cs rest, h.0) (after_prefix-concat ps cs rest h.1)

pub bearer_roundtrip :
    (token : String)
    → HasNoSpace token
    → extract_bearer (some (concat "Bearer " token)) ≡ some token
unfolding extract_bearer
bearer_roundtrip token h =
    rw
      (
        after_prefix-concat "bearer " "Bearer " token
            (refl, (refl, (refl, (refl, (refl, (refl, (refl, tt))))))),
        extract_bearer,
        strip_left-same token h,
        strip_right-same token h,
      )
      refl
