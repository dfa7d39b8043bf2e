-- ===== src/Api/Bearer.antt =====
-- src/api/routers/approvals.py, `_extract_bearer`: the token of an Authorization header.
pub mod Header
use agentic_engineering_url.Prelude.{
  ◌+◌, String, Bool, true, false, ◌&&◌, ◌||◌, Option, none, some, leb, nat_eq, if◌then◌else◌,
}
use Prim.Native.Char.{Char, code}

-- `str.lower()` on a letter of "bearer ": no other character is lowered to one of these.
abbrev pub lowers_to : (letter c : Char) → Bool
lowers_to letter c =
    nat_eq (code c) (code letter)
    || (leb 65 (code c) && (leb (code c) 90 && nat_eq (code c + 32) (code letter)))

-- What follows a prefix, in whatever case it is written.
unfoldable pub after_prefix : (prefix s : String) → Option String
after_prefix String.[] s = some s
after_prefix (String.◌∷◌ p ps) String.[] = none
after_prefix (String.◌∷◌ p ps) (String.◌∷◌ c s) =
    let rest = after_prefix ps s in if lowers_to p c then rest else none

-- The characters that `str.strip()` takes away.
abbrev pub is_space : Char → Bool
is_space c =
    (leb 9 (code c) && leb (code c) 13)
    || ((leb 28 (code c) && leb (code c) 32)
        || (nat_eq (code c) 133
            || (nat_eq (code c) 160
                || (nat_eq (code c) 5760
                    || ((leb 8192 (code c) && leb (code c) 8202)
                        || ((leb 8232 (code c) && leb (code c) 8233)
                            || (nat_eq (code c) 8239
                                || (nat_eq (code c) 8287 || nat_eq (code c) 12288))))))))

unfoldable pub strip_left : String → String
strip_left String.[] = String.[]
strip_left (String.◌∷◌ c s) = let rest = strip_left s in if is_space c then rest else String.◌∷◌ c s

abbrev is_blank : String → Bool
is_blank String.[] = true
is_blank (String.◌∷◌ c s) = false

unfoldable pub strip_right : String → String
strip_right String.[] = String.[]
strip_right (String.◌∷◌ c s) =
    let rest = strip_right s in if is_space c && is_blank rest then String.[] else String.◌∷◌ c rest

unfoldable pub extract_bearer : Option String → Option String
extract_bearer none = none
extract_bearer (some authorization) = elim (after_prefix "bearer " authorization) [
  | none ↦ none
  | some rest ↦ some (strip_right (strip_left rest))
]
