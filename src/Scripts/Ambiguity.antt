-- ===== src/Scripts/Ambiguity.antt =====
-- scripts/demo_ambiguous.py, `detect_ambiguity`: a vague adjective without a number.
use agentic_engineering_url.Prelude.{
  String, Bool, true, false, not, ◌&&◌, ◌||◌, Option, none, some, List, [], ◌∷◌, nat_eq,
  if◌then◌else◌,
}
use Prim.Native.Char.{Char, code}
use agentic_engineering_url.Sql.{select}
use agentic_engineering_url.Api.Bearer.{lowers_to, is_space}

-- VAGUE_ADJECTIVES, in the order of `sorted`.
abbrev pub vague_adjectives : List String
vague_adjectives =
    "better" ∷ "fast" ∷ "faster" ∷ "intuitive" ∷ "robust" ∷ "scalable" ∷ "secure" ∷ []

abbrev with_word : String → List String → List String
with_word String.[] ws = ws
with_word (String.◌∷◌ c w) ws = String.◌∷◌ c w ∷ ws

-- The word that a text begins with, which may be empty, and the others.
unfoldable pub split_first : String → String × List String
split_first String.[] = (String.[], [])
split_first (String.◌∷◌ c s) =
    let (w, ws) = split_first s in
    if is_space c then (String.[], with_word w ws) else (String.◌∷◌ c w, ws)

-- `str.split()`
abbrev pub split : String → List String
split s = let (w, ws) = split_first s in with_word w ws

-- The characters ".,!?"
abbrev is_mark : Char → Bool
is_mark c = nat_eq (code c) 46 || (nat_eq (code c) 44 || (nat_eq (code c) 33 || nat_eq (code c) 63))

unfoldable pub strip_marks_left : String → String
strip_marks_left String.[] = String.[]
strip_marks_left (String.◌∷◌ c s) =
    let rest = strip_marks_left s in if is_mark c then rest else String.◌∷◌ c s

abbrev is_blank : String → Bool
is_blank String.[] = true
is_blank (String.◌∷◌ c s) = false

unfoldable pub strip_marks_right : String → String
strip_marks_right String.[] = String.[]
strip_marks_right (String.◌∷◌ c s) =
    let rest = strip_marks_right s in
    if is_mark c && is_blank rest then String.[] else String.◌∷◌ c rest

-- `word.lower() == term`, for a term of lower case letters without a "k".
unfoldable pub lowered_equals : (term word : String) → Bool
lowered_equals String.[] String.[] = true
lowered_equals String.[] (String.◌∷◌ c w) = false
lowered_equals (String.◌∷◌ t ts) String.[] = false
lowered_equals (String.◌∷◌ t ts) (String.◌∷◌ c w) = lowers_to t c && lowered_equals ts w

abbrev pub has_term : List String → String → Bool
has_term [] term = false
has_term (w ∷ ws) term =
    lowered_equals term (strip_marks_right (strip_marks_left w)) || has_term ws term

-- sorted(words & VAGUE_ADJECTIVES)
unfoldable pub flagged_terms : String → List String
flagged_terms text = select (has_term (split text)) vague_adjectives

-- NUMBER_PATTERN.search: `\d` is any decimal digit of Unicode, which is a parameter.
unfoldable pub has_number : (is_digit : Char → Bool) → String → Bool
has_number is_digit String.[] = false
has_number is_digit (String.◌∷◌ c s) = is_digit c || has_number is_digit s

abbrev is_flagged : List String → Bool
is_flagged [] = false
is_flagged (t ∷ ts) = true

-- The flagged terms of a requirement that is ambiguous.
unfoldable pub detect_ambiguity : (is_digit : Char → Bool) → String → Option (List String)
detect_ambiguity is_digit text =
    if is_flagged (flagged_terms text) && not (has_number is_digit text)
    then some (flagged_terms text)
    else none
