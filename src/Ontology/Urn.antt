-- ===== src/Ontology/Urn.antt =====
-- urn.py: the one grammar of Imprint's identifiers, urn:imprint:KIND:UUIDv4 in canonical form.
use imprint.Base.{
  ℕ, ◌+◌, String, ◌≡◌, Bool, true, false, ◌&&◌, ◌||◌, Option, none, some, List, [], ◌∷◌, arith, ltb,
  leb, ◌==◌, if◌then◌else◌, all, codes, codes_eq, is_digit, is_lower,
}
use imprint.Ontology.Fault.{Checked, ok, err, ◌>>◌, demand, validation_error}
use imprint.Ontology.Json.{Json, str, null}

abbrev into_first : ℕ → List (List ℕ) → List (List ℕ)
into_first c [] = (c ∷ []) ∷ []
into_first c (w ∷ ws) = (c ∷ w) ∷ ws

-- `value.split(":")`, over code points
abbrev pub split_on : ℕ → List ℕ → List (List ℕ)
split_on sep [] = [] ∷ []
split_on sep (c ∷ cs) =
    let rest = split_on sep cs in if c == sep then [] ∷ rest else into_first c rest

-- `_KIND`: a lower-case letter, then lower-case letters, digits, `_` and `-`
is_kind : List ℕ → Bool
is_kind [] = false
is_kind (c ∷ cs) = is_lower c && all (λ d. is_lower d || is_digit d || d == b'_' || d == b'-') cs

abbrev is_hex : ℕ → Bool
is_hex c = is_digit c || (leb b'a' c && leb c b'f')

-- the places of a canonical UUID's text, from one place on: four dashes, the version 4, and a
-- variant digit 8, 9, a or b
abbrev uuid_place : ℕ → ℕ → Bool
uuid_place i c =
    if i == 8 || i == 13 || i == 18 || i == 23
    then c == b'-'
    else if i == 14
    then c == b'4'
    else if i == 19
    then c == b'8' || c == b'9' || c == b'a' || c == b'b'
    else is_hex c

uuid_from : ℕ → List ℕ → Bool
uuid_from i [] = i == 36
uuid_from i (c ∷ cs) = ltb i 36 && uuid_place i c && uuid_from (i + 1) cs

-- `uuid.UUID(text)` parses, has version 4, and prints as the text
is_uuid4 : List ℕ → Bool
unfolding uuid_from
is_uuid4 text = uuid_from 0 text

abbrev kind_is : Option String → List ℕ → Bool
kind_is none actual = true
kind_is (some kind) actual = codes_eq actual (codes kind)

-- the parts of a text that is an Imprint URN of the kind asked for
parts_are : Option String → List (List ℕ) → Bool
unfolding is_kind is_uuid4
parts_are kind (scheme ∷ space ∷ actual ∷ uuid ∷ []) =
    codes_eq scheme (codes "urn")
    && codes_eq space (codes "imprint")
    && is_kind actual
    && kind_is kind actual
    && is_uuid4 uuid
parts_are kind _ = false

unfoldable pub is_urn : Option String → String → Bool
unfolding parts_are
is_urn kind value = parts_are kind (split_on b':' (codes value))

-- The source words its refusals apart; here they are one.
unfoldable pub require_urn : Json → Option String → String → Checked String
require_urn (str value) kind field = do demand (is_urn kind value) field; ok value
require_urn _ kind field = err (validation_error field)

-- what is accepted is a text that is a URN of the kind asked for
pub require_urn-ok :
    (value : Json) (kind : Option String) (field : String) {s : String}
    → require_urn value kind field ≡ ok s
    → (value ≡ str s) × (is_urn kind s ≡ true)
unfolding require_urn
require_urn-ok (str value) kind field h = ground arith
require_urn-ok null kind field h = cc
require_urn-ok _ kind field h = cc
