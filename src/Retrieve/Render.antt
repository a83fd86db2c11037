-- ===== src/Retrieve/Render.antt =====
-- `_render_audit`, `_render_compact` and `_render` of retrieve/engine.py, with the `json.dumps` that
-- they use: separators without spaces, sorted keys, and no ASCII escapes. A text stands for its
-- UTF-8 bytes, and `len` counts these.
use Prim.Native.Char.{code}
use Prim.Native.String.{◌++◌ as str_append}
use imprint.Base.{
  ℕ, zero, suc, ◌/◌, ◌%◌, String, Bool, false, not, ◌&&◌, ◌||◌, Option, none, some, List, [], ◌∷◌,
  map, ltb, ◌==◌, str_eq, if◌then◌else◌, is_space,
}
use imprint.Retrieve.Models.{RetrievalRecord}

infixr 65 ◌++◌
abbrev pub ◌++◌ : String → String → String
s ++ t = str_append s t

-- the texts in a row, with another between any two
join : String → List String → String
join between [] = ""
join between (s ∷ []) = s
join between (s ∷ t ∷ rest) = s ++ between ++ join between (t ∷ rest)

-- `" ".join(value.split())`: what is white space becomes one blank, and none at the ends
squash : Bool → Bool → String → String
squash started pending String.[] = ""
squash started pending (String.◌∷◌ c s) =
    let blank = is_space (code c) in
    let rest = squash (started || not blank) (blank && started) s in
    if blank then rest else if pending then " " ++ String.◌∷◌ c rest else String.◌∷◌ c rest

one_line : String → String
unfolding squash
one_line value = squash false false value

hex_digit : ℕ → List String → String
hex_digit n [] = ""
hex_digit zero (d ∷ ds) = d
hex_digit (suc n) (d ∷ ds) = hex_digit n ds

abbrev hex_digits : List String
hex_digits =
    "0" ∷ "1" ∷ "2" ∷ "3" ∷ "4" ∷ "5" ∷ "6" ∷ "7" ∷ "8" ∷ "9" ∷ "a" ∷ "b" ∷ "c" ∷ "d" ∷ "e" ∷ "f"
    ∷ []

-- one character inside a JSON string, before the rest
escape : ℕ → String → String
unfolding hex_digit
escape c plain =
    if c == 34
    then "\\\""
    else if c == 92
    then "\\\\"
    else if c == 10
    then "\\n"
    else if c == 13
    then "\\r"
    else if c == 9
    then "\\t"
    else if c == 12
    then "\\f"
    else if c == 8
    then "\\b"
    else if ltb c 32
    then "\\u00" ++ hex_digit (c / 16) hex_digits ++ hex_digit (c % 16) hex_digits
    else plain

escape_all : String → String
unfolding escape
escape_all String.[] = ""
escape_all (String.◌∷◌ c s) = escape (code c) (String.◌∷◌ c "") ++ escape_all s

quoted : String → String
unfolding escape_all
quoted s = "\"" ++ escape_all s ++ "\""

json_list : List String → String
unfolding quoted join
json_list values = "[" ++ join "," (map quoted values) ++ "]"

json_null_or : Option String → String
json_null_or none = "null"
json_null_or (some number) = number

abbrev is_floor : RetrievalRecord → Bool
is_floor r = str_eq r.authority_tier "imported_floor"

-- a key and its value; the keys are written in their sorted order
pair : String → String → String
unfolding quoted
pair key value = quoted key ++ ":" ++ value

object : List String → String
unfolding join
object pairs = "{" ++ join "," pairs ++ "}"

unfoldable pub render_audit : RetrievalRecord → String
unfolding object pair quoted json_list json_null_or
render_audit r =
    object (
      pair "authority" (quoted (if is_floor r then "imported_floor" else r.provenance_status))
      ∷ pair "case_ids" (json_list r.case_ids)
      ∷ pair "case_referents" (json_list r.case_referents)
      ∷ pair "evidence_ids" (json_list r.evidence_ids)
      ∷ pair "ontology" (
          object (
            pair "confidence" (json_null_or r.confidence)
            ∷ pair "disclosure" (quoted r.disclosure)
            ∷ pair "partition" (quoted r.ontology_partition)
            ∷ pair "path" (json_list r.ontology_path)
            ∷ pair "type" (quoted r.ontology_type)
            ∷ []))
      ∷ pair "record_id" (quoted r.record_id)
      ∷ pair "source_receipt_ids" (json_list r.source_receipt_ids)
      ∷ pair "text" (quoted r.text)
      ∷ [])
    ++ "\n"

case_part : List String → List String
unfolding join one_line
case_part [] = []
case_part (c ∷ cs) = ("Case: " ++ join " / " (map one_line (c ∷ cs))) ∷ []

unfoldable pub render_compact : RetrievalRecord → String
unfolding case_part join one_line
render_compact r =
    let authority = if is_floor r then "imported" else r.provenance_status in
    let kind = if str_eq r.ontology_type "LegacyRecord" then "Judgment" else r.ontology_type in
    join " | "
      (("- " ++ kind ++ " (" ++ authority ++ "): " ++ one_line r.text) ∷ case_part r.case_referents)
    ++ "\n"

unfoldable pub render : String → RetrievalRecord → String
unfolding render_audit render_compact
render output_format r = if str_eq output_format "audit" then render_audit r else render_compact r
