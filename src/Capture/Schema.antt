-- ===== src/Capture/Schema.antt =====
-- capture/schema.py: the parts of a capture envelope, on Python's decoded JSON. SHA-256 is a parameter.
-- What comes back is what the validator has read.
use imprint.Base.{
  ℕ, ◌+◌, ◌*◌, String, Bool, false, not, ◌&&◌, ◌||◌, Option, none, some, List, [], ◌∷◌, ltb, leb,
  ◌==◌, str_eq, if◌then◌else◌, length, all, mem, distinct, codes, has_text, is_digit, is_lower,
}
use imprint.Time.{Stamp, parse_iso, day_us}
use imprint.Ontology.Fault.{
  Checked, ok, err, ◌>>=◌, ◌>>◌, demand, refuse_if, validation_error, type_error,
}
use imprint.Ontology.Json.{Json, null, str, Fields, in_set, Items, arr, cons, nil, obj, item}
use imprint.Ontology.Require.{require_exact_fields, all_hashable, texts, urn_at}
use imprint.Authority.Request.{is_sha256}

-- `_TOP_LEVEL`
abbrev pub top_level : List String
top_level =
    "record_schema_version" ∷ "input_event_id" ∷ "operator_id" ∷ "session_id" ∷ "node_id"
    ∷ "captured_at" ∷ "capture_mechanism" ∷ "case" ∷ "verdict" ∷ "alternatives" ∷ "evidence"
    ∷ "provenance" ∷ "extensions" ∷ []

abbrev pub capture_mechanisms : List String
capture_mechanisms = "claude_code_stop_hook" ∷ "explicit_cli" ∷ "approved_import" ∷ []

abbrev pub evidence_kinds : List String
evidence_kinds = "operator_verbatim" ∷ "artifact" ∷ "context" ∷ []

abbrev pub dispositions : List String
dispositions = "chosen" ∷ "rejected" ∷ []

abbrev pub call_types : List String
call_types = "accept" ∷ "reject" ∷ "correct" ∷ "prefer" ∷ "refuse" ∷ []

abbrev pub reason_statuses : List String
reason_statuses = "absent" ∷ "pending" ∷ "supplied" ∷ "later_added" ∷ []

abbrev pub supplied_statuses : List String
supplied_statuses = "supplied" ∷ "later_added" ∷ []

pub record Alternative : Type 0 where
  pub alternative_id : String
  pub disposition : String

pub record Evidence : Type 0 where
  pub evidence_id : String
  pub kind : String
  pub content : String
  pub content_sha256 : String

-- the number of bytes of a code point in UTF-8
abbrev pub utf8_bytes : ℕ → ℕ
utf8_bytes c = if ltb c 128 then 1 else if ltb c 2048 then 2 else if ltb c 65_536 then 3 else 4

abbrev pub total_bytes : List ℕ → ℕ
total_bytes [] = 0
total_bytes (c ∷ cs) = utf8_bytes c + total_bytes cs

abbrev pub max_text : ℕ
max_text = 256 * 1024

-- `_text`
unfoldable pub text : Json → String → Checked String
text (str s) name = do
  demand (has_text s) name
  demand (leb (total_bytes (codes s)) max_text) name
  ok s
text _ name = err (validation_error name)

unfoldable pub text_field : String → Fields → Checked String
unfolding text
text_field key value = do v ← item key value; text v key

-- `_NODE_ID`
abbrev pub node_char : ℕ → Bool
node_char c = is_lower c || is_digit c || c == b'-'

abbrev pub starts_well : List ℕ → Bool
starts_well [] = false
starts_well (c ∷ cs) = is_lower c || is_digit c

unfoldable pub is_node_id : String → Bool
is_node_id s = starts_well (codes s) && all node_char (codes s) && leb (length (codes s)) 63

abbrev pub node : Json → Checked String
node (str s) = do demand (is_node_id s) "unsafe node_id"; ok s
node _ = err (validation_error "unsafe node_id")

-- a member of a closed set, where `in` raises at a value that is not hashable
abbrev pub closed : String → Fields → List String → Checked Json
closed key value names = do v ← item key value; allowed ← in_set v names; demand allowed key; ok v

abbrev pub in_utc : Option Stamp → Bool
in_utc none = false
in_utc (some t) = t.aware && t.instant == t.local + day_us

-- A value that is not a text never prints as a timestamp.
unfoldable pub utc_time : Json → Checked String
utc_time (str s) = do demand (in_utc (parse_iso s)) "captured_at must be UTC"; ok s
utc_time _ = err (validation_error "captured_at must be RFC3339")

abbrev pub object : Json → Checked Fields
object (obj fields) = ok fields
object _ = err (validation_error "must be an object")

abbrev pub list : Json → Checked Items
list (arr items) = ok items
list _ = err (validation_error "must be a list")

abbrev pub object_field : String → Fields → Checked Fields
object_field key value = do v ← item key value; object v

abbrev pub list_field : String → Fields → Checked Items
list_field key value = do v ← item key value; list v

-- A list whose members are compared with known texts as a set: a member that is not hashable
-- raises, and one that is no text is unknown.
unfoldable pub known_ids : String → Fields → Checked (List String)
unfolding texts
known_ids key value = do
  items ← list_field key value
  if all_hashable items then texts items else err type_error

abbrev pub reason_of : Json → Json → Checked (Option String)
reason_of null status = do
  supplied ← in_set status supplied_statuses
  refuse_if supplied "reason status fabricates a missing reason"
  ok none
reason_of v status = do
  s ← text v "verdict.reason"
  supplied ← in_set status supplied_statuses
  demand supplied "reason and reason_status disagree"
  ok (some s)

-- `verdict["call"]`
abbrev pub check_call : Fields → Checked (Unit {0})
check_call verdict = do
  call ← object_field "call" verdict
  require_exact_fields call ("call_id" ∷ "call_type" ∷ []) "call"
  urn_at "call_id" call (some "call") "call.call_id"
  closed "call_type" call call_types
  ok tt

-- the reason, which stands exactly where its status says so
unfoldable pub read_reason : Fields → Checked (Option String)
unfolding text
read_reason verdict = do
  status ← closed "reason_status" verdict reason_statuses
  v ← item "reason" verdict
  reason_of v status

abbrev pub alternative_ids : List Alternative → List String
alternative_ids [] = []
alternative_ids (a ∷ as') = a.alternative_id ∷ alternative_ids as'

abbrev pub disposition_text : Json → Checked String
disposition_text (str s) = ok s
disposition_text _ = err (validation_error "invalid or duplicate alternative")

unfoldable pub read_alternative : List String → Json → Checked Alternative
unfolding text_field
read_alternative seen v = do
  item' ← object v
  require_exact_fields item' ("alternative_id" ∷ "description" ∷ "disposition" ∷ []) "alternative"
  id ← urn_at "alternative_id" item' (some "alternative") "alternative.alternative_id"
  text_field "description" item'
  d ← closed "disposition" item' dispositions
  demand (not (mem id seen)) "invalid or duplicate alternative"
  disposition ← disposition_text d
  ok (record { alternative_id = id; disposition = disposition })

-- the loop over the alternatives, with the identities seen so far
unfoldable pub read_alternatives : List String → Items → Checked (List Alternative)
unfolding read_alternative
read_alternatives seen nil = ok []
read_alternatives seen (cons v vs) = do
  a ← read_alternative seen v
  rest ← read_alternatives (a.alternative_id ∷ seen) vs
  ok (a ∷ rest)

-- `by_id.get(id) == disposition`
abbrev pub disposed : List Alternative → String → String → Bool
disposed [] disposition id = false
disposed (a ∷ as') disposition id =
    if str_eq id a.alternative_id
    then str_eq a.disposition disposition
    else disposed as' disposition id

-- `verdict[key]`, a list of distinct identities of alternatives with a disposition
unfoldable pub chosen_ids : List Alternative → String → String → Fields → Checked (List String)
unfolding known_ids
chosen_ids alternatives key disposition verdict = do
  ids ← known_ids key verdict
  demand (distinct ids) "must be a unique list"
  demand (all (disposed alternatives disposition) ids) "does not match alternatives"
  ok ids

abbrev pub kind_text : Json → Checked String
kind_text (str s) = ok s
kind_text _ = err (validation_error "invalid or duplicate evidence")

abbrev pub digest_of : Json → Checked String
digest_of (str s) = do demand (is_sha256 s) "invalid evidence hash"; ok s
digest_of _ = err (validation_error "invalid evidence hash")

abbrev pub evidence_ids : List Evidence → List String
evidence_ids [] = []
evidence_ids (e ∷ es) = e.evidence_id ∷ evidence_ids es

module _ (sha256 : String → String) where
  unfoldable pub read_evidence : List String → Json → Checked Evidence
  unfolding text_field
  read_evidence seen v = do
    item' ← object v
    require_exact_fields item'
        ("evidence_id" ∷ "kind" ∷ "content" ∷ "content_sha256" ∷ "source_locator" ∷ []) "evidence"
    id ← urn_at "evidence_id" item' (some "evidence") "evidence.evidence_id"
    content ← text_field "content" item'
    k ← closed "kind" item' evidence_kinds
    demand (not (mem id seen)) "invalid or duplicate evidence"
    kind ← kind_text k
    h ← item "content_sha256" item'
    digest ← digest_of h
    demand (str_eq (sha256 content) digest) "evidence hash mismatch"
    text_field "source_locator" item'
    ok (record { evidence_id = id; kind = kind; content = content; content_sha256 = digest })

  -- the loop over the evidence, with the identities seen so far
  unfoldable pub read_evidences : List String → Items → Checked (List Evidence)
  unfolding read_evidence
  read_evidences seen nil = ok []
  read_evidences seen (cons v vs) = do
    e ← read_evidence seen v
    rest ← read_evidences (e.evidence_id ∷ seen) vs
    ok (e ∷ rest)
