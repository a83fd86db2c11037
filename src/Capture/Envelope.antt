-- ===== src/Capture/Envelope.antt =====
-- capture/schema.py: `validate_capture_envelope`, on Python's decoded JSON. SHA-256, and the number
-- of bytes of the canonical JSON, are parameters. What comes back is what the validator has read.
pub mod Listed
pub mod Valid
use imprint.Base.{
  ℕ, zero, suc, ◌+◌, ◌-◌, ◌*◌, ◌/◌, ◌%◌, ◌≤◌, ◌<◌, String, ◌≡◌, refl, sym, ap, ◌∙◌, ◌≢◌, ◌↔◌, ◌⊎◌,
  inl, inr, Bool, true, false, not, ◌&&◌, ◌||◌, Option, none, some, List, [], ◌∷◌, ◌++◌, map,
  reverse, arith, ltb, leb, ◌==◌, str_eq, str_eq_iff, if◌then◌else◌, Bool-cases, Option-cases,
  tests, length, length-append, keep, all, any, All, mem, distinct, ℤ, pos, negsuc, pos_part,
  neg_part, sub_ℕ, negate_ℕ, negate, ltbℤ, eqbℤ, codes, codes_eq, has_text, is_digit, is_lower,
  text_lt,
}
use imprint.Time.{parse_iso}
use imprint.Ontology.Urn.{is_urn, require_urn}
use imprint.Authority.Request.{is_sha256}
use imprint.Ontology.Urn.{require_urn, is_urn}
use imprint.Time.{parse_iso}
use imprint.Ontology.Fault.{
  Checked, ok, err, ◌>>=◌, ◌>>◌, demand, refuse_if, validation_error, type_error,
}
use imprint.Ontology.Json.{
  Json, null, int, float, str, bool, Fields, end, field, keys, in_set, is_str, Items, arr, cons,
  nil, obj, item,
}
use imprint.Ontology.Require.{require_exact_fields, all_hashable, texts, urn_at}
use imprint.Capture.Schema.{
  is_node_id, read_alternative, read_evidence, text, Alternative, Evidence, top_level,
  capture_mechanisms, text, text_field, node, closed, utc_time, object, list, object_field,
  list_field, known_ids, check_call, read_reason, read_alternatives, alternative_ids, chosen_ids,
  read_evidences, evidence_ids, is_node_id, read_alternative, read_evidence,
}

-- the fields of the top level, by themselves
pub record Head : Type 0 where
  pub input_event_id : String
  pub operator_id : String
  pub session_id : String
  pub node_id : String
  pub captured_at : String

pub record Envelope : Type 0 where
  pub head : Head
  pub raw_operator_text : String
  pub reason : Option String
  pub chosen_alternative_ids : List String
  pub rejected_alternative_ids : List String
  pub alternatives : List Alternative
  pub evidence : List Evidence
  pub source_refs : List String

unfoldable pub read_head : Fields → Checked Head
read_head value = do
  version ← item "record_schema_version" value
  demand (is_str version "3.0.0") "unsupported record schema version"
  event ← urn_at "input_event_id" value (some "event") "input_event_id"
  operator ← urn_at "operator_id" value (some "operator") "operator_id"
  session ← urn_at "session_id" value (some "session") "session_id"
  n ← item "node_id" value
  node_id ← node n
  closed "capture_mechanism" value capture_mechanisms
  t ← item "captured_at" value
  captured_at ← utc_time t
  ok (record {
    input_event_id = event;
    operator_id = operator;
    session_id = session;
    node_id = node_id;
    captured_at = captured_at;
  })

abbrev all_texts : Items → Bool
all_texts nil = true
all_texts (cons (str s) vs) = all_texts vs
all_texts (cons _ vs) = false

-- the case and the verdict by themselves: the operator's words and the reason
unfoldable pub read_words : Fields → Fields → Checked (String × Option String)
read_words case_ verdict = do
  require_exact_fields case_ ("case_id" ∷ "description" ∷ "artifact_refs" ∷ "source_refs" ∷ [])
      "case"
  require_exact_fields verdict
      ("verdict_id" ∷ "raw_operator_text" ∷ "call" ∷ "chosen_alternative_ids"
        ∷ "rejected_alternative_ids" ∷ "reason" ∷ "reason_status" ∷ [])
      "verdict"
  urn_at "case_id" case_ (some "case") "case.case_id"
  urn_at "verdict_id" verdict (some "verdict") "verdict.verdict_id"
  text_field "description" case_
  words ← text_field "raw_operator_text" verdict
  refs ← list_field "artifact_refs" case_
  demand (all_texts refs) "case.artifact_refs must be strings"
  check_call verdict
  reason ← read_reason verdict
  ok (words, reason)

abbrev pub all_in : List String → List String → Bool
all_in xs ys = all (λ x. mem x ys) xs

unfoldable pub read_choices :
    Fields → Fields → Checked (List Alternative × (List String × List String))
read_choices value verdict = do
  items ← list_field "alternatives" value
  alternatives ← read_alternatives [] items
  chosen ← chosen_ids alternatives "chosen_alternative_ids" "chosen" verdict
  rejected ← chosen_ids alternatives "rejected_alternative_ids" "rejected" verdict
  demand
      (all_in (alternative_ids alternatives) (chosen ++ rejected)
        && all_in (chosen ++ rejected) (alternative_ids alternatives))
      "unreferenced alternative"
  ok (alternatives, (chosen, rejected))

-- some evidence holds the operator's words
abbrev pub verbatim : String → List Evidence → Bool
verbatim words evidence =
    any (λ (e : Evidence). str_eq e.kind "operator_verbatim" && str_eq e.content words) evidence

abbrev is_nil : Items → Bool
is_nil nil = true
is_nil (cons v vs) = false

abbrev is_null : Json → Bool
is_null null = true
is_null _ = false

-- `actor_id == captured_by`. Values that are no texts are refused, here or as `captured_by`.
abbrev same_actor : Json → Json → Bool
same_actor (str a) v = is_str v a
same_actor _ v = false

-- `set(value)`: the members of a list, or the keys of an object
abbrev as_set : Json → Checked (List String)
as_set (arr items) = if all_hashable items then texts items else err type_error
as_set (obj fields) = ok (keys fields)
as_set (str s) = err (validation_error "provenance references are incomplete")
as_set _ = err type_error

unfoldable pub check_provenance : List String → Fields → Checked (Unit {0})
unfolding texts text_field
check_provenance known p = do
  require_exact_fields p
      ("status" ∷ "authority_tier" ∷ "actor_class" ∷ "actor_id" ∷ "captured_by" ∷ "model"
        ∷ "evidence_ids" ∷ [])
      "provenance"
  status ← item "status" p
  tier ← item "authority_tier" p
  class ← item "actor_class" p
  model ← item "model" p
  demand
      (is_str status "captured"
        && is_str tier "observed_candidate"
        && is_str class "software"
        && is_null model)
      "raw recorder capture must remain a non-authoritative candidate"
  actor ← item "actor_id" p
  captured_by ← item "captured_by" p
  demand (same_actor actor captured_by) "provenance references are incomplete"
  v ← item "evidence_ids" p
  ids ← as_set v
  demand (all_in ids known && all_in known ids) "provenance references are incomplete"
  text_field "captured_by" p
  ok tt

unfoldable pub check_extensions : Fields → Checked (Unit {0})
check_extensions end = ok tt
check_extensions (field namespace v rest) = do
  demand (any (λ c. c == b'.') (codes namespace)) "invalid extension namespace"
  extension ← object v
  require_exact_fields extension ("schema_version" ∷ "payload" ∷ []) "extension"
  check_extensions rest

abbrev pub max_event_bytes : ℕ
max_event_bytes = 1024 * 1024

module _ (sha256 : String → String) (json_bytes : Json → ℕ) where
  unfoldable pub read_grounds : Fields → Fields → String → Checked (List Evidence × List String)
  read_grounds value case_ words = do
    items ← list_field "evidence" value
    demand (not (is_nil items)) "evidence must be a non-empty list"
    evidence ← read_evidences sha256 [] items
    refs ← known_ids "source_refs" case_
    demand (all_in refs (evidence_ids evidence)) "case.source_refs contains an unknown evidence ID"
    demand (verbatim words evidence) "verbatim operator evidence is missing"
    ok (evidence, refs)

  unfoldable pub validate_fields : Json → Fields → Checked Envelope
  validate_fields whole value = do
    require_exact_fields value top_level "top-level"
    head ← read_head value
    c ← item "case" value
    v ← item "verdict" value
    case_ ← object c
    verdict ← object v
    (words, reason) ← read_words case_ verdict
    (alternatives, (chosen, rejected)) ← read_choices value verdict
    (evidence, refs) ← read_grounds value case_ words
    p ← object_field "provenance" value
    check_provenance (evidence_ids evidence) p
    extensions ← object_field "extensions" value
    check_extensions extensions
    demand (leb (json_bytes whole) max_event_bytes) "capture envelope is oversized"
    ok (record {
      head = head;
      raw_operator_text = words;
      reason = reason;
      chosen_alternative_ids = chosen;
      rejected_alternative_ids = rejected;
      alternatives = alternatives;
      evidence = evidence;
      source_refs = refs;
    })

  unfoldable pub validate_capture_envelope : Json → Checked Envelope
  unfolding validate_fields
  validate_capture_envelope (obj fields) = validate_fields (obj fields) fields
  validate_capture_envelope _ = err (validation_error "capture envelope must be an object")

-- opens every check of an envelope, for a test
unfoldable pub envelope_checks : Unit {0}
unfolding parse_iso is_urn require_urn has_text require_exact_fields urn_at texts is_sha256 text
    text_field is_node_id utc_time known_ids read_reason read_alternative read_alternatives
    chosen_ids read_evidence read_evidences read_head read_words read_choices check_provenance
    check_extensions read_grounds validate_fields validate_capture_envelope
envelope_checks = tt
