-- ===== src/Ontology/Judgment.antt =====
-- ontology/judgment.py: the payloads of the judgment and calibration nodes. A validator returns its
-- payload unchanged, so what is modelled is what it refuses.
pub mod Grounds
use imprint.Base.{
  ℕ, zero, suc, ◌+◌, ◌-◌, ◌*◌, ◌/◌, ◌%◌, ◌≤◌, ◌<◌, String, ◌≡◌, refl, sym, ap, ◌∙◌, ◌≢◌, ◌↔◌, ◌⊎◌,
  inl, inr, Bool, true, false, not, ◌&&◌, ◌||◌, Option, none, some, List, [], ◌∷◌, ◌++◌, map,
  reverse, arith, ltb, leb, ◌==◌, str_eq, str_eq_iff, if◌then◌else◌, Bool-cases, Option-cases,
  tests, length, length-append, keep, all, any, All, mem, distinct, ℤ, pos, negsuc, pos_part,
  neg_part, sub_ℕ, negate_ℕ, negate, ltbℤ, eqbℤ, codes, codes_eq, has_text, is_digit, is_lower,
  text_lt,
}
use imprint.Ontology.Fault.{
  Checked, ok, err, ◌>>=◌, ◌>>◌, demand, refuse_if, validation_error, type_error,
}
use imprint.Ontology.Json.{
  Json, null, bool, str, arr, obj, Items, nil, cons, Fields, item, has_key, keys, is_str, in_set,
}
use imprint.Ontology.Require.{
  require_exact_fields, require_confidence, validate_reason, member_at, text_at, urn_at, urns_at,
  time_at,
}
use imprint.Ontology.Provenance.{Provenance}
use imprint.Domains.Rule.{is_safe_id}

abbrev pub disjoint : List String → List String → Bool
disjoint xs ys = all (λ x. not (mem x ys)) xs

abbrev pub nonempty : List String → Bool
nonempty [] = false
nonempty (x ∷ xs) = true

-- a list of texts that are not empty
abbrev text_items : Items → Bool
text_items nil = true
text_items (cons (str s) vs) = not (str_eq s "") && text_items vs
text_items (cons _ vs) = false

abbrev is_text_list : Json → Bool
is_text_list (arr vs) = text_items vs
is_text_list _ = false

abbrev is_bool : Json → Bool
is_bool (bool b) = true
is_bool _ = false

abbrev is_null : Json → Bool
is_null null = true
is_null _ = false

module _ (value : Fields) where
  abbrev pub reason_of : Checked (Unit {0})
  reason_of = do
    reason ← item "reason" value
    status ← item "reason_status" value
    validate_reason reason status "reason"

  -- `_urn_list`
  abbrev pub urn_list : String → String → Checked (List String)
  urn_list key kind = urns_at key value (some kind) key

  unfoldable pub case_ : Checked (Unit {0})
  case_ = do
    require_exact_fields value ("description" ∷ "source_refs" ∷ "artifact_refs" ∷ []) "Case payload"
    text_at "description" value "Case.description"
    refs ← urn_list "source_refs" "evidence"
    demand (nonempty refs) "Case.source_refs must not be empty"
    artifacts ← item "artifact_refs" value
    demand (is_text_list artifacts) "Case.artifact_refs must be strings"

  unfoldable pub call : Checked (Unit {0})
  call = do
    require_exact_fields value ("call_type" ∷ []) "Call payload"
    member_at "call_type" value ("accept" ∷ "reject" ∷ "correct" ∷ "prefer" ∷ "refuse" ∷ [])
        "Call.call_type is invalid"
    ok tt

  unfoldable pub alternative : Checked (Unit {0})
  alternative = do
    require_exact_fields value ("description" ∷ "disposition" ∷ []) "Alternative payload"
    text_at "description" value "Alternative.description"
    member_at "disposition" value ("chosen" ∷ "rejected" ∷ []) "Alternative.disposition is invalid"
    ok tt

  unfoldable pub verdict : Checked (Unit {0})
  verdict = do
    require_exact_fields value
        ("raw_operator_text" ∷ "call_id" ∷ "chosen_alternative_ids" ∷ "rejected_alternative_ids"
          ∷ "reason" ∷ "reason_status" ∷ [])
        "Verdict payload"
    text_at "raw_operator_text" value "Verdict.raw_operator_text"
    urn_at "call_id" value (some "call") "Verdict.call_id"
    chosen ← urn_list "chosen_alternative_ids" "alternative"
    rejected ← urn_list "rejected_alternative_ids" "alternative"
    demand (disjoint chosen rejected) "a Verdict cannot both choose and reject an Alternative"
    reason_of

  unfoldable pub pattern_ : Provenance → Checked (Unit {0})
  pattern_ provenance = do
    require_exact_fields value ("statement" ∷ "case_ids" ∷ "reason" ∷ "reason_status" ∷ [])
        "Pattern payload"
    text_at "statement" value "Pattern.statement"
    case_ids ← urn_list "case_ids" "case"
    demand (nonempty case_ids) "Pattern.case_ids must not be empty"
    demand (leb 2 (length case_ids)) "Pattern requires at least two distinct Case inputs"
    reason_of
    demand (mem provenance.status ("inferred" ∷ "ratified" ∷ []))
        "Pattern must be inferred or ratified, never raw captured truth"

  -- the four shapes of a knowledge payload
  abbrev pub knowledge_fields : List String
  knowledge_fields =
      let domain = if has_key "domain_id" value then "domain_id" ∷ [] else [] in
      let reason =
        if has_key "reason" value && has_key "reason_status" value
        then "reason" ∷ "reason_status" ∷ domain
        else domain in
      "statement" ∷ reason

  abbrev pub domain_of : Checked (Unit {0})
  domain_of = do
    d ← text_at "domain_id" value "knowledge.domain_id"
    demand (is_safe_id d) "knowledge.domain_id must be a safe lowercase identifier"

  unfoldable pub knowledge_statement : Provenance → Checked (Unit {0})
  knowledge_statement provenance = do
    require_exact_fields value knowledge_fields "knowledge payload"
    text_at "statement" value "knowledge.statement"
    if has_key "domain_id" value then domain_of else ok tt
    if has_key "reason" value then reason_of else ok tt
    refuse_if (str_eq provenance.status "captured")
        "derived knowledge must be extracted, inferred, or ratified"

  unfoldable pub domain : Checked (Unit {0})
  domain = do
    require_exact_fields value
        ("domain_id" ∷ "public_label" ∷ "description" ∷ "selected" ∷ "frozen" ∷ []) "Domain payload"
    text_at "domain_id" value "Domain.domain_id"
    text_at "public_label" value "Domain.public_label"
    text_at "description" value "Domain.description"
    selected ← item "selected" value
    frozen ← item "frozen" value
    demand (is_bool selected && is_bool frozen) "Domain.selected and Domain.frozen must be booleans"

  abbrev pub resolution : String → Checked (Unit {0})
  resolution assessment =
      if str_eq assessment "pending"
      then (do
        outcome ← item "outcome_id" value
        resolved ← item "resolved_at" value
        demand (is_null outcome && is_null resolved)
            "pending CalibrationTrial cannot have a resolution")
      else (do
        urn_at "outcome_id" value (some "outcome") "CalibrationTrial.outcome_id"
        time_at "resolved_at" value "CalibrationTrial.resolved_at"
        ok tt)

  unfoldable pub calibration : Checked (Unit {0})
  calibration = do
    require_exact_fields value
        ("prediction" ∷ "predicted_at" ∷ "confidence" ∷ "outcome_id" ∷ "resolved_at" ∷ "assessment"
          ∷ "reason" ∷ "reason_status" ∷ [])
        "CalibrationTrial payload"
    text_at "prediction" value "CalibrationTrial.prediction"
    time_at "predicted_at" value "CalibrationTrial.predicted_at"
    confidence ← item "confidence" value
    require_confidence confidence "CalibrationTrial.confidence"
    assessment ←
        member_at "assessment" value ("pending" ∷ "confirmed" ∷ "disconfirmed" ∷ "mixed" ∷ [])
          "CalibrationTrial.assessment is invalid"
    reason_of
    resolution assessment

abbrev pub knowledge_types : List String
knowledge_types = "Principle" ∷ "Belief" ∷ "Value" ∷ "Rule" ∷ []

-- `PAYLOAD_VALIDATORS`, once the payload is an object
unfoldable pub dispatch : String → Fields → Provenance → Checked (Unit {0})
dispatch node_type value provenance =
    if str_eq node_type "Case"
    then case_ value
    else if str_eq node_type "Verdict"
    then verdict value
    else if str_eq node_type "Call"
    then call value
    else if str_eq node_type "Alternative"
    then alternative value
    else if str_eq node_type "Pattern"
    then pattern_ value provenance
    else if str_eq node_type "CalibrationTrial"
    then calibration value
    else if mem node_type knowledge_types
    then knowledge_statement value provenance
    else if str_eq node_type "Domain"
    then domain value
    else err (validation_error "unsupported ontology node_type")

abbrev pub judgment_types : List String
judgment_types =
    "Case" ∷ "Verdict" ∷ "Call" ∷ "Alternative" ∷ "Pattern" ∷ "CalibrationTrial" ∷ "Domain"
    ∷ knowledge_types

abbrev pub of_object : String → Json → Provenance → Checked (Unit {0})
of_object node_type (obj value) provenance = dispatch node_type value provenance
of_object node_type _ provenance = err (validation_error "payload must be an object")

unfoldable pub validate_payload : String → Json → Provenance → Checked (Unit {0})
unfolding dispatch
validate_payload node_type payload provenance = do
  demand (mem node_type judgment_types) "unsupported ontology node_type"
  of_object node_type payload provenance
