-- ===== src/Examples/Judgment.antt =====
-- A pattern, a verdict and a principle that are accepted.
use imprint.Base.{String, ◌≡◌, refl, none, [], ◌∷◌}
use imprint.Ontology.Require.{checks}
use imprint.Ontology.Fault.{ok}
use imprint.Ontology.Json.{null, str, arr, obj, nil, cons, Fields, end, field}
use imprint.Ontology.Provenance.{Provenance}
use imprint.Ontology.Judgment.{verdict, pattern_, knowledge_statement, validate_payload}

abbrev inferred : Provenance
inferred = record {
  status = "inferred";
  authority_tier = "inferred_candidate";
  actor_class = "software";
  actor_id = "urn:imprint:system:0f8fad5b-d9cb-469f-a165-70867728950e";
  mechanism = "derive";
  evidence_ids = "urn:imprint:evidence:7c9e6679-7425-40de-944b-e07fc1f90ae7" ∷ [];
  model = none;
  ratifier_id = none;
}

abbrev case_1 : String
case_1 = "urn:imprint:case:0f8fad5b-d9cb-469f-a165-70867728950e"

abbrev case_2 : String
case_2 = "urn:imprint:case:7c9e6679-7425-40de-944b-e07fc1f90ae7"

abbrev the_pattern : Fields
the_pattern = field "statement" (str "Short answers win") (
    field "case_ids" (arr (cons (str case_1) (cons (str case_2) nil)))
      (field "reason" null (field "reason_status" (str "absent") end)))

abbrev the_verdict : Fields
the_verdict = field "raw_operator_text" (str "No, shorter.") (
    field "call_id" (str "urn:imprint:call:7c9e6679-7425-40de-944b-e07fc1f90ae7") (
      field "chosen_alternative_ids" (arr nil) (
        field "rejected_alternative_ids"
          (arr (cons (str "urn:imprint:alternative:7c9e6679-7425-40de-944b-e07fc1f90ae7") nil))
          (field "reason" (str "too long") (field "reason_status" (str "supplied") end)))))

abbrev the_principle : Fields
the_principle = field "statement" (str "Keep it short") end

pattern_accepted : validate_payload "Pattern" (obj the_pattern) inferred ≡ ok tt
unfolding validate_payload checks pattern_
pattern_accepted = refl

verdict_accepted : validate_payload "Verdict" (obj the_verdict) inferred ≡ ok tt
unfolding validate_payload checks verdict
verdict_accepted = refl

principle_accepted : validate_payload "Principle" (obj the_principle) inferred ≡ ok tt
unfolding validate_payload checks knowledge_statement
principle_accepted = refl
