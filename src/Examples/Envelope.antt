-- ===== src/Examples/Envelope.antt =====
-- A capture envelope with one alternative of each kind.
use imprint.Base.{String, ◌≡◌, refl, none, [], ◌∷◌}
use imprint.Ontology.Fault.{ok, err, type_error}
use imprint.Ontology.Json.{Json, null, str, arr, obj, nil, cons, Fields, end, field}
use imprint.Capture.Envelope.{Envelope, envelope_checks, validate_capture_envelope}
use imprint.Capture.Envelope.Valid.{Sound, validate_capture_envelope-Sound}

abbrev pub zeros : String
zeros = "0000000000000000000000000000000000000000000000000000000000000000"

abbrev case_fields : Fields
case_fields =
    (field "case_id" (str "urn:imprint:case:0f8fad5b-d9cb-469f-a165-708677289504") (
      field "description" (str "a long answer") (
        field "artifact_refs" (arr nil) (
          field "source_refs"
            (arr (cons (str "urn:imprint:evidence:0f8fad5b-d9cb-469f-a165-708677289505") nil))
            end))))

abbrev verdict_fields : Fields
verdict_fields =
    (field "verdict_id" (str "urn:imprint:verdict:0f8fad5b-d9cb-469f-a165-708677289506") (
      field "raw_operator_text" (str "No, shorter.") (
        field "call"
          (obj (
            field "call_id" (str "urn:imprint:call:0f8fad5b-d9cb-469f-a165-708677289507")
              (field "call_type" (str "correct") end)))
          (field "chosen_alternative_ids"
            (arr (cons (str "urn:imprint:alternative:0f8fad5b-d9cb-469f-a165-708677289508") nil))
            (field "rejected_alternative_ids"
              (arr (cons (str "urn:imprint:alternative:0f8fad5b-d9cb-469f-a165-708677289509") nil))
              (field "reason" null (field "reason_status" (str "absent") end)))))))

abbrev alternatives : Json
alternatives =
    (arr (
      cons
        (obj (
          field "alternative_id"
            (str "urn:imprint:alternative:0f8fad5b-d9cb-469f-a165-708677289508")
            (field "description" (str "short") (field "disposition" (str "chosen") end))))
        (cons
          (obj (
            field "alternative_id"
              (str "urn:imprint:alternative:0f8fad5b-d9cb-469f-a165-708677289509")
              (field "description" (str "long") (field "disposition" (str "rejected") end))))
          nil)))

abbrev evidence : Json
evidence =
    (arr (
      cons
        (obj (
          field "evidence_id" (str "urn:imprint:evidence:0f8fad5b-d9cb-469f-a165-708677289505") (
            field "kind" (str "operator_verbatim") (
              field "content" (str "No, shorter.") (
                field "content_sha256" (str zeros)
                  (field "source_locator" (str "capture:s") end))))))
        nil))

abbrev provenance_fields : Fields
provenance_fields =
    (field "status" (str "captured") (
      field "authority_tier" (str "observed_candidate") (
        field "actor_class" (str "software") (
          field "actor_id" (str "hook") (
            field "captured_by" (str "hook") (
              field "model" null (
                field "evidence_ids"
                  (arr (cons (str "urn:imprint:evidence:0f8fad5b-d9cb-469f-a165-708677289505") nil))
                  end)))))))

abbrev pub envelope_with : Json → Json
envelope_with mechanism = obj (
    field "record_schema_version" (str "3.0.0") (
      field "input_event_id" (str "urn:imprint:event:0f8fad5b-d9cb-469f-a165-708677289501") (
        field "operator_id" (str "urn:imprint:operator:0f8fad5b-d9cb-469f-a165-708677289502") (
          field "session_id" (str "urn:imprint:session:0f8fad5b-d9cb-469f-a165-708677289503") (
            field "node_id" (str "laptop-1") (
              field "captured_at" (str "2026-01-01T00:00:00Z") (
                field "capture_mechanism" mechanism (
                  field "case" (obj case_fields) (
                    field "verdict" (obj verdict_fields) (
                      field "alternatives" alternatives (
                        field "evidence" evidence (
                          field "provenance" (obj provenance_fields)
                            (field "extensions" (obj end) end)))))))))))))

abbrev pub envelope : Envelope
envelope = record {
  head = record {
    input_event_id = "urn:imprint:event:0f8fad5b-d9cb-469f-a165-708677289501";
    operator_id = "urn:imprint:operator:0f8fad5b-d9cb-469f-a165-708677289502";
    session_id = "urn:imprint:session:0f8fad5b-d9cb-469f-a165-708677289503";
    node_id = "laptop-1";
    captured_at = "2026-01-01T00:00:00Z";
  };
  raw_operator_text = "No, shorter.";
  reason = none;
  chosen_alternative_ids = "urn:imprint:alternative:0f8fad5b-d9cb-469f-a165-708677289508" ∷ [];
  rejected_alternative_ids = "urn:imprint:alternative:0f8fad5b-d9cb-469f-a165-708677289509" ∷ [];
  alternatives =
      record {
        alternative_id = "urn:imprint:alternative:0f8fad5b-d9cb-469f-a165-708677289508";
        disposition = "chosen";
      }
      ∷ record {
        alternative_id = "urn:imprint:alternative:0f8fad5b-d9cb-469f-a165-708677289509";
        disposition = "rejected";
      }
      ∷ [];
  evidence =
      record {
        evidence_id = "urn:imprint:evidence:0f8fad5b-d9cb-469f-a165-708677289505";
        kind = "operator_verbatim";
        content = "No, shorter.";
        content_sha256 = zeros;
      }
      ∷ [];
  source_refs = "urn:imprint:evidence:0f8fad5b-d9cb-469f-a165-708677289505" ∷ [];
}

accepted :
    validate_capture_envelope (λ s. zeros) (λ v. 1000) (envelope_with (str "explicit_cli"))
    ≡ ok envelope
unfolding envelope_checks
accepted = refl

-- A list is not hashable, and `in` raises.
raises :
    validate_capture_envelope (λ s. zeros) (λ v. 1000) (envelope_with (arr nil)) ≡ err type_error
unfolding envelope_checks
raises = refl

validate_capture_envelope-Sound_example : Sound (λ s. zeros) (λ v. 1000) envelope
validate_capture_envelope-Sound_example =
    validate_capture_envelope-Sound (λ s. zeros) (λ v. 1000) (envelope_with (str "explicit_cli"))
      envelope accepted
