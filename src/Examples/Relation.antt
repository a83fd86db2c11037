-- ===== src/Examples/Relation.antt =====
-- A purchase of an offer, observed in an import.
use imprint.Base.{String, ◌≡◌, refl, ◌≢◌, true, none, [], ◌∷◌}
use imprint.Ontology.Require.{checks}
use imprint.Ontology.Fault.{ok}
use imprint.Ontology.Json.{null, str, arr, obj, nil, cons, Fields, end, field}
use imprint.Ontology.Provenance.{Provenance, validate_provenance_contract}
use imprint.Ontology.World.{world_signatures, validate_world_relation}
use imprint.Ontology.Registry.{registered, core_signatures}
use imprint.Ontology.Relation.{
  is_world, Relation, is_kind_of, read_ends, read_origin, read_relation, check_relation,
  validate_relation_contract,
}
use imprint.Ontology.Relation.Endpoints.{Fits, Sound, validate_relation_contract-Sound}
use imprint.Ontology.Relation.Observed.{observed-not-inferred}

abbrev imported : Provenance
imported = record {
  status = "extracted";
  authority_tier = "imported_floor";
  actor_class = "importer";
  actor_id = "urn:imprint:system:0f8fad5b-d9cb-469f-a165-70867728950e";
  mechanism = "import";
  evidence_ids = "urn:imprint:evidence:7c9e6679-7425-40de-944b-e07fc1f90ae7" ∷ [];
  model = none;
  ratifier_id = none;
}

abbrev imported_object : Fields
imported_object = field "status" (str "extracted") (
    field "authority_tier" (str "imported_floor") (
      field "actor_class" (str "importer") (
        field "actor_id" (str "urn:imprint:system:0f8fad5b-d9cb-469f-a165-70867728950e") (
          field "mechanism" (str "import") (
            field "evidence_ids"
              (arr (cons (str "urn:imprint:evidence:7c9e6679-7425-40de-944b-e07fc1f90ae7") nil))
              (field "model" null (field "ratifier_id" null end)))))))

abbrev purchase : Relation
purchase = record {
  relation_type = "purchased_via";
  source_type = "Purchase";
  target_type = "Offer";
  source_id = "urn:imprint:purchase:0f8fad5b-d9cb-469f-a165-70867728950e";
  target_id = "urn:imprint:offer:0f8fad5b-d9cb-469f-a165-70867728950e";
  operator_id = "urn:imprint:operator:0f8fad5b-d9cb-469f-a165-70867728950e";
  evidence_mode = "observed";
  why = "the invoice names the offer";
  provenance = imported;
}

abbrev purchase_object : Fields
purchase_object = field "record_schema_version" (str "3.1.0") (
    field "relation_id" (str "urn:imprint:relation:0f8fad5b-d9cb-469f-a165-70867728950e") (
      field "relation_type" (str purchase.relation_type) (
        field "source_id" (str purchase.source_id) (
          field "source_type" (str purchase.source_type) (
            field "target_id" (str purchase.target_id) (
              field "target_type" (str purchase.target_type) (
                field "operator_id" (str purchase.operator_id) (
                  field "evidence_mode" (str purchase.evidence_mode) (
                    field "why" (str purchase.why)
                      (field "provenance" (obj imported_object) end))))))))))

purchase_accepted : validate_relation_contract (obj purchase_object) ≡ ok purchase
unfolding validate_relation_contract read_relation read_ends check_relation checks is_kind_of
    registered core_signatures world_signatures validate_provenance_contract validate_world_relation
purchase_accepted = refl

validate_relation_contract-Sound_example :
    Fits "purchased_via" "Purchase" "Offer"
    × ((fields : Fields) × (obj purchase_object ≡ obj fields) × (read_origin fields ≡ ok imported))
    × Sound purchase
validate_relation_contract-Sound_example =
    validate_relation_contract-Sound (obj purchase_object) purchase purchase_accepted

world : is_world purchase ≡ true
unfolding world_signatures
world = refl

observed-not-inferred_example : ◌≢◌ {A = String} "extracted" "inferred"
observed-not-inferred_example =
    observed-not-inferred (obj purchase_object) purchase purchase_accepted world refl
