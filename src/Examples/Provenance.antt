-- ===== src/Examples/Provenance.antt =====
-- Provenance objects that the contract accepts and refuses.
use imprint.Ontology.Require.{checks}
use imprint.Base.{String, ◌≡◌, refl, none, some, [], ◌∷◌}
use imprint.Ontology.Fault.{ok}
use imprint.Ontology.Json.{null, str, arr, obj, nil, cons, Fields, end, field, find}
use imprint.Ontology.Provenance.{Provenance, validate_provenance_contract}
use imprint.Ontology.Provenance.Standing.{Standing, validate_provenance_contract-Standing}

abbrev operator : String
operator = "urn:imprint:operator:0f8fad5b-d9cb-469f-a165-70867728950e"

abbrev evidence : String
evidence = "urn:imprint:evidence:7c9e6679-7425-40de-944b-e07fc1f90ae7"

abbrev ratified_object : Fields
ratified_object = field "status" (str "ratified") (
    field "authority_tier" (str "ratified_knowledge") (
      field "actor_class" (str "operator") (
        field "actor_id" (str operator) (
          field "mechanism" (str "review") (
            field "evidence_ids" (arr (cons (str evidence) nil))
              (field "model" null (field "ratifier_id" (str operator) end)))))))

abbrev ratified_provenance : Provenance
ratified_provenance = record {
  status = "ratified";
  authority_tier = "ratified_knowledge";
  actor_class = "operator";
  actor_id = operator;
  mechanism = "review";
  evidence_ids = evidence ∷ [];
  model = none;
  ratifier_id = some operator;
}

accepted : validate_provenance_contract (obj ratified_object) ≡ ok ratified_provenance
unfolding validate_provenance_contract checks
accepted = refl

validate_provenance_contract-Standing_example :
    (find "status" ratified_object ≡ some (str "ratified"))
    × (find "authority_tier" ratified_object ≡ some (str "ratified_knowledge"))
    × (find "actor_class" ratified_object ≡ some (str "operator"))
    × (find "actor_id" ratified_object ≡ some (str operator))
    × Standing ratified_provenance
validate_provenance_contract-Standing_example =
    validate_provenance_contract-Standing ratified_object ratified_provenance accepted
