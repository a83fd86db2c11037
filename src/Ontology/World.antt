-- ===== src/Ontology/World.antt =====
-- ontology/world.py: the node types of the business model, what evidence each may rest on, and the
-- signatures of its relations. A relation's payload comes with its fields of the right types.
use imprint.Base.{
  String, Bool, true, false, not, ◌&&◌, Option, none, some, List, [], ◌∷◌, ◌++◌, str_eq,
  if◌then◌else◌, all, mem, distinct, has_text,
}
use imprint.Ontology.Fault.{Checked, ◌>>◌, demand, refuse_if}
use imprint.Ontology.Urn.{is_urn}
use imprint.Ontology.Provenance.{Provenance}

abbrev pub declared_types : List String
declared_types =
    "Customer" ∷ "Segment" ∷ "Problem" ∷ "Desire" ∷ "Situation" ∷ "Claim" ∷ "Promise"
    ∷ "Expectation" ∷ "Mechanism" ∷ "RequiredBehavior" ∷ "Offer" ∷ "Price" ∷ "Channel" ∷ "Objection"
    ∷ "Proof" ∷ "Intervention" ∷ []

abbrev pub observed_types : List String
observed_types =
    "SupportAction" ∷ "Purchase" ∷ "Usage" ∷ "Result" ∷ "Refund" ∷ "Retention" ∷ "Referral" ∷ []

abbrev pub general_types : List String
general_types = "Observation" ∷ "Outcome" ∷ []

abbrev pub world_types : List String
world_types = declared_types ++ observed_types ++ general_types

abbrev evidence_types : List String
evidence_types = general_types ++ observed_types

-- `None` is any registered node type
pub record Signature : Type 0 where
  pub relation : String
  pub sources : Option (List String)
  pub targets : Option (List String)

abbrev closed : String → List String → List String → Signature
closed relation sources targets = record {
  relation = relation;
  sources = some sources;
  targets = some targets;
}

-- `RELATION_SIGNATURES`
unfoldable pub world_signatures : List Signature
world_signatures =
    closed "targets" ("Offer" ∷ "Claim" ∷ "Intervention" ∷ []) ("Customer" ∷ "Segment" ∷ [])
    ∷ closed "experiences" ("Customer" ∷ "Segment" ∷ []) ("Problem" ∷ [])
    ∷ closed "desires" ("Customer" ∷ "Segment" ∷ []) ("Desire" ∷ [])
    ∷ closed "occurs_in" ("Problem" ∷ "Desire" ∷ []) ("Situation" ∷ [])
    ∷ closed "promises" ("Claim" ∷ "Offer" ∷ []) ("Promise" ∷ [])
    ∷ closed "expects" ("Promise" ∷ "Offer" ∷ []) ("Expectation" ∷ [])
    ∷ closed "requires" ("Expectation" ∷ "Mechanism" ∷ "Offer" ∷ []) ("RequiredBehavior" ∷ [])
    ∷ closed "supported_by" ("Claim" ∷ "Promise" ∷ "Mechanism" ∷ []) ("Proof" ∷ [])
    ∷ closed "delivered_through" ("Offer" ∷ "Intervention" ∷ []) ("Channel" ∷ [])
    ∷ closed "priced_as" ("Offer" ∷ []) ("Price" ∷ [])
    ∷ closed "purchased_via" ("Purchase" ∷ []) ("Offer" ∷ "Channel" ∷ [])
    ∷ closed "used" ("Usage" ∷ []) ("Offer" ∷ "Mechanism" ∷ "Intervention" ∷ [])
    ∷ closed "produced" ("Usage" ∷ "SupportAction" ∷ "Intervention" ∷ [])
        ("Result" ∷ "Outcome" ∷ [])
    ∷ closed "refunded_because" ("Refund" ∷ []) ("Problem" ∷ "Objection" ∷ "Outcome" ∷ [])
    ∷ closed "retained_by" ("Retention" ∷ [])
        ("Offer" ∷ "SupportAction" ∷ "Result" ∷ "Outcome" ∷ [])
    ∷ closed "referred_by" ("Referral" ∷ []) ("Customer" ∷ "Retention" ∷ "Result" ∷ "Outcome" ∷ [])
    ∷ closed "observes" ("Observation" ∷ []) (declared_types ++ observed_types ++ "Outcome" ∷ [])
    ∷ closed "tested_by" declared_types evidence_types
    ∷ closed "confirms" evidence_types declared_types
    ∷ closed "weakens" evidence_types declared_types
    ∷ closed "contradicts" evidence_types declared_types
    ∷ closed "extends" evidence_types declared_types
    ∷ []

abbrev pub signature_of : String → List Signature → Option Signature
signature_of relation [] = none
signature_of relation (s ∷ ss) =
    if str_eq s.relation relation then some s else signature_of relation ss

abbrev pub admits : Option (List String) → String → Bool
admits none t = true
admits (some types) t = mem t types

abbrev pub endpoints_fit : Option Signature → String → String → Bool
endpoints_fit none source target = false
endpoints_fit (some s) source target = admits s.sources source && admits s.targets target

-- `_validate_world_provenance`
unfoldable pub check_world_provenance : Bool → Provenance → Checked (Unit {0})
check_world_provenance true p = do
  demand (str_eq p.actor_class "operator") "declared business theory requires an operator actor"
  demand (mem p.status ("captured" ∷ "ratified" ∷ []))
      "declared business theory must be captured or ratified"
check_world_provenance false p = do
  demand (mem p.status ("extracted" ∷ "inferred" ∷ "ratified" ∷ []))
      "observed business evidence has incompatible provenance"
  refuse_if (str_eq p.status "inferred" && not (str_eq p.authority_tier "observed_candidate"))
      "inferred observations require observed_candidate authority"

abbrev pub is_evidence : String → Bool
is_evidence t = mem t (observed_types ++ general_types)

abbrev pub mode_name : Bool → String
mode_name true = "declared"
mode_name false = "observed"

abbrev pub some_urns : List String → Bool
some_urns [] = false
some_urns (u ∷ us) = all (is_urn none) (u ∷ us) && distinct (u ∷ us)

unfoldable pub validate_world_relation :
    String → String → String → String → String → List String → Provenance → Checked (Unit {0})
unfolding check_world_provenance
validate_world_relation source relation target mode why evidence_ids p = do
  demand (endpoints_fit (signature_of relation world_signatures) source target)
      "invalid endpoint signature"
  demand (str_eq mode (mode_name (not (is_evidence source))))
      "the source requires another evidence_mode"
  demand (has_text why) "why must be a non-empty string"
  demand (some_urns evidence_ids) "source_refs"
  check_world_provenance (not (is_evidence source)) p
