-- ===== src/Ontology/Registry.antt =====
-- The registered node types and relations of ontology/contracts.py.
use imprint.Base.{String, Option, none, some, List, [], ◌∷◌, ◌++◌}
use imprint.Ontology.World.{world_types, Signature, world_signatures, signature_of}

abbrev pub knowledge_types : List String
knowledge_types = "Principle" ∷ "Belief" ∷ "Value" ∷ "Rule" ∷ []

abbrev pub operator_types : List String
operator_types =
    "SelfModelAssertion" ∷ "Observation" ∷ "Cue" ∷ "LexiconTerm" ∷ "InterventionRule"
    ∷ "ConsentGrant" ∷ "DerivationTrace" ∷ []

abbrev pub node_types : List String
node_types =
    "Case"
    ∷ "Verdict"
    ∷ "Call"
    ∷ "Alternative"
    ∷ "Pattern"
    ∷ "Domain"
    ∷ "Outcome"
    ∷ "CalibrationTrial"
    ∷ (knowledge_types ++ operator_types ++ world_types)

abbrev closed : String → List String → List String → Signature
closed relation sources targets = record {
  relation = relation;
  sources = some sources;
  targets = some targets;
}

abbrev open_ : String → Signature
open_ relation = record { relation = relation; sources = none; targets = none }

-- `RELATION_REGISTRY` before the relations of the business model are merged in
unfoldable pub core_signatures : List Signature
core_signatures =
    closed "verdict_about_case" ("Verdict" ∷ []) ("Case" ∷ [])
    ∷ closed "made_call" ("Verdict" ∷ []) ("Call" ∷ [])
    ∷ closed "supported_by" ("Verdict" ∷ []) ("Evidence" ∷ [])
    ∷ closed "chose_alternative" ("Verdict" ∷ []) ("Alternative" ∷ [])
    ∷ closed "rejected_alternative" ("Verdict" ∷ []) ("Alternative" ∷ [])
    ∷ closed "rendered_in" ("Verdict" ∷ []) ("Case" ∷ [])
    ∷ closed "makes_call" ("Verdict" ∷ []) ("Call" ∷ [])
    ∷ closed "chose" ("Verdict" ∷ []) ("Alternative" ∷ [])
    ∷ closed "rejected" ("Verdict" ∷ []) ("Alternative" ∷ [])
    ∷ closed "derived_from" ("Pattern" ∷ []) ("Case" ∷ [])
    ∷ closed "expressed" ("Verdict" ∷ []) knowledge_types
    ∷ closed "protects" ("Principle" ∷ "Rule" ∷ []) ("Value" ∷ [])
    ∷ closed "depends_on" knowledge_types ("Domain" ∷ knowledge_types)
    ∷ closed "extracted_from" knowledge_types ("Case" ∷ "Verdict" ∷ [])
    ∷ closed "inferred_from" knowledge_types ("Case" ∷ "Verdict" ∷ "Pattern" ∷ [])
    ∷ closed "similar_to" ("Domain" ∷ knowledge_types) ("Domain" ∷ knowledge_types)
    ∷ closed "led_to" ("Verdict" ∷ "Case" ∷ []) ("Outcome" ∷ [])
    ∷ closed "tested_by" ("Pattern" ∷ []) ("CalibrationTrial" ∷ [])
    ∷ closed "resolved_by" ("CalibrationTrial" ∷ []) ("Outcome" ∷ [])
    ∷ open_ "supports"
    ∷ open_ "weakens"
    ∷ open_ "contradicts"
    ∷ open_ "supersedes"
    ∷ closed "authorized_by" ("Observation" ∷ "Outcome" ∷ []) ("ConsentGrant" ∷ [])
    ∷ closed "proposal_succeeded_by" ("Proposal" ∷ []) node_types
    ∷ []

-- `None` absorbs, and two closed sets are united
abbrev pub union : Option (List String) → Option (List String) → Option (List String)
union (some a) (some b) = some (a ++ b)
union _ _ = none

abbrev merged : Option Signature → Option Signature → Option Signature
merged none world = world
merged (some s) none = some s
merged (some s) (some w) = some (record {
  relation = s.relation;
  sources = union s.sources w.sources;
  targets = union s.targets w.targets;
})

-- `RELATION_REGISTRY[relation]`
unfoldable pub registered : String → Option Signature
registered relation =
    merged (signature_of relation core_signatures) (signature_of relation world_signatures)

abbrev pub names : List Signature → List String
names [] = []
names (s ∷ ss) = s.relation ∷ names ss
