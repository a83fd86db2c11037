-- ===== src/Ontology/References.antt =====
-- ontology/references.py: the references of a payload are resolved in the transaction. The lookups
-- of the store are parameters: the type and the owner of a node or a version.
pub mod Resolved
use imprint.Base.{
  ℕ, zero, suc, ◌+◌, ◌-◌, ◌*◌, ◌/◌, ◌%◌, ◌≤◌, ◌<◌, String, ◌≡◌, refl, sym, ap, ◌∙◌, ◌≢◌, ◌↔◌, ◌⊎◌,
  inl, inr, Bool, true, false, not, ◌&&◌, ◌||◌, Option, none, some, List, [], ◌∷◌, ◌++◌, map,
  reverse, arith, ltb, leb, ◌==◌, str_eq, str_eq_iff, if◌then◌else◌, Bool-cases, Option-cases,
  tests, length, length-append, keep, all, any, All, mem, distinct, ℤ, pos, negsuc, pos_part,
  neg_part, sub_ℕ, negate_ℕ, negate, ltbℤ, eqbℤ, codes, codes_eq, has_text, is_digit, is_lower,
  text_lt,
}
use imprint.Ontology.Fault.{Checked, ok, ◌>>=◌, ◌>>◌, demand}

-- what the rules read of a payload, by node type
pub data Payload : Type 0 where
  pattern_ : List String → Payload
  -- the evidence, the confidence's basis and the derivation trace
  self_model_assertion : List String → List String → String → Payload
  -- the evidence, the confidence's basis and the consent grant
  observation : List String → Option (List String) → Option String → Payload
  outcome : List String → Payload
  calibration_trial : String → Payload
  -- the evidence and the observation
  cue : List String → String → Payload
  lexicon_term : List String → Payload
  -- the evidence, the triggers and the protected standards
  intervention_rule : List String → List String → List String → Payload
  -- the inputs and the element's version
  derivation_trace : List String → String → Payload
  -- any other type, with its source references where it has them
  other : Option (List String) → Payload

abbrev pub Lookup : Type 0
Lookup = String → Option (String × String)

abbrev pub allows : Option (List String) → String → Bool
allows none t = true
allows (some types) t = mem t types

-- a node that is there, is the operator's, and has one of the types
abbrev pub resolves : String → Option (List String) → Option (String × String) → Checked (Unit {0})
resolves operator allowed none = demand false "references a missing canonical node"
resolves operator allowed (some (actual, owner)) = do
  demand (str_eq owner operator) "references another operator"
  demand (allows allowed actual) "references an incompatible node type"

module _ (operator : String) (node_lookup version_lookup : Lookup) where
  -- the inner function `nodes`
  unfoldable pub nodes : List String → Option (List String) → Checked (Unit {0})
  nodes [] allowed = ok tt
  nodes (id ∷ ids) allowed = do resolves operator allowed (node_lookup id); nodes ids allowed

  abbrev pub evidence : List String → Checked (Unit {0})
  evidence ids = nodes ids (some ("Evidence" ∷ []))

  abbrev pub optional : Option (List String) → Checked (Unit {0})
  optional none = ok tt
  optional (some ids) = evidence ids

  abbrev pub grant : Option String → Checked (Unit {0})
  grant none = ok tt
  grant (some id) = nodes (id ∷ []) (some ("ConsentGrant" ∷ []))

  -- `set(xs) == set(ys)`
  abbrev pub same_set : List String → List String → Bool
  same_set xs ys = all (λ x. mem x ys) xs && all (λ y. mem y xs) ys

  unfoldable pub payload_references : List String → Payload → Checked (Unit {0})
  payload_references outer (pattern_ cases) = nodes cases (some ("Case" ∷ []))
  payload_references outer (self_model_assertion ids basis trace) = do
    evidence ids
    evidence basis
    demand (same_set ids outer)
        "SelfModelAssertion evidence must match canonical provenance evidence"
    nodes (trace ∷ []) (some ("DerivationTrace" ∷ []))
  payload_references outer (observation ids basis consent) = do
    evidence ids
    optional basis
    grant consent
  payload_references outer (outcome ids) = evidence ids
  payload_references outer (calibration_trial id) = nodes (id ∷ []) (some ("Outcome" ∷ []))
  payload_references outer (cue ids id) = do
    evidence ids
    nodes (id ∷ []) (some ("Observation" ∷ []))
  payload_references outer (lexicon_term ids) = evidence ids
  payload_references outer (intervention_rule ids triggers standards) = do
    evidence ids
    nodes triggers (some ("Cue" ∷ "SelfModelAssertion" ∷ []))
    nodes standards (some ("Rule" ∷ "Principle" ∷ "SelfModelAssertion" ∷ []))
  payload_references outer (derivation_trace ids version) = do
    nodes ids none
    resolves operator none (version_lookup version)
  payload_references outer (other refs) = optional refs

  unfoldable pub validate_payload_references : List String → Payload → Checked (Unit {0})
  validate_payload_references outer payload = do evidence outer; payload_references outer payload
