-- ===== src/Ontology/References/Resolved.antt =====
-- `validate_payload_references` of ontology/references.py: the nodes that a payload refers to.
use imprint.Base.{String, ◌≡◌, ap, true, Option, none, some, List, [], ◌∷◌, str_eq, str_eq_iff, All}
use imprint.Ontology.Fault.{ok, >>=-eq-ok, demand, demand-ok}
use imprint.Ontology.References.{
  Payload, pattern_, self_model_assertion, observation, outcome, calibration_trial, cue,
  lexicon_term, intervention_rule, derivation_trace, other, Lookup, allows, resolves, nodes,
  evidence, optional, grant, same_set, payload_references, validate_payload_references,
}

abbrev evidence_ : List String → List String × Option (List String)
evidence_ ids = (ids, some ("Evidence" ∷ []))

abbrev if_any : Option (List String) → List String
if_any none = []
if_any (some ids) = ids

abbrev if_one : Option String → List String
if_one none = []
if_one (some id) = id ∷ []

-- the nodes that a payload refers to, with the types that each may have
abbrev pub references : Payload → List (List String × Option (List String))
references (pattern_ cases) = (cases, some ("Case" ∷ [])) ∷ []
references (self_model_assertion ids basis trace) =
    evidence_ ids ∷ evidence_ basis ∷ (trace ∷ [], some ("DerivationTrace" ∷ [])) ∷ []
references (observation ids basis consent) =
    evidence_ ids ∷ evidence_ (if_any basis) ∷ (if_one consent, some ("ConsentGrant" ∷ [])) ∷ []
references (outcome ids) = evidence_ ids ∷ []
references (calibration_trial id) = (id ∷ [], some ("Outcome" ∷ [])) ∷ []
references (cue ids id) = evidence_ ids ∷ (id ∷ [], some ("Observation" ∷ [])) ∷ []
references (lexicon_term ids) = evidence_ ids ∷ []
references (intervention_rule ids triggers standards) =
    evidence_ ids
    ∷ (triggers, some ("Cue" ∷ "SelfModelAssertion" ∷ []))
    ∷ (standards, some ("Rule" ∷ "Principle" ∷ "SelfModelAssertion" ∷ []))
    ∷ []
references (derivation_trace ids version) = (ids, none) ∷ []
references (other refs) = evidence_ (if_any refs) ∷ []

module _ (operator : String) (node_lookup version_lookup : Lookup) where
  -- the node is the operator's, and of an allowed type
  abbrev pub Owned : Option (List String) → String → Type 0
  Owned allowed id =
      (t : String) × (node_lookup id ≡ some (t, operator)) × (allows allowed t ≡ true)

  owned :
      (allowed : Option (List String)) (found : Option (String × String)) {u : Unit {0}}
      → resolves operator allowed found ≡ ok u
      → (t : String) × (found ≡ some (t, operator)) × (allows allowed t ≡ true)
  owned allowed none h = cc
  owned allowed (some (actual, owner)) h =
      let (u1, e1, h1) = >>=-eq-ok (demand (str_eq owner operator) _) _ h in
      let same : owner ≡ operator =
        (str_eq_iff owner operator).0 (demand-ok (str_eq owner operator) _ e1) in
      (actual, ap (λ o. some (actual, o)) same, demand-ok (allows allowed actual) _ h1)

  nodes-Owned :
      (ids : List String) (allowed : Option (List String)) {u : Unit {0}}
      → nodes operator node_lookup version_lookup ids allowed ≡ ok u
      → All (Owned allowed) ids
  unfolding nodes
  nodes-Owned [] allowed h = tt
  nodes-Owned (id ∷ ids) allowed h =
      let (u1, e1, h1) = >>=-eq-ok (resolves operator allowed (node_lookup id)) _ h in
      (owned allowed (node_lookup id) e1, nodes-Owned ids allowed h1)

  abbrev pub AllOwned : List (List String × Option (List String)) → Type 0
  AllOwned rs = All (λ r. All (Owned r.1) r.0) rs

  evidence-Owned :
      (ids : List String) {u : Unit {0}}
      → evidence operator node_lookup version_lookup ids ≡ ok u
      → All (Owned (some ("Evidence" ∷ []))) ids
  evidence-Owned ids h = nodes-Owned ids (some ("Evidence" ∷ [])) h

  optional-Owned :
      (o : Option (List String)) {u : Unit {0}}
      → optional operator node_lookup version_lookup o ≡ ok u
      → All (Owned (some ("Evidence" ∷ []))) (if_any o)
  optional-Owned none h = tt
  optional-Owned (some ids) h = evidence-Owned ids h

  grant-Owned :
      (o : Option String) {u : Unit {0}}
      → grant operator node_lookup version_lookup o ≡ ok u
      → All (Owned (some ("ConsentGrant" ∷ []))) (if_one o)
  grant-Owned none h = tt
  grant-Owned (some id) h = nodes-Owned (id ∷ []) (some ("ConsentGrant" ∷ [])) h

  payload-Owned :
      (outer : List String) (p : Payload) {u : Unit {0}}
      → payload_references operator node_lookup version_lookup outer p ≡ ok u
      → AllOwned (references p)
  unfolding payload_references
  payload-Owned outer (pattern_ cases) h = (nodes-Owned cases _ h, tt)
  payload-Owned outer (self_model_assertion ids basis trace) h =
      let (u1, e1, h1) = >>=-eq-ok (evidence operator node_lookup version_lookup ids) _ h in
      let (u2, e2, h2) = >>=-eq-ok (evidence operator node_lookup version_lookup basis) _ h1 in
      let (u3, e3, h3) =
        >>=-eq-ok (demand (same_set operator node_lookup version_lookup ids outer) _) _ h2 in
      (evidence-Owned ids e1, (evidence-Owned basis e2, (nodes-Owned (trace ∷ []) _ h3, tt)))
  payload-Owned outer (observation ids basis consent) h =
      let (u1, e1, h1) = >>=-eq-ok (evidence operator node_lookup version_lookup ids) _ h in
      let (u2, e2, h2) = >>=-eq-ok (optional operator node_lookup version_lookup basis) _ h1 in
      (evidence-Owned ids e1, (optional-Owned basis e2, (grant-Owned consent h2, tt)))
  payload-Owned outer (outcome ids) h = (evidence-Owned ids h, tt)
  payload-Owned outer (calibration_trial id) h = (nodes-Owned (id ∷ []) _ h, tt)
  payload-Owned outer (cue ids id) h =
      let (u1, e1, h1) = >>=-eq-ok (evidence operator node_lookup version_lookup ids) _ h in
      (evidence-Owned ids e1, (nodes-Owned (id ∷ []) _ h1, tt))
  payload-Owned outer (lexicon_term ids) h = (evidence-Owned ids h, tt)
  payload-Owned outer (intervention_rule ids triggers standards) h =
      let (u1, e1, h1) = >>=-eq-ok (evidence operator node_lookup version_lookup ids) _ h in
      let (u2, e2, h2) = >>=-eq-ok (nodes operator node_lookup version_lookup triggers _) _ h1 in
      (evidence-Owned ids e1, (nodes-Owned triggers _ e2, (nodes-Owned standards _ h2, tt)))
  payload-Owned outer (derivation_trace ids version) h =
      let (u1, e1, h1) = >>=-eq-ok (nodes operator node_lookup version_lookup ids none) _ h in
      (nodes-Owned ids none e1, tt)
  payload-Owned outer (other refs) h = (optional-Owned refs h, tt)

  -- Where the references of a payload are accepted, its provenance's evidence and every node that it
  -- refers to exist, belong to the operator, and have one of the types that the reference may have.
  pub references-Owned :
      (outer : List String) (p : Payload)
      → validate_payload_references operator node_lookup version_lookup outer p ≡ ok tt
      → All (Owned (some ("Evidence" ∷ []))) outer × AllOwned (references p)
  unfolding validate_payload_references
  references-Owned outer p h =
      let (u1, e1, h1) = >>=-eq-ok (evidence operator node_lookup version_lookup outer) _ h in
      (evidence-Owned outer e1, payload-Owned outer p h1)
