-- ===== src/Retrieve/Eligible/Policy.antt =====
-- `eligible` of retrieve/engine.py: what an eligible record is.
use imprint.Base.{
  ap, refl, String, true, false, Option, none, some, [], ◌≡◌, ◌≢◌, arith, str_eq_iff,
}
use imprint.Retrieve.Models.{domain, RetrievalRecord}
use imprint.Retrieve.Eligible.{eligible}
use imprint.Retrieve.Eligible.Gates.{
  same_domain, is_live, has_evidence, known_mode, tier_allowed, judgment_is_captured,
  captured_has_case, knowledge_is_ratified, floor_is_selected, self_model_is_ratified,
  domain_is_selected, domain_stays_in_section,
}

-- the three ways in which a record may carry authority
pub data CarriesAuthority (r : RetrievalRecord) : Type 0 where
  judgment :
      r.authority_tier ≡ "captured_judgment" → r.provenance_status ≡ "captured" → CarriesAuthority r
  knowledge :
      r.authority_tier ≡ "ratified_knowledge"
      → r.provenance_status ≡ "ratified"
      → CarriesAuthority r
  floor : r.authority_tier ≡ "imported_floor" → r.imported_selected ≡ true → CarriesAuthority r

-- the gates that the theorems below look into
record Passes (r : RetrievalRecord) (sel : Option String) (mode : String) : Type 0 where
  live : is_live r ≡ true
  evidence : has_evidence r ≡ true
  mode_known : known_mode mode ≡ true
  tier : tier_allowed mode r ≡ true
  judged : judgment_is_captured r ≡ true
  with_case : captured_has_case r ≡ true
  ratified : knowledge_is_ratified r ≡ true
  selected_floor : floor_is_selected r ≡ true
  self_model : self_model_is_ratified mode r ≡ true
  selected : domain_is_selected sel r ≡ true
  inside : domain_stays_in_section r ≡ true

same_domain-eq : (a b : Option String) → same_domain a b ≡ true → a ≡ b
same_domain-eq none none h = refl
same_domain-eq none (some b) h = cc
same_domain-eq (some a) none h = cc
same_domain-eq (some a) (some b) h = ap some ((str_eq_iff a b).0 h)

module _ (r : RetrievalRecord) (sel : Option String) where
  passes : (mode : String) → eligible r sel mode ≡ true → Passes r sel mode
  unfolding eligible
  passes mode h = ground arith

  -- An eligible record is current, not rejected, not buried and without an end of validity, its provenance is
  -- complete, and it has evidence, in every mode.
  pub eligible-live :
      (mode : String)
      → eligible r sel mode ≡ true
      → (r.current ≡ true)
        × (r.rejected ≡ false)
        × (r.tombstoned ≡ false)
        × (r.valid_until ≡ none)
        × (r.provenance_complete ≡ true)
        × (r.evidence_ids ≢ [])
  unfolding is_live has_evidence
  eligible-live mode h = let p = passes mode h in ground (arith, p.live, p.evidence)

  -- In the authoritative mode an eligible record carries authority: it is the operator's captured
  -- judgment, or ratified knowledge, or a selected part of an imported floor.
  pub eligible-CarriesAuthority : eligible r sel "authoritative" ≡ true → CarriesAuthority r
  unfolding tier_allowed judgment_is_captured knowledge_is_ratified floor_is_selected
  eligible-CarriesAuthority h =
      let p = passes "authoritative" h in
      grind (
        arith, p.tier, p.judged, p.ratified, p.selected_floor, judgment, knowledge, floor,
        str_eq_iff,
      )

  -- An eligible record that names a domain is of the domain section, and the domain is the selected
  -- one.
  pub eligible-domain :
      (mode d : String)
      → eligible r sel mode ≡ true
      → r.domain_id ≡ some d
      → (r.section ≡ domain) × (sel ≡ some d)
  unfolding domain_is_selected domain_stays_in_section
  eligible-domain mode d h e =
      let p = passes mode h in ground (arith, p.selected, p.inside, same_domain-eq r.domain_id sel)

  -- In the authoritative mode an eligible record of the self-model partition is a ratified
  -- assertion.
  pub eligible-self_model :
      eligible r sel "authoritative" ≡ true
      → r.ontology_partition ≡ "self_model"
      → (r.ontology_type ≡ "SelfModelAssertion") × (r.provenance_status ≡ "ratified")
  unfolding self_model_is_ratified
  eligible-self_model h e =
      let p = passes "authoritative" h in
      ground (
        arith,
        p.self_model,
        str_eq_iff r.ontology_type "SelfModelAssertion",
        str_eq_iff r.provenance_status "ratified",
        str_eq_iff r.ontology_partition "self_model",
      )
