-- ===== src/Ontology/Provenance/Standing.antt =====
-- `validate_provenance_contract` of ontology/contracts.py: what an accepted provenance says.
use imprint.Ontology.Json.{find, str}
use imprint.Ontology.Require.Reads.{member_at-ok, urn_at-ok}
use mathlib.Core.Path.{subst}
use imprint.Base.{
  ◌≡◌, ◌≢◌, ◌⊎◌, true, none, some, [], arith, str_eq_iff, mem, Option, ◌↔◌, Bool-cases, String,
  str_eq, inl, inr, ap,
}
use imprint.Ontology.Fault.{ok, >>=-eq-ok}
use imprint.Ontology.Provenance.{
  Provenance, statuses, check_status, check_captured, check_extracted, check_ratified,
  check_inferred, is_text, validate_provenance_contract, check_provenance, Fields, obj,
  read_provenance, authority_tiers, actor_classes,
}

-- the four standings of the source's rules
pub data Standing (p : Provenance) : Type 0 where
  captured :
      p.status ≡ "captured"
      → p.authority_tier ≡ "captured_judgment"
      → p.actor_class ≡ "operator"
      → p.model ≡ none
      → p.ratifier_id ≡ none
      → Standing p
  extracted :
      p.status ≡ "extracted"
      → (p.authority_tier ≡ "imported_floor") ⊎ (p.authority_tier ≡ "observed_candidate")
      → p.evidence_ids ≢ []
      → p.ratifier_id ≡ none
      → Standing p
  inferred :
      p.status ≡ "inferred"
      → p.authority_tier ≡ "inferred_candidate"
      → (p.actor_class ≡ "software") ⊎ ((p.actor_class ≡ "model") × (p.model ≢ none))
      → p.evidence_ids ≢ []
      → p.ratifier_id ≡ none
      → Standing p
  ratified :
      p.status ≡ "ratified"
      → p.authority_tier ≡ "ratified_knowledge"
      → p.actor_class ≡ "operator"
      → p.evidence_ids ≢ []
      → p.ratifier_id ≡ some p.actor_id
      → Standing p

is_text-some : (o : Option String) (s : String) → is_text o s ≡ true → o ≡ some s
is_text-some none s h = cc
is_text-some (some t) s h = ap some ((str_eq_iff t s).0 h)

module _ (p : Provenance) where
  captured_rule :
      check_captured p ≡ ok tt
      → (p.authority_tier ≡ "captured_judgment")
        × (p.actor_class ≡ "operator")
        × (p.model ≡ none)
        × (p.ratifier_id ≡ none)
  unfolding check_captured
  captured_rule h =
      ground (
        arith,
        str_eq_iff p.authority_tier "captured_judgment",
        str_eq_iff p.actor_class "operator",
      )

  extracted_rule :
      check_extracted p ≡ ok tt
      → ((p.authority_tier ≡ "imported_floor") ⊎ (p.authority_tier ≡ "observed_candidate"))
        × (p.evidence_ids ≢ [])
        × (p.ratifier_id ≡ none)
  unfolding check_extracted
  extracted_rule h = ground (
    arith,
    str_eq_iff p.authority_tier "imported_floor",
    str_eq_iff p.authority_tier "observed_candidate",
  )

  inferred_rule :
      check_inferred p ≡ ok tt
      → (p.authority_tier ≡ "inferred_candidate")
        × ((p.actor_class ≡ "software") ⊎ ((p.actor_class ≡ "model") × (p.model ≢ none)))
        × (p.evidence_ids ≢ [])
        × (p.ratifier_id ≡ none)
  unfolding check_inferred
  inferred_rule h = ground (
    arith,
    str_eq_iff p.authority_tier "inferred_candidate",
    str_eq_iff p.actor_class "software",
    str_eq_iff p.actor_class "model",
  )

  ratified_rule :
      check_ratified p ≡ ok tt
      → (p.authority_tier ≡ "ratified_knowledge")
        × (p.actor_class ≡ "operator")
        × (p.evidence_ids ≢ [])
        × (p.ratifier_id ≡ some p.actor_id)
  unfolding check_ratified
  ratified_rule h = ground (
    arith,
    str_eq_iff p.authority_tier "ratified_knowledge",
    str_eq_iff p.actor_class "operator",
    is_text-some p.ratifier_id p.actor_id,
  )

  check_status→Standing : mem p.status statuses ≡ true → check_status p ≡ ok tt → Standing p
  unfolding check_status
  check_status→Standing m h = elim (Bool-cases (str_eq p.status "captured")) [
    | inl e ↦
        let r = captured_rule (ground arith) in
        captured ((str_eq_iff p.status "captured").0 e) r.0 r.1 r.2 r.3
    | inr e ↦ elim (Bool-cases (str_eq p.status "extracted")) [
      | inl e' ↦
          let r = extracted_rule (ground arith) in
          extracted ((str_eq_iff p.status "extracted").0 e') r.0 r.1 r.2
      | inr e' ↦ elim (Bool-cases (str_eq p.status "inferred")) [
        | inl e'' ↦
            let r = inferred_rule (ground arith) in
            inferred ((str_eq_iff p.status "inferred").0 e'') r.0 r.1 r.2 r.3
        | inr e'' ↦
            let f : str_eq p.status "ratified" ≡ true = ground arith in
            let r = ratified_rule (ground arith) in
            ratified ((str_eq_iff p.status "ratified").0 f) r.0 r.1 r.2 r.3
      ]
    ]
  ]

  Standing→check_status : Standing p → check_status p ≡ ok tt
  unfolding check_status check_captured check_extracted check_inferred check_ratified
  Standing→check_status (captured s t c m r) = rw (s, t, c, m, r)
  Standing→check_status (extracted s (inl t) e r) = rw (s, t, r) (ground (arith, e))
  Standing→check_status (extracted s (inr t) e r) = rw (s, t, r) (ground (arith, e))
  Standing→check_status (inferred s t (inl c) e r) = rw (s, t, c, r) (ground (arith, e))
  Standing→check_status (inferred s t (inr c) e r) = rw (s, t, c.0, r) (ground (arith, e, c.1))
  Standing→check_status (ratified s t c e r) =
      rw (s, t, c, r) (ground (arith, e, str_eq_iff p.actor_id p.actor_id))

  -- For each of the four statuses the rule holds exactly of the provenance with its standing.
  pub check_status_iff : mem p.status statuses ≡ true → (check_status p ≡ ok tt) ↔ Standing p
  check_status_iff m = (check_status→Standing m, Standing→check_status)

read_provenance-ok :
    (value : Fields) (p : Provenance)
    → read_provenance value ≡ ok p
    → (find "status" value ≡ some (str p.status))
      × (find "authority_tier" value ≡ some (str p.authority_tier))
      × (find "actor_class" value ≡ some (str p.actor_class))
      × (find "actor_id" value ≡ some (str p.actor_id))
      × (mem p.status statuses ≡ true)
unfolding read_provenance
read_provenance-ok value p h = ground (
  arith,
  member_at-ok "status" value statuses "unsupported provenance status" p.status,
  member_at-ok "authority_tier" value authority_tiers "unsupported authority tier" p.authority_tier,
  member_at-ok "actor_class" value actor_classes "unsupported provenance actor_class" p.actor_class,
  urn_at-ok "actor_id" value none "provenance.actor_id" p.actor_id,
)

-- An accepted object has its status, its tier, its actor class and its actor where the result has
-- them, and the result stands by one of the four rules.
pub validate_provenance_contract-Standing :
    (value : Fields) (p : Provenance)
    → validate_provenance_contract (obj value) ≡ ok p
    → (find "status" value ≡ some (str p.status))
      × (find "authority_tier" value ≡ some (str p.authority_tier))
      × (find "actor_class" value ≡ some (str p.actor_class))
      × (find "actor_id" value ≡ some (str p.actor_id))
      × Standing p
unfolding validate_provenance_contract check_provenance
validate_provenance_contract-Standing value p h =
    let (q, r, s) = >>=-eq-ok (read_provenance value) _ h in
    let (u, c, e) = >>=-eq-ok (check_status q) _ s in
    let same : q ≡ p = cc in
    let reads = read_provenance-ok value p (subst (λ x. read_provenance value ≡ ok x) same r) in
    (
      reads.0,
      reads.1,
      reads.2,
      reads.3,
      check_status→Standing p reads.4 (subst (λ x. check_status x ≡ ok tt) same c),
    )
