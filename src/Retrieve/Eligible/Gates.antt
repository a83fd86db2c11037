-- ===== src/Retrieve/Eligible/Gates.antt =====
-- The conditions of `eligible` in retrieve/engine.py, one function for each early `return False`;
-- each is true where the source goes on.
use imprint.Base.{
  String, Bool, true, false, not, ◌&&◌, ◌||◌, Option, none, some, List, [], ◌∷◌, str_eq, mem,
}
use imprint.Retrieve.Models.{Section, domain, RetrievalRecord}

abbrev pub is_none {ℓ} : {A : Type ℓ} → Option A → Bool
is_none none = true
is_none (some a) = false

abbrev pub is_empty {ℓ} : {A : Type ℓ} → List A → Bool
is_empty [] = true
is_empty (x ∷ xs) = false

-- `record.domain_id == selected_domain`, where either may be `None`
abbrev pub same_domain : Option String → Option String → Bool
same_domain none none = true
same_domain (some a) (some b) = str_eq a b
same_domain _ _ = false

abbrev pub is_domain : Section → Bool
is_domain domain = true
is_domain _ = false

abbrev pub is_authoritative : String → Bool
is_authoritative mode = str_eq mode "authoritative"

abbrev pub base_statuses : List String
base_statuses = "captured" ∷ "extracted" ∷ "ratified" ∷ []

abbrev pub base_tiers : List String
base_tiers = "captured_judgment" ∷ "ratified_knowledge" ∷ "imported_floor" ∷ []

-- `_ANALYTICAL_TIERS`
abbrev pub analytical_tiers : List String
analytical_tiers = "inferred_candidate" ∷ "observed_candidate" ∷ []

unfoldable pub is_live : RetrievalRecord → Bool
is_live r = not (not r.current || r.rejected || r.tombstoned || not (is_none r.valid_until))

unfoldable pub has_evidence : RetrievalRecord → Bool
has_evidence r = not (not r.provenance_complete || is_empty r.evidence_ids)

unfoldable pub known_mode : String → Bool
known_mode mode = mem mode ("authoritative" ∷ "analytical" ∷ [])

unfoldable pub status_allowed : String → RetrievalRecord → Bool
status_allowed mode r =
    mem r.provenance_status base_statuses
    || (not (is_authoritative mode) && str_eq r.provenance_status "inferred")

unfoldable pub tier_allowed : String → RetrievalRecord → Bool
tier_allowed mode r =
    mem r.authority_tier base_tiers
    || (not (is_authoritative mode) && mem r.authority_tier analytical_tiers)

unfoldable pub judgment_is_captured : RetrievalRecord → Bool
judgment_is_captured r =
    not (str_eq r.authority_tier "captured_judgment" && not (str_eq r.provenance_status "captured"))

unfoldable pub captured_has_case : RetrievalRecord → Bool
captured_has_case r = not (
    str_eq r.provenance_status "captured"
    && not (str_eq r.ontology_partition "business_declared")
    && is_empty r.case_ids)

unfoldable pub knowledge_is_ratified : RetrievalRecord → Bool
knowledge_is_ratified r =
    not
      (str_eq r.authority_tier "ratified_knowledge" && not (str_eq r.provenance_status "ratified"))

unfoldable pub floor_is_selected : RetrievalRecord → Bool
floor_is_selected r = not (str_eq r.authority_tier "imported_floor" && not r.imported_selected)

unfoldable pub inferred_is_candidate : RetrievalRecord → Bool
inferred_is_candidate r =
    not
      (str_eq r.provenance_status "inferred" && not (str_eq r.authority_tier "inferred_candidate"))

unfoldable pub observed_is_extracted : RetrievalRecord → Bool
observed_is_extracted r =
    not
      (str_eq r.authority_tier "observed_candidate" && not (str_eq r.provenance_status "extracted"))

unfoldable pub self_model_is_ratified : String → RetrievalRecord → Bool
self_model_is_ratified mode r = not (
    str_eq r.ontology_partition "self_model"
    && is_authoritative mode
    && (not (str_eq r.ontology_type "SelfModelAssertion")
        || not (str_eq r.provenance_status "ratified")))

unfoldable pub domain_is_selected : Option String → RetrievalRecord → Bool
domain_is_selected selected_domain r = not (
    is_domain r.section
    && (is_none selected_domain || not (same_domain r.domain_id selected_domain)))

-- Domain-bound material cannot escape through a general section label.
unfoldable pub domain_stays_in_section : RetrievalRecord → Bool
domain_stays_in_section r = not (not (is_none r.domain_id) && not (is_domain r.section))

-- opens every gate, for a test
unfoldable pub gates : Unit {0}
unfolding is_live has_evidence known_mode status_allowed tier_allowed judgment_is_captured
    captured_has_case knowledge_is_ratified floor_is_selected inferred_is_candidate
    observed_is_extracted self_model_is_ratified domain_is_selected domain_stays_in_section
gates = tt
