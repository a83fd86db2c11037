-- ===== src/Ontology/Provenance.antt =====
-- `validate_provenance_contract` of ontology/contracts.py: where a record comes from and what
-- authority that gives it.
pub mod Standing
use imprint.Base.{
  String, Bool, true, false, not, ◌&&◌, ◌||◌, Option, none, some, List, [], ◌∷◌, str_eq,
  if◌then◌else◌, mem,
}
use imprint.Ontology.Fault.{
  Fault, Checked, ok, err, ◌>>=◌, ◌>>◌, demand, refuse_if, validation_error,
}
use imprint.Ontology.Json.{Json, null, str, arr, obj, Fields, item}
use imprint.Ontology.Urn.{require_urn}
use imprint.Ontology.Require.{
  require_exact_fields, member_at, urn_at, text_at, urns_at, text_or_none_at, urn_or_none_at,
  require_text, require_text_or_none, require_urns,
}

abbrev pub statuses : List String
statuses = "captured" ∷ "extracted" ∷ "inferred" ∷ "ratified" ∷ []

abbrev pub authority_tiers : List String
authority_tiers =
    "captured_judgment" ∷ "imported_floor" ∷ "observed_candidate" ∷ "inferred_candidate"
    ∷ "ratified_knowledge" ∷ []

abbrev pub actor_classes : List String
actor_classes = "operator" ∷ "software" ∷ "model" ∷ "importer" ∷ []

abbrev pub provenance_fields : List String
provenance_fields =
    "status" ∷ "authority_tier" ∷ "actor_class" ∷ "actor_id" ∷ "mechanism" ∷ "evidence_ids"
    ∷ "model" ∷ "ratifier_id" ∷ []

-- an accepted provenance object
pub record Provenance : Type 0 where
  pub status : String
  pub authority_tier : String
  pub actor_class : String
  pub actor_id : String
  pub mechanism : String
  pub evidence_ids : List String
  pub model : Option String
  pub ratifier_id : Option String

abbrev pub is_none {ℓ} : {A : Type ℓ} → Option A → Bool
is_none none = true
is_none (some a) = false

abbrev pub is_empty {ℓ} : {A : Type ℓ} → List A → Bool
is_empty [] = true
is_empty (x ∷ xs) = false

-- `ratifier != actor`, where the ratifier may be `None`
abbrev pub is_text : Option String → String → Bool
is_text none s = false
is_text (some t) s = str_eq t s

-- the fields of the object, each of its type
pub read_provenance : Fields → Checked Provenance
read_provenance value = do
  require_exact_fields value provenance_fields "provenance"
  status ← member_at "status" value statuses "unsupported provenance status"
  tier ← member_at "authority_tier" value authority_tiers "unsupported authority tier"
  actor_class ← member_at "actor_class" value actor_classes "unsupported provenance actor_class"
  actor_id ← urn_at "actor_id" value none "provenance.actor_id"
  mechanism ← text_at "mechanism" value "provenance.mechanism"
  evidence_ids ← urns_at "evidence_ids" value none "provenance.evidence_ids"
  model ← text_or_none_at "model" value "provenance.model"
  ratifier_id ← urn_or_none_at "ratifier_id" value "provenance.ratifier_id"
  ok (record {
    status = status;
    authority_tier = tier;
    actor_class = actor_class;
    actor_id = actor_id;
    mechanism = mechanism;
    evidence_ids = evidence_ids;
    model = model;
    ratifier_id = ratifier_id;
  })

check_captured : Provenance → Checked (Unit {0})
check_captured p =
    refuse_if
      (not (str_eq p.authority_tier "captured_judgment")
        || not (str_eq p.actor_class "operator")
        || not (is_none p.model)
        || not (is_none p.ratifier_id))
      "captured provenance must remain operator-authored captured judgment"

check_extracted : Provenance → Checked (Unit {0})
check_extracted p =
    refuse_if
      (not (mem p.authority_tier ("imported_floor" ∷ "observed_candidate" ∷ []))
        || not (is_none p.ratifier_id)
        || is_empty p.evidence_ids)
      "extracted provenance requires evidence and non-ratified authority"

check_inferred : Provenance → Checked (Unit {0})
check_inferred p = do
  refuse_if
      (not (str_eq p.authority_tier "inferred_candidate")
        || not (mem p.actor_class ("model" ∷ "software" ∷ []))
        || is_empty p.evidence_ids
        || not (is_none p.ratifier_id))
      "inferred provenance must remain an evidenced candidate"
  refuse_if (str_eq p.actor_class "model" && is_none p.model)
      "model inference must identify its model"

check_ratified : Provenance → Checked (Unit {0})
check_ratified p = do
  refuse_if
      (not (str_eq p.authority_tier "ratified_knowledge")
        || is_none p.ratifier_id
        || not (str_eq p.actor_class "operator")
        || is_empty p.evidence_ids)
      "ratified provenance requires operator ratification and evidence"
  demand (is_text p.ratifier_id p.actor_id)
      "ratified provenance actor and ratifier must be the same operator"

-- the rule of each status
pub check_status : Provenance → Checked (Unit {0})
check_status p =
    if str_eq p.status "captured"
    then check_captured p
    else if str_eq p.status "extracted"
    then check_extracted p
    else if str_eq p.status "inferred"
    then check_inferred p
    else if str_eq p.status "ratified"
    then check_ratified p
    else ok tt

unfoldable pub check_provenance : Fields → Checked Provenance
unfolding read_provenance check_status check_captured check_extracted check_inferred check_ratified
check_provenance value = do p ← read_provenance value; check_status p; ok p

unfoldable pub validate_provenance_contract : Json → Checked Provenance
unfolding check_provenance
validate_provenance_contract (obj value) = check_provenance value
validate_provenance_contract _ = err (validation_error "provenance must be an object")
