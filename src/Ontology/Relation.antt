-- ===== src/Ontology/Relation.antt =====
-- `validate_relation_contract` and the relation registry of ontology/contracts.py.
pub mod Endpoints
pub mod Observed
use imprint.Base.{
  ℕ, zero, suc, ◌+◌, ◌-◌, ◌*◌, ◌/◌, ◌%◌, ◌≤◌, ◌<◌, String, ◌≡◌, refl, sym, ap, ◌∙◌, ◌≢◌, ◌↔◌, ◌⊎◌,
  inl, inr, Bool, true, false, not, ◌&&◌, ◌||◌, Option, none, some, List, [], ◌∷◌, ◌++◌, map,
  reverse, arith, ltb, leb, ◌==◌, str_eq, str_eq_iff, if◌then◌else◌, Bool-cases, Option-cases,
  tests, length, length-append, keep, all, any, All, mem, distinct, ℤ, pos, negsuc, pos_part,
  neg_part, sub_ℕ, negate_ℕ, negate, ltbℤ, eqbℤ, codes, codes_eq, has_text, is_digit, is_lower,
  text_lt,
}
use imprint.Ontology.Fault.{Checked, ok, err, ◌>>=◌, ◌>>◌, demand, refuse_if, validation_error}
use imprint.Ontology.Json.{Json, str, obj, Fields, item, is_str}
use imprint.Ontology.Urn.{split_on}
use imprint.Ontology.Require.{require_exact_fields, member_at, text_at, urn_at}
use imprint.Ontology.Provenance.{Provenance, validate_provenance_contract, is_empty}
use imprint.Ontology.Registry.{node_types, core_signatures, registered, names}
use imprint.Ontology.World.{
  world_types, Signature, world_signatures, signature_of, admits, endpoints_fit,
  validate_world_relation,
}

abbrev lower : ℕ → ℕ
lower c = if leb b'A' c && leb c b'Z' then c + 32 else c

abbrev starts : List ℕ → List ℕ → Bool
starts [] cs = true
starts (p ∷ ps) [] = false
starts (p ∷ ps) (c ∷ cs) = p == c && starts ps cs

-- `.replace("trial", "_trial")`: an underscore before each occurrence
abbrev replace_trial : List ℕ → List ℕ
replace_trial [] = []
replace_trial (c ∷ cs) =
    let rest = replace_trial cs in
    if starts (codes "trial") (c ∷ cs) then 95 ∷ c ∷ rest else c ∷ rest

abbrev kind_part : List (List ℕ) → List ℕ
kind_part (scheme ∷ space ∷ kind ∷ rest) = kind
kind_part _ = []

-- the kind of a URN is that of the node type
unfoldable pub is_kind_of : String → String → Bool
is_kind_of node_type urn =
    codes_eq (kind_part (split_on b':' (codes urn))) (replace_trial (map lower (codes node_type)))

pub record Relation : Type 0 where
  pub relation_type : String
  pub source_type : String
  pub target_type : String
  pub source_id : String
  pub target_id : String
  pub operator_id : String
  pub evidence_mode : String
  pub why : String
  pub provenance : Provenance

abbrev pub evidence_modes : List String
evidence_modes = "captured" ∷ "extracted" ∷ "declared" ∷ "observed" ∷ "inferred" ∷ "ratified" ∷ []

abbrev pub typed_urn : String → String → Fields → Checked String
typed_urn key node_type value = do
  urn ← urn_at key value none key
  demand (is_kind_of node_type urn) key
  ok urn

-- the relation and the types that it joins
pub record Ends : Type 0 where
  pub relation_type : String
  pub source_type : String
  pub target_type : String

-- the type of the relation and of its ends, which the registry must allow
unfoldable pub read_ends : Fields → Checked Ends
read_ends value = do
  require_exact_fields value
      ("record_schema_version" ∷ "relation_id" ∷ "relation_type" ∷ "source_id" ∷ "source_type"
        ∷ "target_id" ∷ "target_type" ∷ "operator_id" ∷ "evidence_mode" ∷ "why" ∷ "provenance" ∷ [])
      "relation"
  version ← item "record_schema_version" value
  demand (is_str version "3.1.0") "unsupported ontology schema version"
  relation ←
      member_at "relation_type" value (names core_signatures ++ names world_signatures)
        "unsupported ontology relation_type"
  source ←
      member_at "source_type" value node_types "relation endpoints must use registered node types"
  target ←
      member_at "target_type" value node_types "relation endpoints must use registered node types"
  demand (endpoints_fit (registered relation) source target) "relation endpoint type is invalid"
  ok (record { relation_type = relation; source_type = source; target_type = target })

abbrev pub read_origin : Fields → Checked Provenance
read_origin value = do origin ← item "provenance" value; validate_provenance_contract origin

-- the other fields, each of its type
unfoldable pub read_relation : Fields → Checked Relation
read_relation value = do
  ends ← read_ends value
  urn_at "relation_id" value (some "relation") "relation_id"
  source_id ← typed_urn "source_id" ends.source_type value
  target_id ← typed_urn "target_id" ends.target_type value
  operator_id ← urn_at "operator_id" value (some "operator") "operator_id"
  mode ← member_at "evidence_mode" value evidence_modes "unsupported relation evidence_mode"
  why ← text_at "why" value "why"
  p ← read_origin value
  ok (record {
    relation_type = ends.relation_type;
    source_type = ends.source_type;
    target_type = ends.target_type;
    source_id = source_id;
    target_id = target_id;
    operator_id = operator_id;
    evidence_mode = mode;
    why = why;
    provenance = p;
  })

-- `allowed_statuses`
abbrev pub allowed_statuses : String → List String
allowed_statuses mode =
    if str_eq mode "captured"
    then "captured" ∷ []
    else if str_eq mode "extracted"
    then "extracted" ∷ []
    else if str_eq mode "declared"
    then "captured" ∷ "ratified" ∷ []
    else if str_eq mode "observed"
    then "extracted" ∷ "inferred" ∷ "ratified" ∷ []
    else if str_eq mode "inferred"
    then "inferred" ∷ "ratified" ∷ []
    else if str_eq mode "ratified"
    then "ratified" ∷ []
    else []

abbrev pub is_world : Relation → Bool
is_world r =
    endpoints_fit (signature_of r.relation_type world_signatures) r.source_type r.target_type

abbrev pub world_rule : Relation → Checked (Unit {0})
world_rule r =
    if is_world r
    then validate_world_relation r.source_type r.relation_type r.target_type r.evidence_mode r.why
        r.provenance.evidence_ids r.provenance
    else ok tt

unfoldable pub check_relation : Relation → Checked (Unit {0})
check_relation r = do
  demand
      (not (mem r.provenance.status ("captured" ∷ "ratified" ∷ []))
        || str_eq r.provenance.actor_id r.operator_id)
      "captured or ratified relation authority must belong to the contract operator"
  refuse_if (is_empty r.provenance.evidence_ids) "relations require provenance evidence"
  demand (not (str_eq r.relation_type "extracted_from") || str_eq r.provenance.status "extracted")
      "extracted_from requires extracted provenance"
  demand
      (not (str_eq r.relation_type "inferred_from")
        || mem r.provenance.status ("inferred" ∷ "ratified" ∷ []))
      "inferred_from requires inferred or operator-ratified provenance"
  demand (not (str_eq r.relation_type "similar_to") || str_eq r.source_type r.target_type)
      "similar_to endpoints must have the same node type"
  demand (not (str_eq r.relation_type "similar_to") || not (str_eq r.source_id r.target_id))
      "similar_to cannot relate a node to itself"
  demand (mem r.provenance.status (allowed_statuses r.evidence_mode))
      "relation evidence_mode conflicts with provenance status"
  world_rule r

unfoldable pub validate_relation_contract : Json → Checked Relation
validate_relation_contract (obj value) = do r ← read_relation value; check_relation r; ok r
validate_relation_contract _ = err (validation_error "relation contract must be an object")
