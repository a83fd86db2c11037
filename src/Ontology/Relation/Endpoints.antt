-- ===== src/Ontology/Relation/Endpoints.antt =====
-- `validate_relation_contract` of ontology/contracts.py: what an accepted relation is.
use mathlib.Core.Path.{subst}
use imprint.Base.{
  String, ◌≡◌, refl, sym, ◌∙◌, ◌≢◌, ◌⊎◌, true, not, ◌||◌, List, [], ◌∷◌, ◌++◌, arith, str_eq,
  str_eq_iff, mem, has_text,
}
use imprint.Ontology.Fault.{ok, >>=-eq-ok, demand, demand-ok}
use imprint.Ontology.Json.{Json, null, obj, Fields, item, is_str}
use imprint.Ontology.Require.Reads.{member_at-ok}
use imprint.Ontology.Require.{require_exact_fields, member_at, text_at, urn_at}
use imprint.Ontology.Provenance.{is_empty}
use imprint.Ontology.World.{
  some_urns, world_signatures, endpoints_fit, signature_of, is_evidence, mode_name,
  check_world_provenance, validate_world_relation,
}
use imprint.Ontology.Registry.{registered, core_signatures, names, node_types}
use imprint.Ontology.Relation.{
  Ends, read_ends, read_origin, Relation, evidence_modes, typed_urn, read_relation,
  allowed_statuses, is_world, world_rule, check_relation, validate_relation_contract,
}

-- what the rules of a relation give
pub record Sound (r : Relation) : Type 0 where
  pub own_authority :
      (r.provenance.status ≡ "captured") ⊎ (r.provenance.status ≡ "ratified")
      → r.provenance.actor_id ≡ r.operator_id
  pub evidenced : r.provenance.evidence_ids ≢ []
  pub irreflexive : r.relation_type ≡ "similar_to" → r.source_id ≢ r.target_id
  pub same_types : r.relation_type ≡ "similar_to" → r.source_type ≡ r.target_type
  pub status_fits : mem r.provenance.status (allowed_statuses r.evidence_mode) ≡ true
  pub world :
      is_world r ≡ true
      → (r.evidence_mode ≡ mode_name (not (is_evidence r.source_type)))
        × (check_world_provenance (not (is_evidence r.source_type)) r.provenance ≡ ok tt)

world-ok :
    (r : Relation)
    → world_rule r ≡ ok tt
    → is_world r ≡ true
    → (r.evidence_mode ≡ mode_name (not (is_evidence r.source_type)))
      × (check_world_provenance (not (is_evidence r.source_type)) r.provenance ≡ ok tt)
unfolding validate_world_relation
world-ok r h w =
    let k : validate_world_relation r.source_type r.relation_type r.target_type r.evidence_mode
          r.why r.provenance.evidence_ids r.provenance
        ≡ ok tt =
      sym (rw w refl) ∙ h in
    let (u1, e1, h1) =
      >>=-eq-ok
        (demand
          (endpoints_fit (signature_of r.relation_type world_signatures) r.source_type
            r.target_type)
          _)
        _ k in
    let (u2, e2, h2) =
      >>=-eq-ok (demand (str_eq r.evidence_mode (mode_name (not (is_evidence r.source_type)))) _) _
        h1 in
    let (u3, e3, h3) = >>=-eq-ok (demand (has_text r.why) _) _ h2 in
    let (u4, e4, h4) = >>=-eq-ok (demand (some_urns r.provenance.evidence_ids) _) _ h3 in
    (
      (str_eq_iff r.evidence_mode (mode_name (not (is_evidence r.source_type)))).0
          (demand-ok (str_eq r.evidence_mode (mode_name (not (is_evidence r.source_type)))) _ e2),
      h4,
    )

own-authority :
    (status actor operator : String)
    → (not (mem status ("captured" ∷ "ratified" ∷ [])) || str_eq actor operator) ≡ true
    → (status ≡ "captured") ⊎ (status ≡ "ratified")
    → actor ≡ operator
own-authority status actor operator h k =
    ground
      (arith, str_eq_iff actor operator, str_eq_iff status "captured", str_eq_iff status "ratified")

some-evidence : (ids : List String) → not (is_empty ids) ≡ true → ids ≢ []
some-evidence [] h k = cc
some-evidence (x ∷ xs) h k = cc

when-similar :
    (t a b : String) → (not (str_eq t "similar_to") || str_eq a b) ≡ true → t ≡ "similar_to" → a ≡ b
when-similar t a b h k = ground (arith, str_eq_iff t "similar_to", str_eq_iff a b)

when-similar-not :
    (t a b : String)
    → (not (str_eq t "similar_to") || not (str_eq a b)) ≡ true
    → t ≡ "similar_to"
    → a ≢ b
when-similar-not t a b h k e = ground (arith, str_eq_iff t "similar_to", str_eq_iff a b)

check_relation-Sound : (r : Relation) → check_relation r ≡ ok tt → Sound r
unfolding check_relation
check_relation-Sound r h =
    let p = r.provenance in
    let b1 = not (mem p.status ("captured" ∷ "ratified" ∷ [])) || str_eq p.actor_id r.operator_id in
    let (u1, e1, h1) = >>=-eq-ok (demand b1 _) _ h in
    let (u2, e2, h2) = >>=-eq-ok (demand (not (is_empty p.evidence_ids)) _) _ h1 in
    let (u3, e3, h3) =
      >>=-eq-ok
        (demand (not (str_eq r.relation_type "extracted_from") || str_eq p.status "extracted") _) _
        h2 in
    let (u4, e4, h4) =
      >>=-eq-ok
        (demand
          (not (str_eq r.relation_type "inferred_from")
            || mem p.status ("inferred" ∷ "ratified" ∷ []))
          _)
        _ h3 in
    let b5 = not (str_eq r.relation_type "similar_to") || str_eq r.source_type r.target_type in
    let (u5, e5, h5) = >>=-eq-ok (demand b5 _) _ h4 in
    let b6 = not (str_eq r.relation_type "similar_to") || not (str_eq r.source_id r.target_id) in
    let (u6, e6, h6) = >>=-eq-ok (demand b6 _) _ h5 in
    let (u7, e7, h7) =
      >>=-eq-ok (demand (mem p.status (allowed_statuses r.evidence_mode)) _) _ h6 in
    record {
      own_authority = own-authority p.status p.actor_id r.operator_id (demand-ok b1 _ e1);
      evidenced = some-evidence p.evidence_ids (demand-ok (not (is_empty p.evidence_ids)) _ e2);
      same_types = when-similar r.relation_type r.source_type r.target_type (demand-ok b5 _ e5);
      irreflexive = when-similar-not r.relation_type r.source_id r.target_id (demand-ok b6 _ e6);
      status_fits = demand-ok (mem p.status (allowed_statuses r.evidence_mode)) _ e7;
      world = world-ok r h7;
    }

-- the relation and both types are registered, and the relation admits the types
abbrev pub Fits : String → String → String → Type 0
Fits relation source target =
    (mem relation (names core_signatures ++ names world_signatures) ≡ true)
    × (mem source node_types ≡ true)
    × (mem target node_types ≡ true)
    × (endpoints_fit (registered relation) source target ≡ true)

read_ends-Fits :
    (value : Fields) (x : Ends)
    → read_ends value ≡ ok x
    → Fits x.relation_type x.source_type x.target_type
unfolding read_ends
read_ends-Fits value x h =
    let (u1, e1, h1) = >>=-eq-ok (require_exact_fields value _ _) _ h in
    let (v2, e2, h2) = >>=-eq-ok (item "record_schema_version" value) _ h1 in
    let (u3, e3, h3) = >>=-eq-ok (demand (is_str v2 "3.1.0") _) _ h2 in
    let (t, e4, h4) =
      >>=-eq-ok
        (member_at "relation_type" value (names core_signatures ++ names world_signatures) _) _
        h3 in
    let (a, e5, h5) = >>=-eq-ok (member_at "source_type" value node_types _) _ h4 in
    let (b, e6, h6) = >>=-eq-ok (member_at "target_type" value node_types _) _ h5 in
    let (u7, e7, h7) = >>=-eq-ok (demand (endpoints_fit (registered t) a b) _) _ h6 in
    let whole : record { relation_type = t; source_type = a; target_type = b } ≡ x = cc h7 in
    subst (λ (y : Ends). Fits y.relation_type y.source_type y.target_type) whole
      (
        (member_at-ok "relation_type" value (names core_signatures ++ names world_signatures) _ t
            e4).1,
        (member_at-ok "source_type" value node_types _ a e5).1,
        (member_at-ok "target_type" value node_types _ b e6).1,
        demand-ok (endpoints_fit (registered t) a b) _ e7,
      )

-- what is read is registered
read_relation-registered :
    (value : Fields) (r : Relation)
    → read_relation value ≡ ok r
    → Fits r.relation_type r.source_type r.target_type × (read_origin value ≡ ok r.provenance)
unfolding read_relation
read_relation-registered value r h =
    let (x, e1, h1) = >>=-eq-ok (read_ends value) _ h in
    let (u2, e2, h2) = >>=-eq-ok (urn_at "relation_id" value _ _) _ h1 in
    let (i, e3, h3) = >>=-eq-ok (typed_urn "source_id" x.source_type value) _ h2 in
    let (j, e4, h4) = >>=-eq-ok (typed_urn "target_id" x.target_type value) _ h3 in
    let (o, e5, h5) = >>=-eq-ok (urn_at "operator_id" value _ _) _ h4 in
    let (m, e6, h6) = >>=-eq-ok (member_at "evidence_mode" value evidence_modes _) _ h5 in
    let (w, e7, h7) = >>=-eq-ok (text_at "why" value _) _ h6 in
    let (p, e8, h8) = >>=-eq-ok (read_origin value) _ h7 in
    let whole : record {
      relation_type = x.relation_type;
      source_type = x.source_type;
      target_type = x.target_type;
      source_id = i;
      target_id = j;
      operator_id = o;
      evidence_mode = m;
      why = w;
      provenance = p;
    }
        ≡ r =
      cc h8 in
    (
      subst (λ (y : Relation). Fits y.relation_type y.source_type y.target_type) whole
          (read_ends-Fits value x e1),
      subst (λ (y : Relation). read_origin value ≡ ok y.provenance) whole e8,
    )

-- An accepted relation is registered and joins registered node types that it admits, on provenance that the provenance
-- contract accepts; captured and ratified ones are the operator's own, each has evidence, `similar_to`
-- joins two different nodes of one type, the status fits the evidence mode, and a relation of the
-- business model has the evidence mode of its source and provenance of that mode.
pub validate_relation_contract-Sound :
    (value : Json) (r : Relation)
    → validate_relation_contract value ≡ ok r
    → Fits r.relation_type r.source_type r.target_type
      × ((fields : Fields) × (value ≡ obj fields) × (read_origin fields ≡ ok r.provenance))
      × Sound r
unfolding validate_relation_contract
validate_relation_contract-Sound (obj value) r h =
    let (x, e1, h1) = >>=-eq-ok (read_relation value) _ h in
    let (u2, e2, h2) = >>=-eq-ok (check_relation x) _ h1 in
    let same : x ≡ r = cc h2 in
    let read = subst (λ y. read_relation value ≡ ok y) same e1 in
    let registered_ = read_relation-registered value r read in
    (
      registered_.0,
      (value, refl, registered_.1),
      check_relation-Sound r (subst (λ y. check_relation y ≡ ok tt) same e2),
    )
validate_relation_contract-Sound null r h = cc
validate_relation_contract-Sound _ r h = cc
