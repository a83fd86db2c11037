-- ===== src/Ontology/Relation/Observed.antt =====
-- The tiers of inferred provenance in ontology/contracts.py and in ontology/world.py.
use mathlib.Core.Path.{subst}
use imprint.Base.{
  String, ◌≡◌, sym, ◌∙◌, ◌≢◌, true, false, not, ◌&&◌, [], ◌∷◌, arith, str_eq, str_eq_iff, mem,
}
use imprint.Ontology.Fault.{ok, >>=-eq-ok, demand, demand-ok}
use imprint.Ontology.Json.{Json, null, obj, Fields, item}
use imprint.Ontology.Provenance.{Provenance, validate_provenance_contract}
use imprint.Ontology.Provenance.Standing.{
  Standing, captured, extracted, inferred, ratified, validate_provenance_contract-Standing,
}
use imprint.Ontology.World.{is_evidence, check_world_provenance}
use imprint.Ontology.Relation.{Relation, read_origin, is_world, validate_relation_contract}
use imprint.Ontology.Relation.Endpoints.{validate_relation_contract-Sound}

of-object :
    (origin : Json) (p : Provenance) → validate_provenance_contract origin ≡ ok p → Standing p
unfolding validate_provenance_contract
of-object (obj value) p h = (validate_provenance_contract-Standing value p h).4
of-object null p h = cc
of-object _ p h = cc

origin-Standing : (value : Fields) (p : Provenance) → read_origin value ≡ ok p → Standing p
origin-Standing value p h =
    let (origin, e1, h1) = >>=-eq-ok (item "provenance" value) _ h in of-object origin p h1

observed-tier :
    (p : Provenance)
    → check_world_provenance false p ≡ ok tt
    → p.status ≡ "inferred"
    → p.authority_tier ≡ "observed_candidate"
unfolding check_world_provenance
observed-tier p h e =
    let (u1, e1, h1) =
      >>=-eq-ok (demand (mem p.status ("extracted" ∷ "inferred" ∷ "ratified" ∷ [])) _) _ h in
    let b =
      not (str_eq p.status "inferred" && not (str_eq p.authority_tier "observed_candidate")) in
    let fits : b ≡ true = demand-ok b _ h1 in
    ground (
      arith,
      fits,
      (str_eq_iff p.status "inferred").1 e,
      str_eq_iff p.authority_tier "observed_candidate",
    )

clash : (a : String) {b c : String} → a ≡ b → a ≡ c → str_eq b c ≡ true
clash a {b} {c} e f = (str_eq_iff b c).1 (sym e ∙ f)

inferred-tier :
    (p : Provenance) → Standing p → p.status ≡ "inferred" → p.authority_tier ≡ "inferred_candidate"
inferred-tier p (captured s t a m r) e = let x = clash p.status s e in cc x
inferred-tier p (extracted s t v r) e = let x = clash p.status s e in cc x
inferred-tier p (inferred s t a v r) e = t
inferred-tier p (ratified s t a v r) e = let x = clash p.status s e in cc x

-- No accepted relation of the business model from an observed node has inferred provenance: the
-- provenance contract asks for the tier `inferred_candidate` there, and the business model for
-- `observed_candidate`.
pub observed-not-inferred :
    (value : Json) (r : Relation)
    → validate_relation_contract value ≡ ok r
    → is_world r ≡ true
    → is_evidence r.source_type ≡ true
    → r.provenance.status ≢ "inferred"
observed-not-inferred value r h w v e =
    let s = validate_relation_contract-Sound value r h in
    let standing = origin-Standing s.1.0 r.provenance s.1.2 in
    let rule : check_world_provenance false r.provenance ≡ ok tt =
      subst (λ b. check_world_provenance (not b) r.provenance ≡ ok tt) v (s.2.world w).1 in
    let x =
      clash r.provenance.authority_tier (observed-tier r.provenance rule e)
        (inferred-tier r.provenance standing e) in
    cc x
