-- ===== src/Ontology/Judgment/Grounds.antt =====
-- `validate_payload` of ontology/judgment.py: what an accepted judgment is.
use mathlib.Core.Path.{subst}
use imprint.Base.{
  inl, inr, ◌≤◌, String, ◌≡◌, refl, ◌≢◌, ◌⊎◌, true, not, some, List, [], ◌∷◌, arith, leb, str_eq,
  str_eq_iff, if◌then◌else◌, length, all, mem,
}
use imprint.Ontology.Fault.{ok, >>=-eq-ok, demand, demand-ok}
use imprint.Ontology.Json.{null, has_key, Json, obj, Fields}
use imprint.Ontology.Require.{require_exact_fields, text_at, urn_at, urns_at}
use imprint.Ontology.Provenance.{Provenance}
use imprint.Ontology.Judgment.{
  of_object, disjoint, nonempty, reason_of, urn_list, knowledge_types, verdict, pattern_,
  knowledge_statement, knowledge_fields, domain_of, dispatch, judgment_types, validate_payload,
}

-- what a pattern is inferred from
pub record Inferred (value : Fields) (p : Provenance) : Type 0 where
  pub case_ids : List String
  pub cases : urns_at "case_ids" value (some "case") "case_ids" ≡ ok case_ids
  pub two : 2 ≤ length case_ids
  pub derived : (p.status ≡ "inferred") ⊎ (p.status ≡ "ratified")

module _ (value : Fields) (p : Provenance) where
  pattern_-Inferred : pattern_ value p ≡ ok tt → Inferred value p
  unfolding pattern_
  pattern_-Inferred h =
      let (u1, e1, h1) = >>=-eq-ok (require_exact_fields value _ _) _ h in
      let (u2, e2, h2) = >>=-eq-ok (text_at "statement" value _) _ h1 in
      let (ids, e3, h3) = >>=-eq-ok (urn_list value "case_ids" "case") _ h2 in
      let (u4, e4, h4) = >>=-eq-ok (demand (nonempty ids) _) _ h3 in
      let (u5, e5, h5) = >>=-eq-ok (demand (leb 2 (length ids)) _) _ h4 in
      let (u6, e6, h6) = >>=-eq-ok (reason_of value) _ h5 in
      let two : leb 2 (length ids) ≡ true = demand-ok (leb 2 (length ids)) _ e5 in
      let status = demand-ok (mem p.status ("inferred" ∷ "ratified" ∷ [])) _ h6 in
      record {
        case_ids = ids;
        cases = e3;
        two = ground (arith, two);
        derived =
            ground (arith, status, str_eq_iff p.status "inferred", str_eq_iff p.status "ratified");
      }

  knowledge-derived : knowledge_statement value p ≡ ok tt → p.status ≢ "captured"
  unfolding knowledge_statement
  knowledge-derived h =
      let (u1, e1, h1) = >>=-eq-ok (require_exact_fields value (knowledge_fields value) _) _ h in
      let (u2, e2, h2) = >>=-eq-ok (text_at "statement" value _) _ h1 in
      let (u3, e3, h3) =
        >>=-eq-ok (if has_key "domain_id" value then domain_of value else ok tt) _ h2 in
      let (u4, e4, h4) =
        >>=-eq-ok (if has_key "reason" value then reason_of value else ok tt) _ h3 in
      let status = demand-ok (not (str_eq p.status "captured")) _ h4 in
      ground (arith, status, str_eq_iff p.status "captured")

  verdict-disjoint :
      verdict value ≡ ok tt
      → (chosen : List String) × (rejected : List String) × (urn_list value "chosen_alternative_ids"
            "alternative"
          ≡ ok chosen)
        × (urn_list value "rejected_alternative_ids" "alternative" ≡ ok rejected)
        × (all (λ x. not (mem x rejected)) chosen ≡ true)
  unfolding verdict
  verdict-disjoint h =
      let (u1, e1, h1) = >>=-eq-ok (require_exact_fields value _ _) _ h in
      let (u2, e2, h2) = >>=-eq-ok (text_at "raw_operator_text" value _) _ h1 in
      let (u3, e3, h3) = >>=-eq-ok (urn_at "call_id" value _ _) _ h2 in
      let (chosen, e4, h4) =
        >>=-eq-ok (urn_list value "chosen_alternative_ids" "alternative") _ h3 in
      let (rejected, e5, h5) =
        >>=-eq-ok (urn_list value "rejected_alternative_ids" "alternative") _ h4 in
      let (u6, e6, h6) = >>=-eq-ok (demand (disjoint chosen rejected) _) _ h5 in
      (chosen, rejected, e4, e5, demand-ok (disjoint chosen rejected) _ e6)

of_object-ok :
    (node_type : String) (payload : Json) (p : Provenance)
    → of_object node_type payload p ≡ ok tt
    → (value : Fields) × (payload ≡ obj value) × (dispatch node_type value p ≡ ok tt)
of_object-ok node_type (obj value) p h = (value, refl, h)
of_object-ok node_type null p h = cc
of_object-ok node_type _ p h = cc

accepted-object :
    (node_type : String) (payload : Json) (p : Provenance)
    → validate_payload node_type payload p ≡ ok tt
    → (value : Fields) × (payload ≡ obj value) × (dispatch node_type value p ≡ ok tt)
unfolding validate_payload
accepted-object node_type payload p h =
    let (u1, e1, h1) = >>=-eq-ok (demand (mem node_type judgment_types) _) _ h in
    of_object-ok node_type payload p h1

-- An accepted Pattern lists at least two Cases, as URNs that the check of a list without repetition
-- accepts, and is inferred or ratified.
pub pattern-Inferred :
    (payload : Json) (p : Provenance)
    → validate_payload "Pattern" payload p ≡ ok tt
    → (value : Fields) × (payload ≡ obj value) × Inferred value p
unfolding dispatch
pattern-Inferred payload p h =
    let (value, e, k) = accepted-object "Pattern" payload p h in
    (value, e, pattern_-Inferred value p k)

-- An accepted Verdict chooses no alternative that it rejects.
pub verdict-exclusive :
    (payload : Json) (p : Provenance)
    → validate_payload "Verdict" payload p ≡ ok tt
    → (value : Fields) × (payload ≡ obj value)
      × (chosen : List String) × (rejected : List String) × (urns_at "chosen_alternative_ids" value
            (some "alternative")
            "chosen_alternative_ids"
          ≡ ok chosen)
      × (urns_at "rejected_alternative_ids" value (some "alternative") "rejected_alternative_ids"
          ≡ ok rejected)
      × (all (λ x. not (mem x rejected)) chosen ≡ true)
unfolding dispatch
verdict-exclusive payload p h =
    let (value, e, k) = accepted-object "Verdict" payload p h in
    let d = verdict-disjoint value p k in (value, e, d.0, d.1, d.2, d.3, d.4)

knowledge-cases :
    (t : String)
    → mem t knowledge_types ≡ true
    → (t ≡ "Principle") ⊎ ((t ≡ "Belief") ⊎ ((t ≡ "Value") ⊎ (t ≡ "Rule")))
knowledge-cases t m = ground (
  arith,
  str_eq_iff t "Principle",
  str_eq_iff t "Belief",
  str_eq_iff t "Value",
  str_eq_iff t "Rule",
)

knowledge-dispatch :
    (t : String) (value : Fields) (p : Provenance)
    → mem t knowledge_types ≡ true
    → dispatch t value p ≡ ok tt
    → knowledge_statement value p ≡ ok tt
unfolding dispatch
knowledge-dispatch t value p m h = elim (knowledge-cases t m) [
  | inl e ↦ subst (λ n. dispatch n value p ≡ ok tt) e h
  | inr (inl e) ↦ subst (λ n. dispatch n value p ≡ ok tt) e h
  | inr (inr (inl e)) ↦ subst (λ n. dispatch n value p ≡ ok tt) e h
  | inr (inr (inr e)) ↦ subst (λ n. dispatch n value p ≡ ok tt) e h
]

-- No accepted principle, belief, value or rule stands as the operator's captured words.
pub knowledge-not-captured :
    (node_type : String) (payload : Json) (p : Provenance)
    → mem node_type knowledge_types ≡ true
    → validate_payload node_type payload p ≡ ok tt
    → p.status ≢ "captured"
knowledge-not-captured node_type payload p m h =
    let (value, e, k) = accepted-object node_type payload p h in
    knowledge-derived value p (knowledge-dispatch node_type value p m k)
