-- ===== src/Capture/Envelope/Valid.antt =====
-- The capture envelopes that `validate_capture_envelope` of capture/schema.py accepts.
use imprint.Base.{
  ℕ, String, ◌≡◌, refl, sym, ◌∙◌, inl, inr, Bool, true, false, not, ◌&&◌, ◌||◌, List, [], ◌∷◌, ◌++◌,
  arith, leb, str_eq, str_eq_iff, Bool-cases, all, All, mem, distinct,
}
use mathlib.Core.Path.{subst}
use imprint.Ontology.Fault.{ok, demand->>-ok, >>=-eq-ok}
use imprint.Ontology.Json.{Json, Fields, obj, arr, str, int, float, bool, null, item}
use imprint.Ontology.Require.{require_exact_fields}
use imprint.Capture.Schema.{
  Alternative, Evidence, top_level, object, list_field, object_field, known_ids, read_alternatives,
  alternative_ids, chosen_ids, disposed, read_evidences, evidence_ids,
}
use imprint.Capture.Envelope.{
  Envelope, read_head, read_words, read_choices, all_in, verbatim, check_provenance,
  check_extensions, max_event_bytes, read_grounds, validate_fields, validate_capture_envelope,
  is_nil,
}
use imprint.Capture.Envelope.Listed.{
  ok_injective, read_alternatives-distinct, read_evidences-distinct, Hashed,
}

both_true : (a b : Bool) → (a && b) ≡ true → (a ≡ true) × (b ≡ true)
both_true a b h = ground arith

all-mem :
    (p : String → Bool) (xs : List String) (x : String)
    → all p xs ≡ true
    → mem x xs ≡ true
    → p x ≡ true
all-mem p [] x h m = cc
all-mem p (y ∷ ys) x h m = elim (Bool-cases (str_eq x y)) [
  | inl e ↦
      let (here, _) = both_true (p y) (all p ys) h in
      subst (λ z. p z ≡ true) (sym ((str_eq_iff x y).0 e)) here
  | inr e ↦ let (_, later) = both_true (p y) (all p ys) h in all-mem p ys x later (rw e at m)
]

mem-append : (x : String) (xs ys : List String) → mem x (xs ++ ys) ≡ (mem x xs || mem x ys)
mem-append x [] ys = refl
mem-append x (y ∷ xs) ys = ground (arith, mem-append x xs ys)

disposed-once :
    (alternatives : List Alternative) (id : String)
    → disposed alternatives "chosen" id ≡ true
    → disposed alternatives "rejected" id ≡ true
    → true ≡ false
disposed-once [] id h k = cc
disposed-once (a ∷ as') id h k = elim (Bool-cases (str_eq id a.alternative_id)) [
  | inl e ↦
      let c : a.disposition ≡ "chosen" = (str_eq_iff a.disposition "chosen").0 (rw e at h) in
      let r : a.disposition ≡ "rejected" = (str_eq_iff a.disposition "rejected").0 (rw e at k) in
      let same : "chosen" ≡ "rejected" = sym c ∙ r in sym ((str_eq_iff "chosen" "rejected").1 same)
  | inr e ↦ disposed-once as' id (rw e at h) (rw e at k)
]

record Choices (alternatives : List Alternative) (chosen rejected : List String) : Type 0 where
  apart : distinct (alternative_ids alternatives) ≡ true
  chosen_apart : distinct chosen ≡ true
  rejected_apart : distinct rejected ≡ true
  chosen_so : all (disposed alternatives "chosen") chosen ≡ true
  rejected_so : all (disposed alternatives "rejected") rejected ≡ true
  covered : all_in (alternative_ids alternatives) (chosen ++ rejected) ≡ true

chosen_ids-ok :
    (alternatives : List Alternative) (key disposition : String) (verdict : Fields)
    (ids : List String)
    → chosen_ids alternatives key disposition verdict ≡ ok ids
    → (distinct ids ≡ true) × (all (disposed alternatives disposition) ids ≡ true)
unfolding chosen_ids
chosen_ids-ok alternatives key disposition verdict ids h =
    let (xs, _, h1) = >>=-eq-ok (known_ids key verdict) _ h in
    let (apart, h2) = demand->>-ok (distinct xs) _ _ h1 in
    let (so, h3) = demand->>-ok (all (disposed alternatives disposition) xs) _ _ h2 in
    subst (λ ys. (distinct ys ≡ true) × (all (disposed alternatives disposition) ys ≡ true))
      (ok_injective xs ids h3) (apart, so)

read_choices-Choices :
    (value verdict : Fields) (alternatives : List Alternative) (chosen rejected : List String)
    → read_choices value verdict ≡ ok (alternatives, (chosen, rejected))
    → Choices alternatives chosen rejected
unfolding read_choices
read_choices-Choices value verdict alternatives chosen rejected h =
    let (items, _, h1) = >>=-eq-ok (list_field "alternatives" value) _ h in
    let (alts, h2, h3) = >>=-eq-ok (read_alternatives [] items) _ h1 in
    let (cs, h4, h5) = >>=-eq-ok (chosen_ids alts "chosen_alternative_ids" "chosen" verdict) _ h3 in
    let (rs, h6, h7) =
      >>=-eq-ok (chosen_ids alts "rejected_alternative_ids" "rejected" verdict) _ h5 in
    let (c, h8) =
      demand->>-ok
        (all_in (alternative_ids alts) (cs ++ rs) && all_in (cs ++ rs) (alternative_ids alts)) _ _
        h7 in
    let same : (alts, (cs, rs)) ≡ (alternatives, (chosen, rejected)) = ok_injective _ _ h8 in
    let (_, apart) = read_alternatives-distinct [] items alts h2 in
    let (c1, c2) = chosen_ids-ok alts "chosen_alternative_ids" "chosen" verdict cs h4 in
    let (r1, r2) = chosen_ids-ok alts "rejected_alternative_ids" "rejected" verdict rs h6 in
    let (cover, _) = both_true (all_in (alternative_ids alts) (cs ++ rs)) _ c in
    subst (λ (t : List Alternative × (List String × List String)). Choices t.0 t.1.0 t.1.1) same
      (record {
        apart = apart;
        chosen_apart = c1;
        rejected_apart = r1;
        chosen_so = c2;
        rejected_so = r2;
        covered = cover;
      })

exclusive_choice :
    (alternatives : List Alternative) (chosen rejected : List String) (id : String)
    → Choices alternatives chosen rejected
    → mem id chosen ≡ true
    → mem id rejected ≡ false
exclusive_choice alternatives chosen rejected id c m = elim (Bool-cases (mem id rejected)) [
  | inl e ↦
      let clash =
        disposed-once alternatives id (all-mem _ chosen id c.chosen_so m)
          (all-mem _ rejected id c.rejected_so e) in
      cc clash
  | inr e ↦ e
]

record Grounds (sha256 : String → String) (words : String) (evidence : List Evidence)
    (refs : List String) : Type 0 where
  apart : distinct (evidence_ids evidence) ≡ true
  intact : All (Hashed sha256) evidence
  kept : verbatim words evidence ≡ true
  refers : all_in refs (evidence_ids evidence) ≡ true

module _ (sha256 : String → String) (json_bytes : Json → ℕ) where
  -- What an accepted envelope promises: each alternative is chosen or rejected and never both, the
  -- evidence is intact and holds the operator's words, and the references are to its evidence.
  pub record Sound (e : Envelope) : Type 0 where
    pub alternatives_apart : distinct (alternative_ids e.alternatives) ≡ true
    pub chosen_apart : distinct e.chosen_alternative_ids ≡ true
    pub rejected_apart : distinct e.rejected_alternative_ids ≡ true
    pub chosen_so : all (disposed e.alternatives "chosen") e.chosen_alternative_ids ≡ true
    pub rejected_so : all (disposed e.alternatives "rejected") e.rejected_alternative_ids ≡ true
    pub decided :
        (id : String)
        → mem id (alternative_ids e.alternatives) ≡ true
        → (mem id e.chosen_alternative_ids || mem id e.rejected_alternative_ids) ≡ true
    pub exclusive :
        (id : String)
        → mem id e.chosen_alternative_ids ≡ true
        → mem id e.rejected_alternative_ids ≡ false
    pub evidence_apart : distinct (evidence_ids e.evidence) ≡ true
    pub intact : All (Hashed sha256) e.evidence
    pub verbatim_kept : verbatim e.raw_operator_text e.evidence ≡ true
    pub refers : all_in e.source_refs (evidence_ids e.evidence) ≡ true

  read_grounds-Grounds :
      (value case_ : Fields) (words : String) (evidence : List Evidence) (refs : List String)
      → read_grounds sha256 json_bytes value case_ words ≡ ok (evidence, refs)
      → Grounds sha256 words evidence refs
  unfolding read_grounds
  read_grounds-Grounds value case_ words evidence refs h =
      let (items, _, h1) = >>=-eq-ok (list_field "evidence" value) _ h in
      let (_, h2) = demand->>-ok (not (is_nil items)) _ _ h1 in
      let (es, h3, h4) = >>=-eq-ok (read_evidences sha256 [] items) _ h2 in
      let (rs, _, h5) = >>=-eq-ok (known_ids "source_refs" case_) _ h4 in
      let (known, h6) = demand->>-ok (all_in rs (evidence_ids es)) _ _ h5 in
      let (kept, h7) = demand->>-ok (verbatim words es) _ _ h6 in
      let same : (es, rs) ≡ (evidence, refs) = ok_injective _ _ h7 in
      let (_, apart, intact) = read_evidences-distinct sha256 [] items es h3 in
      subst (λ (t : List Evidence × List String). Grounds sha256 words t.0 t.1) same
        (record { apart = apart; intact = intact; kept = kept; refers = known })

  sound :
      (e : Envelope)
      → Choices e.alternatives e.chosen_alternative_ids e.rejected_alternative_ids
      → Grounds sha256 e.raw_operator_text e.evidence e.source_refs
      → Sound e
  sound e c g = record {
    alternatives_apart = c.apart;
    chosen_apart = c.chosen_apart;
    rejected_apart = c.rejected_apart;
    chosen_so = c.chosen_so;
    rejected_so = c.rejected_so;
    decided = λ id m.
        sym (mem-append id e.chosen_alternative_ids e.rejected_alternative_ids)
        ∙ all-mem _ (alternative_ids e.alternatives) id c.covered m;
    exclusive = λ id m.
        exclusive_choice e.alternatives e.chosen_alternative_ids e.rejected_alternative_ids id c m;
    evidence_apart = g.apart;
    intact = g.intact;
    verbatim_kept = g.kept;
    refers = g.refers;
  }

  -- An envelope that the validator accepts is sound: its alternatives are distinct and each is chosen
  -- or rejected and none is both, its evidence is distinct, has the digest of its content and holds
  -- the operator's own words, and its source references are to its evidence.
  pub validate_capture_envelope-Sound :
      (value : Json) (e : Envelope)
      → validate_capture_envelope sha256 json_bytes value ≡ ok e
      → Sound e
  unfolding validate_capture_envelope validate_fields
  validate_capture_envelope-Sound (obj fields) e h =
      let (_, _, h1) = >>=-eq-ok (require_exact_fields fields top_level "top-level") _ h in
      let (head, _, h2) = >>=-eq-ok (read_head fields) _ h1 in
      let (c, _, h3) = >>=-eq-ok (item "case" fields) _ h2 in
      let (v, _, h4) = >>=-eq-ok (item "verdict" fields) _ h3 in
      let (case_, _, h5) = >>=-eq-ok (object c) _ h4 in
      let (verdict, _, h6) = >>=-eq-ok (object v) _ h5 in
      let ((words, reason), _, h7) = >>=-eq-ok (read_words case_ verdict) _ h6 in
      let ((alternatives, (chosen, rejected)), h8, h9) =
        >>=-eq-ok (read_choices fields verdict) _ h7 in
      let ((evidence, refs), h10, h11) =
        >>=-eq-ok (read_grounds sha256 json_bytes fields case_ words) _ h9 in
      let (p, _, h12) = >>=-eq-ok (object_field "provenance" fields) _ h11 in
      let (_, _, h13) = >>=-eq-ok (check_provenance (evidence_ids evidence) p) _ h12 in
      let (x, _, h14) = >>=-eq-ok (object_field "extensions" fields) _ h13 in
      let (_, _, h15) = >>=-eq-ok (check_extensions x) _ h14 in
      let (_, h16) = demand->>-ok (leb (json_bytes (obj fields)) max_event_bytes) _ _ h15 in
      subst Sound (ok_injective _ e h16) (
        sound _ (read_choices-Choices fields verdict alternatives chosen rejected h8)
          (read_grounds-Grounds fields case_ words evidence refs h10))
  validate_capture_envelope-Sound null e h = cc
  validate_capture_envelope-Sound (bool b) e h = cc
  validate_capture_envelope-Sound (int n) e h = cc
  validate_capture_envelope-Sound (float n) e h = cc
  validate_capture_envelope-Sound (str s) e h = cc
  validate_capture_envelope-Sound (arr xs) e h = cc
