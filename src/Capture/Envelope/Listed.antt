-- ===== src/Capture/Envelope/Listed.antt =====
-- The lists of alternatives and of evidence that capture/schema.py has read.
use imprint.Base.{
  String, ◌≡◌, refl, ap, true, false, not, some, List, [], ◌∷◌, arith, str_eq, str_eq_iff, all, All,
  mem, distinct,
}
use imprint.Base.{str_eq_sym}
use mathlib.Core.Path.{subst}
use imprint.Ontology.Fault.{ok, demand->>-ok, >>=-eq-ok}
use imprint.Ontology.Json.{Json, Items, cons, nil, item}
use imprint.Ontology.Require.{require_exact_fields, urn_at}
use imprint.Capture.Schema.{
  Alternative, Evidence, dispositions, evidence_kinds, text_field, object, closed, digest_of,
  kind_text, disposition_text, read_alternative, read_alternatives, alternative_ids, read_evidence,
  read_evidences, evidence_ids,
}

pub ok_injective {ℓ} : {A : Type ℓ} (a b : A) → ok a ≡ ok b → a ≡ b
ok_injective a b h = ground arith

read_alternative-fresh :
    (seen : List String) (v : Json) (a : Alternative)
    → read_alternative seen v ≡ ok a
    → mem a.alternative_id seen ≡ false
unfolding read_alternative
read_alternative-fresh seen v a h =
    let (fields, _, h1) = >>=-eq-ok (object v) _ h in
    let (_, _, h2) =
      >>=-eq-ok
        (require_exact_fields fields ("alternative_id" ∷ "description" ∷ "disposition" ∷ [])
          "alternative")
        _ h1 in
    let (id, _, h3) =
      >>=-eq-ok (urn_at "alternative_id" fields (some "alternative") "alternative.alternative_id") _
        h2 in
    let (_, _, h4) = >>=-eq-ok (text_field "description" fields) _ h3 in
    let (d, _, h5) = >>=-eq-ok (closed "disposition" fields dispositions) _ h4 in
    let (fresh, h6) = demand->>-ok (not (mem id seen)) _ _ h5 in
    let (disposition, _, h7) = >>=-eq-ok (disposition_text d) _ h6 in
    let made : Alternative = record { alternative_id = id; disposition = disposition } in
    let same : id ≡ a.alternative_id =
      ap (λ (x : Alternative). x.alternative_id) (ok_injective made a h7) in
    subst (λ x. mem x seen ≡ false) same (ground arith)

-- the identities of a list that avoid some texts
abbrev Avoids : List String → List String → Type 0
Avoids seen ids = all (λ x. not (mem x seen)) ids ≡ true

Avoids-head : (x : String) (seen ids : List String) → Avoids (x ∷ seen) ids → mem x ids ≡ false
Avoids-head x seen [] h = refl
Avoids-head x seen (y ∷ ys) h = ground (arith, str_eq_sym x y, Avoids-head x seen ys)

Avoids-tail : (x : String) (seen ids : List String) → Avoids (x ∷ seen) ids → Avoids seen ids
Avoids-tail x seen [] h = refl
Avoids-tail x seen (y ∷ ys) h = ground (arith, Avoids-tail x seen ys)

pub read_alternatives-distinct :
    (seen : List String) (items : Items) (out : List Alternative)
    → read_alternatives seen items ≡ ok out
    → Avoids seen (alternative_ids out) × (distinct (alternative_ids out) ≡ true)
unfolding read_alternatives
read_alternatives-distinct seen nil out h =
    subst (λ xs. Avoids seen (alternative_ids xs) × (distinct (alternative_ids xs) ≡ true))
      (ok_injective [] out h) (refl, refl)
read_alternatives-distinct seen (cons v vs) out h =
    let (a, h1, h2) = >>=-eq-ok (read_alternative seen v) _ h in
    let (rest, h3, h4) = >>=-eq-ok (read_alternatives (a.alternative_id ∷ seen) vs) _ h2 in
    let fresh = read_alternative-fresh seen v a h1 in
    let (avoid, apart) = read_alternatives-distinct (a.alternative_id ∷ seen) vs rest h3 in
    let here = Avoids-head a.alternative_id seen (alternative_ids rest) avoid in
    let later = Avoids-tail a.alternative_id seen (alternative_ids rest) avoid in
    subst (λ xs. Avoids seen (alternative_ids xs) × (distinct (alternative_ids xs) ≡ true))
      (ok_injective (a ∷ rest) out h4) (rw (fresh) later, rw (here) apart)

module _ (sha256 : String → String) where
  -- an item of evidence holds the digest of its content
  abbrev pub Hashed : Evidence → Type 0
  Hashed e = sha256 e.content ≡ e.content_sha256

  read_evidence-fresh :
      (seen : List String) (v : Json) (e : Evidence)
      → read_evidence sha256 seen v ≡ ok e
      → (mem e.evidence_id seen ≡ false) × Hashed e
  unfolding read_evidence
  read_evidence-fresh seen v e h =
      let (fields, _, h1) = >>=-eq-ok (object v) _ h in
      let (_, _, h2) =
        >>=-eq-ok
          (require_exact_fields fields
            ("evidence_id" ∷ "kind" ∷ "content" ∷ "content_sha256" ∷ "source_locator" ∷ [])
            "evidence")
          _ h1 in
      let (id, _, h3) =
        >>=-eq-ok (urn_at "evidence_id" fields (some "evidence") "evidence.evidence_id") _ h2 in
      let (content, _, h4) = >>=-eq-ok (text_field "content" fields) _ h3 in
      let (k, _, h5) = >>=-eq-ok (closed "kind" fields evidence_kinds) _ h4 in
      let (fresh, h6) = demand->>-ok (not (mem id seen)) _ _ h5 in
      let (kind, _, h7) = >>=-eq-ok (kind_text k) _ h6 in
      let (j, _, h8) = >>=-eq-ok (item "content_sha256" fields) _ h7 in
      let (digest, _, h9) = >>=-eq-ok (digest_of j) _ h8 in
      let (same, h10) = demand->>-ok (str_eq (sha256 content) digest) _ _ h9 in
      let (_, _, h11) = >>=-eq-ok (text_field "source_locator" fields) _ h10 in
      let made : Evidence = record {
        evidence_id = id;
        kind = kind;
        content = content;
        content_sha256 = digest;
      } in
      subst (λ (x : Evidence). (mem x.evidence_id seen ≡ false) × Hashed x)
        (ok_injective made e h11) (ground arith, (str_eq_iff (sha256 content) digest).0 same)

  pub read_evidences-distinct :
      (seen : List String) (items : Items) (out : List Evidence)
      → read_evidences sha256 seen items ≡ ok out
      → Avoids seen (evidence_ids out) × (distinct (evidence_ids out) ≡ true) × All Hashed out
  unfolding read_evidences
  read_evidences-distinct seen nil out h =
      subst
        (λ xs. Avoids seen (evidence_ids xs) × (distinct (evidence_ids xs) ≡ true) × All Hashed xs)
        (ok_injective [] out h) (refl, refl, tt)
  read_evidences-distinct seen (cons v vs) out h =
      let (a, h1, h2) = >>=-eq-ok (read_evidence sha256 seen v) _ h in
      let (rest, h3, h4) = >>=-eq-ok (read_evidences sha256 (a.evidence_id ∷ seen) vs) _ h2 in
      let (fresh, hashed) = read_evidence-fresh seen v a h1 in
      let (avoid, apart, all_hashed) = read_evidences-distinct (a.evidence_id ∷ seen) vs rest h3 in
      let here = Avoids-head a.evidence_id seen (evidence_ids rest) avoid in
      let later = Avoids-tail a.evidence_id seen (evidence_ids rest) avoid in
      subst
        (λ xs. Avoids seen (evidence_ids xs) × (distinct (evidence_ids xs) ≡ true) × All Hashed xs)
        (ok_injective (a ∷ rest) out h4) (rw (fresh) later, rw (here) apart, (hashed, all_hashed))
