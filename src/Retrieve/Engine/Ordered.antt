-- ===== src/Retrieve/Engine/Ordered.antt =====
-- The order of the candidates of `retrieve` in retrieve/engine.py.
use imprint.Base.{
  String, ◌≡◌, sym, inl, inr, false, Option, none, some, List, [], ◌∷◌, Option-cases, keep, All, ℤ,
}
use imprint.Base.{sort_by}
use mathlib.Core.List.{Perm}
use mathlib.Core.List.Perm
use mathlib.Core.Path.{subst}
use imprint.Base.Sort.{sort_by-perm, sort_by-IsOrdered, All-sort_by, IsOrdered}
use imprint.Retrieve.Models.{RetrievalRecord, RetrievalConfig}
use imprint.Retrieve.Tokenizer.{AsciiFold}
use imprint.Retrieve.Rank.{Key, Keyed, key_of, rank_key, recency_bucket, key_lt, ranks_before}
use imprint.Retrieve.Rank.Order.{ranks_before_asym}
use imprint.Retrieve.Rank.Follows.{Follows, key_lt-Follows}
use imprint.Retrieve.Engine.{ok, records, admitted, Request, candidates}
use imprint.Retrieve.Engine.Admitted.{candidates-ok, some_eq}

module _ (fold : AsciiFold) (query : String) (sel : Option String) where
  -- each candidate may stand in front of the next one
  abbrev pub Ranked : List RetrievalRecord → Type 0
  Ranked [] = Unit
  Ranked (a ∷ []) = Unit
  Ranked (a ∷ b ∷ rs) =
      ((s : ℤ) × (t : ℤ) × (recency_bucket a.valid_from ≡ some s)
        × (recency_bucket b.valid_from ≡ some t)
        × Follows fold query sel s t a b)
      × Ranked (b ∷ rs)

  rank_key-ok :
      (r : RetrievalRecord) (k : Key)
      → rank_key fold r query sel ≡ some k
      → (s : ℤ) × (recency_bucket r.valid_from ≡ some s) × (key_of fold r query sel s ≡ k)
  unfolding rank_key
  rank_key-ok r k h = elim (Option-cases (recency_bucket r.valid_from)) [
    | inl e ↦ let clash : none ≡ some k = rw (rank_key, e) at h in cc clash
    | inr (s, e) ↦ (s, e, some_eq (key_of fold r query sel s) k (rw (rank_key, e) at h))
  ]

  IsOrdered-Ranked :
      (ks : List Keyed)
      → All (λ (k : Keyed). rank_key fold k.1 query sel ≡ some k.0) ks
      → IsOrdered ranks_before ks
      → Ranked (records ks)
  unfolding ranks_before
  IsOrdered-Ranked [] h o = tt
  IsOrdered-Ranked ((k, a) ∷ []) h o = tt
  IsOrdered-Ranked ((k, a) ∷ (l, b) ∷ ks) h o =
      let (s, e, is_k) = rank_key-ok a k h.0 in
      let (t, f, is_l) = rank_key-ok b l h.1.0 in
      let below : key_lt l k ≡ false = o.0 in
      let follows : Follows fold query sel s t a b = key_lt-Follows fold query sel a b s t (
        subst (λ x. key_lt x (key_of fold a query sel s) ≡ false) (sym is_l)
          (subst (λ y. key_lt l y ≡ false) (sym is_k) below)) in
      ((s, t, e, f, follows), IsOrdered-Ranked ((l, b) ∷ ks) h.1 o.1)

module _ (fold : AsciiFold) (source : String → List RetrievalRecord)
    (config : RetrievalConfig) where
  -- The candidates are the source's records that pass the filter, each as often as there. Of two
  -- neighbours the first is pinned or both are alike in that; then it is of the selected domain, then
  -- its score is higher, its authority more direct, its tier better, its recurrences more, its day
  -- later, wherever all before is alike, and last the ids do not descend.
  pub candidates-Ranked :
      (q : Request fold source config) (mode : String) (wanted : List String)
      (ranked : List RetrievalRecord)
      → candidates fold source config q mode wanted ≡ ok ranked
      → Perm ranked (keep (admitted fold source config q mode wanted) (source q.snapshot_id))
        × Ranked fold q.query q.selected_domain ranked
  candidates-Ranked q mode wanted ranked h =
      let (ks, same, named, keyed) = candidates-ok fold source config q mode wanted ranked h in
      let sorted = sort_by ranks_before ks in
      let kept = keep (admitted fold source config q mode wanted) (source q.snapshot_id) in
      let order : Ranked fold q.query q.selected_domain (records sorted) =
        IsOrdered-Ranked fold q.query q.selected_domain sorted
          (All-sort_by ranks_before
            (λ (k : Keyed). rank_key fold k.1 q.query q.selected_domain ≡ some k.0) ks keyed)
          (sort_by-IsOrdered ranks_before ranks_before_asym ks) in
      let perm : Perm (records sorted) (records ks) =
        Perm.map (λ (k : Keyed). k.1) (sort_by-perm ranks_before ks) in
      (
        subst (λ xs. Perm xs kept) (sym same) (subst (λ ys. Perm (records sorted) ys) named perm),
        subst (Ranked fold q.query q.selected_domain) (sym same) order,
      )
