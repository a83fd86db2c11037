-- ===== src/Retrieve/Engine/Admitted.antt =====
-- The candidates and the selection of `retrieve` in retrieve/engine.py: where the selected records
-- come from.
use mathlib.Core.List.{Memᴰ, [], ◌∷◌}
use imprint.Base.{
  ℕ, String, ◌≡◌, refl, ap, true, List, ◌++◌, keep, All, All-keep_test, All-append, All-keep,
  All-Mem,
}
use imprint.Base.Sort.{All-sort_by}
use imprint.Retrieve.Models.{core, general, domain, same_section, RetrievalRecord, RetrievalConfig}
use imprint.Retrieve.Tokenizer.{AsciiFold}
use imprint.Retrieve.Rank.{Key, Keyed, rank_key, ranks_before}
use imprint.Retrieve.Render.{render}
use imprint.Retrieve.Budget.{Selected}
use imprint.Retrieve.Budget.Bounds.{IsGreedy, done, pick, skip}
use imprint.Retrieve.Engine.{
  Result, RetrievalResult, ok, err, ◌>>=◌, guard, budget_violated, time_overflow, budget, with_keys,
  records, result_of, admitted, ids, Request, candidates, selection, compile,
}
use imprint.Base.{sort_by, leb, Option, none, some, Option-cases, inl, inr, sym}
use Prim.Native.String.{len}
use mathlib.Core.Path.{subst}
use imprint.Base.{arith}
use imprint.Retrieve.Engine.Budgeted.{selection-Turns}

pub some_eq {ℓ} : {A : Type ℓ} (a b : A) → some a ≡ some b → a ≡ b
some_eq a b h = ground arith

ok_eq {ℓ} : {A : Type ℓ} (a b : A) → ok a ≡ ok b → a ≡ b
ok_eq a b h = ground arith

-- the first part of a `do` block that has returned, and what came of the rest
returned_parts :
    {A B : Type 0} (first : Result A) (rest : A → Result B) (value : B)
    → (first >>= rest) ≡ ok value
    → (made : A) × (first ≡ ok made) × (rest made ≡ ok value)
returned_parts (err refusal) rest value h = cc
returned_parts (ok made) rest value h = (made, refl, h)

module _ {κ} (render' : RetrievalRecord → String) (P : RetrievalRecord → Type κ) where
  -- what holds of every item holds of a record behind every selected id
  IsGreedy-All :
      {left : ℕ} {rs : List RetrievalRecord} {ps : List Selected}
      → IsGreedy render' left rs ps
      → All P rs
      → All (λ id. (r : RetrievalRecord) × P r × (r.record_id ≡ id)) (ids ps)
  IsGreedy-All done h = tt
  IsGreedy-All (pick r g) h = ((r, h.0, refl), IsGreedy-All g h.1)
  IsGreedy-All (skip r l g) h = IsGreedy-All g h.1

ids-append : (xs ys : List Selected) → ids (xs ++ ys) ≡ ids xs ++ ids ys
ids-append [] ys = refl
ids-append (x ∷ xs) ys = ap (◌∷◌ x.record_id) (ids-append xs ys)

All-records :
    (P : RetrievalRecord → Type 0) (ks : List Keyed)
    → All (λ (k : Keyed). P k.1) ks
    → All P (records ks)
All-records P [] h = tt
All-records P (k ∷ ks) h = (h.0, All-records P ks h.1)

records-All :
    (P : RetrievalRecord → Type 0) (ks : List Keyed)
    → All P (records ks)
    → All (λ (k : Keyed). P k.1) ks
records-All P [] h = tt
records-All P (k ∷ ks) h = (h.0, records-All P ks h.1)

with_keys-ok :
    (key : RetrievalRecord → Option Key) (rs : List RetrievalRecord) (ks : List Keyed)
    → with_keys key rs ≡ some ks
    → (records ks ≡ rs) × All (λ (k : Keyed). key k.1 ≡ some k.0) ks
unfolding with_keys
with_keys-ok key [] ks h = let e : [] ≡ ks = some_eq [] ks h in rw (← e) (refl, tt)
with_keys-ok key (r ∷ rs) ks h = elim (Option-cases (key r)) [
  | inl e ↦ let clash : none ≡ some ks = rw (with_keys, e) at h in cc clash
  | inr (k, e) ↦ elim (Option-cases (with_keys key rs)) [
    | inl f ↦ let clash : none ≡ some ks = rw (with_keys, e, f) at h in cc clash
    | inr (more, f) ↦
        let same : (k, r) ∷ more ≡ ks = some_eq ((k, r) ∷ more) ks (rw (with_keys, e, f) at h) in
        let (named, keyed) = with_keys-ok key rs more f in
        rw (← same) (ap (◌∷◌ r) named, (e, keyed))
  ]
]

module _ (fold : AsciiFold) (source : String → List RetrievalRecord)
    (config : RetrievalConfig) where
  -- what the candidates come from
  pub candidates-ok :
      (q : Request fold source config) (mode : String) (wanted : List String)
      (ranked : List RetrievalRecord)
      → candidates fold source config q mode wanted ≡ ok ranked
      → (ks : List Keyed) × (ranked ≡ records (sort_by ranks_before ks))
        × (records ks ≡ keep (admitted fold source config q mode wanted) (source q.snapshot_id))
        × All (λ (k : Keyed). rank_key fold k.1 q.query q.selected_domain ≡ some k.0) ks
  unfolding candidates
  candidates-ok q mode wanted ranked h =
      let key = λ (r : RetrievalRecord). rank_key fold r q.query q.selected_domain in
      let passing = keep (admitted fold source config q mode wanted) (source q.snapshot_id) in
      elim (Option-cases (with_keys key passing)) [
        | inl e ↦ let clash : err time_overflow ≡ ok ranked = rw e at h in cc clash
        | inr (ks, e) ↦
            let same : records (sort_by ranks_before ks) ≡ ranked = ok_eq _ ranked (rw e at h) in
            let (named, keyed) = with_keys-ok key passing ks e in (ks, sym same, named, keyed)
      ]

  -- a record of the source that passed the filter
  abbrev pub Admitted : Request fold source config → String → List String → RetrievalRecord → Type 0
  Admitted q mode wanted r =
      Memᴰ r (source q.snapshot_id) × (admitted fold source config q mode wanted r ≡ true)

  candidates-All :
      (q : Request fold source config) (mode : String) (wanted : List String)
      (ranked : List RetrievalRecord)
      → candidates fold source config q mode wanted ≡ ok ranked
      → All (Admitted q mode wanted) ranked
  candidates-All q mode wanted ranked h =
      let (ks, same, named, keyed) = candidates-ok q mode wanted ranked h in
      let P = Admitted q mode wanted in
      let kept : All P (keep (admitted fold source config q mode wanted) (source q.snapshot_id)) =
        All-keep_test (λ r. Memᴰ r (source q.snapshot_id))
          (admitted fold source config q mode wanted) (source q.snapshot_id)
          (All-Mem (source q.snapshot_id)) in
      rw same (
        All-records P (sort_by ranks_before ks) (
          All-sort_by ranks_before (λ (k : Keyed). P k.1) ks
            (records-All P ks (subst (All P) (sym named) kept))))

  selection-All :
      (P : RetrievalRecord → Type 0) (rs : List RetrievalRecord)
      → All P rs
      → All
          (λ id. (r : RetrievalRecord) × P r × (r.record_id ≡ id))
          (ids (selection fold source config rs).0)
  selection-All P rs h =
      let t = selection-Turns fold source config rs in
      let draw = render config.output_format in
      let Q : String → Type 0 = λ id. (r : RetrievalRecord) × P r × (r.record_id ≡ id) in
      rw (t.in_order, ids-append, ids-append)
        (All-append Q (ids t.cores) (ids t.generals ++ ids t.domains)
          (IsGreedy-All draw P t.core_greedy (All-keep P (λ r. same_section core r.section) rs h))
          (All-append Q (ids t.generals) (ids t.domains)
            (IsGreedy-All draw P t.general_greedy
              (All-keep P (λ r. same_section general r.section) rs h))
            (IsGreedy-All draw P t.domain_greedy
              (All-keep P (λ r. same_section domain r.section) rs h))))

  -- Behind every selected id of a result stands a record of the source that is eligible for the
  -- domain and the mode of the request and lies in a requested partition, if partitions were
  -- requested.
  pub compile-Admitted :
      (q : Request fold source config) (mode : String) (wanted : List String)
      (result : RetrievalResult)
      → compile fold source config q mode wanted ≡ ok result
      → All
          (λ id. (r : RetrievalRecord) × Admitted q mode wanted r × (r.record_id ≡ id))
          result.selected_ids
  unfolding compile
  compile-Admitted q mode wanted result h =
      let (ranked, e1, h1) =
        returned_parts (candidates fold source config q mode wanted) _ result h in
      let made = result_of fold source config mode wanted ranked in
      let (u, e2, h2) =
        returned_parts (guard (leb (len made.payload) (budget config)) budget_violated) _ result
          h1 in
      let same : made ≡ result = ok_eq made result h2 in
      subst
        (λ (x : RetrievalResult).
          All (λ id. (r : RetrievalRecord) × Admitted q mode wanted r × (r.record_id ≡ id))
            x.selected_ids)
        same
        (selection-All (Admitted q mode wanted) ranked (candidates-All q mode wanted ranked e1))
