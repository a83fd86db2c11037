-- ===== src/Retrieve/Engine/Requests.antt =====
-- What `_partitions` of retrieve/engine.py accepts.
use imprint.Base.{
  String, ◌≡◌, refl, ◌≢◌, true, false, ◌||◌, List, [], ◌∷◌, arith, str_eq_iff, all, mem, distinct,
  str_eq,
}
use imprint.Base.{Bool-cases, inl, inr, ◌⊎◌, sym, ◌∙◌}
use imprint.Retrieve.Models.{ontology_partitions}
use imprint.Retrieve.Engine.{ok, absent, names, unique_from, unique, partitions}

-- membership after the removal of repeated names
mem-unique_from :
    (p : String) (seen ns : List String)
    → (mem p seen || mem p (unique_from seen ns)) ≡ (mem p seen || mem p ns)
unfolding unique_from
mem-unique_from p seen [] = refl
mem-unique_from p seen (n ∷ ns) = ground (arith, mem-unique_from p (n ∷ seen) ns, str_eq_iff p n)

-- no name stands twice, and none that was seen before
unique_from-fresh :
    (p : String) (seen ns : List String) → mem p seen ≡ true → mem p (unique_from seen ns) ≡ false
unfolding unique_from
unique_from-fresh p seen [] h = refl
unique_from-fresh p seen (n ∷ ns) h =
    ground (arith, unique_from-fresh p (n ∷ seen) ns, str_eq_iff p n)

unique_from-distinct : (seen ns : List String) → distinct (unique_from seen ns) ≡ true
unfolding unique_from
unique_from-distinct seen [] = refl
unique_from-distinct seen (n ∷ ns) =
    ground
      (arith, unique_from-distinct (n ∷ seen) ns, unique_from-fresh n (n ∷ seen) ns, str_eq_iff n n)

pub partitions-accepted :
    (asked : List String) (mode : String) (wanted : List String)
    → partitions (names asked) mode ≡ ok wanted
    → (distinct wanted ≡ true)
      × (all (λ p. mem p ontology_partitions) wanted ≡ true)
      × ((p : String) → mem p wanted ≡ mem p asked)
      × ((mode ≢ "analytical") ⊎ (wanted ≢ []))
unfolding partitions unique
partitions-accepted asked mode wanted h =
    let e : unique_from [] asked ≡ wanted = ground arith in
    rw (← e) (
      unique_from-distinct [] asked,
      ground arith,
      λ p. mem-unique_from p [] asked,
      elim (Bool-cases (str_eq mode "analytical")) [
        | inl m ↦ inr (ground arith)
        | inr m ↦ inl (λ same. cc (sym m ∙ (str_eq_iff mode "analytical").1 same))
      ],
    )

-- Without a sequence of names only authoritative retrieval over all partitions is accepted.
pub partitions-absent :
    (mode : String) (wanted : List String)
    → partitions absent mode ≡ ok wanted
    → (mode ≢ "analytical") × (wanted ≡ [])
unfolding partitions
partitions-absent mode wanted h = ground (arith, str_eq_iff mode "analytical")
