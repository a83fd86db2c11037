-- ===== src/Retrieve/Rank/Follows.antt =====
-- What the sort key of retrieve/engine.py prefers, said of the records.
use imprint.Base.{
  ℕ, zero, suc, ◌<◌, String, ◌≡◌, refl, sym, ◌⊎◌, inl, inr, true, false, Option, List, ◌∷◌, arith,
  Bool-cases, ℤ, pos, negsuc, pos_part, negate_ℕ, negate, ltbℤ, eqbℤ, text_lt, Bool, ◌||◌, ◌&&◌,
}
use imprint.Base.{List, [], ◌∷◌, true, false, refl, Bool, sym, inl, inr}
use imprint.Retrieve.Models.{RetrievalRecord}
use imprint.Retrieve.Tokenizer.{AsciiFold, lexical_score}
use imprint.Retrieve.Rank.{
  key_of, exact_domain, direct_authority, tier_order, int, numbers_lt, numbers_eq, key_lt,
}
use imprint.Base.{eqbℤ-eq, pos, negate, negate_ℕ, ltbℤ, eqbℤ, text_lt, pos_part}

-- the first is greater, or they are equal and the rest decides
abbrev pub Greater : ℕ → ℕ → Type 0 → Type 0
Greater x y Rest = (y < x) ⊎ ((x ≡ y) × Rest)

abbrev pub Less : ℕ → ℕ → Type 0 → Type 0
Less x y Rest = (x < y) ⊎ ((x ≡ y) × Rest)

abbrev pub Later : ℤ → ℤ → Type 0 → Type 0
Later x y Rest = (ltbℤ y x ≡ true) ⊎ ((x ≡ y) × Rest)

trichotomy : (a b : ℤ) → ltbℤ b a ≡ false → eqbℤ b a ≡ false → ltbℤ a b ≡ true
trichotomy (pos a) (pos b) h k = ground arith
trichotomy (pos a) (negsuc b) h k = cc
trichotomy (negsuc a) (pos b) h k = refl
trichotomy (negsuc a) (negsuc b) h k = ground arith

-- the numbers of two keys, the first of which is not above the second; then `Q` decides
abbrev Lex : List ℤ → List ℤ → Type 0 → Type 0
Lex (a ∷ xs) (b ∷ ys) Q = (ltbℤ a b ≡ true) ⊎ ((a ≡ b) × Lex xs ys Q)
Lex [] [] Q = Q
Lex _ _ Q = Unit

numbers_lt-Lex :
    (xs ys : List ℤ) (Q : Type 0)
    → numbers_lt ys xs ≡ false
    → (numbers_eq ys xs ≡ true → Q)
    → Lex xs ys Q
numbers_lt-Lex [] [] Q h q = q refl
numbers_lt-Lex [] (b ∷ ys) Q h q = tt
numbers_lt-Lex (a ∷ xs) [] Q h q = tt
numbers_lt-Lex (a ∷ xs) (b ∷ ys) Q h q = elim (Bool-cases (eqbℤ b a)) [
  | inl e ↦
      let rest : numbers_lt ys xs ≡ false = ground arith in
      inr (sym (eqbℤ-eq b a e), numbers_lt-Lex xs ys Q rest (λ n. q (rw e n)))
  | inr e ↦ let not_below : ltbℤ b a ≡ false = ground arith in inl (trichotomy a b not_below e)
]

greater :
    (x y : ℕ) (R : Type 0)
    → (ltbℤ (negate_ℕ x) (negate_ℕ y) ≡ true) ⊎ ((negate_ℕ x ≡ negate_ℕ y) × R)
    → Greater x y R
greater zero zero R (inr (e, r)) = inr (refl, r)
greater zero zero R (inl h) = ground arith
greater zero (suc y) R (inl h) = cc
greater zero (suc y) R (inr (e, r)) = cc
greater (suc x) zero R h = inl (omega arith)
greater (suc x) (suc y) R (inl h) = inl (ground arith)
greater (suc x) (suc y) R (inr (e, r)) = inr (ground arith, r)

less : (x y : ℕ) (R : Type 0) → (ltbℤ (pos x) (pos y) ≡ true) ⊎ ((pos x ≡ pos y) × R) → Less x y R
less x y R (inl h) = inl (ground arith)
less x y R (inr (e, r)) = inr (ground arith, r)

later :
    (x y : ℤ) (R : Type 0)
    → (ltbℤ (negate x) (negate y) ≡ true) ⊎ ((negate x ≡ negate y) × R)
    → Later x y R
later (pos zero) (pos zero) R (inl h) = ground arith
later (pos zero) (pos zero) R (inr (e, r)) = inr (refl, r)
later (pos zero) (pos (suc y)) R (inl h) = cc
later (pos zero) (pos (suc y)) R (inr (e, r)) = cc
later (pos zero) (negsuc y) R h = inl refl
later (pos (suc x)) (pos zero) R h = inl (ground arith)
later (pos (suc x)) (pos (suc y)) R (inl h) = inl (ground arith)
later (pos (suc x)) (pos (suc y)) R (inr (e, r)) = inr (ground arith, r)
later (pos (suc x)) (negsuc y) R h = inl refl
later (negsuc x) (pos zero) R (inl h) = ground arith
later (negsuc x) (pos zero) R (inr (e, r)) = ground arith
later (negsuc x) (pos (suc y)) R (inl h) = cc
later (negsuc x) (pos (suc y)) R (inr (e, r)) = cc
later (negsuc x) (negsuc y) R (inl h) = inl (ground arith)
later (negsuc x) (negsuc y) R (inr (e, r)) = inr (ground arith, r)

then_greater :
    (x y : ℕ) (R S : Type 0)
    → (ltbℤ (negate_ℕ x) (negate_ℕ y) ≡ true) ⊎ ((negate_ℕ x ≡ negate_ℕ y) × R)
    → (R → S)
    → Greater x y S
then_greater x y R S h k = elim (greater x y R h) [ inl l ↦ inl l | inr (e, r) ↦ inr (e, k r) ]

then_less :
    (x y : ℕ) (R S : Type 0)
    → (ltbℤ (pos x) (pos y) ≡ true) ⊎ ((pos x ≡ pos y) × R)
    → (R → S)
    → Less x y S
then_less x y R S h k = elim (less x y R h) [ inl l ↦ inl l | inr (e, r) ↦ inr (e, k r) ]

split : (l e t : Bool) → (l || (e && t)) ≡ false → (l ≡ false) × (e ≡ true → t ≡ false)
split l e t h = ground arith

module _ (fold : AsciiFold) (query : String) (sel : Option String) where
  -- The first of two neighbours among the candidates: pinned before the rest, then of the selected
  -- domain, of the higher score, of the more direct authority, of the better tier, of more
  -- recurrences, of the later day, and last by its id.
  abbrev pub Follows : ℤ → ℤ → RetrievalRecord → RetrievalRecord → Type 0
  Follows s t a b = Greater (int a.pinned) (int b.pinned) (
      Greater (int (exact_domain a sel)) (int (exact_domain b sel)) (
        Greater (lexical_score fold query a.text) (lexical_score fold query b.text) (
          Less (direct_authority a.provenance_status) (direct_authority b.provenance_status) (
            Less (tier_order a.authority_tier) (tier_order b.authority_tier) (
              Greater (pos_part a.recurrence_count) (pos_part b.recurrence_count)
                (Later s t (text_lt b.record_id a.record_id ≡ false)))))))

  pub key_lt-Follows :
      (a b : RetrievalRecord) (s t : ℤ)
      → key_lt (key_of fold b query sel t) (key_of fold a query sel s) ≡ false
      → Follows s t a b
  unfolding key_lt
  key_lt-Follows a b s t h =
      let ka = key_of fold a query sel s in
      let kb = key_of fold b query sel t in
      let Q : Type 0 = text_lt b.record_id a.record_id ≡ false in
      let (below, same) =
        split (numbers_lt kb.numbers ka.numbers) (numbers_eq kb.numbers ka.numbers)
          (text_lt b.record_id a.record_id) h in
      let lex = numbers_lt-Lex ka.numbers kb.numbers Q below same in
      then_greater (int a.pinned) (int b.pinned) _ _ lex (λ l1.
        then_greater (int (exact_domain a sel)) (int (exact_domain b sel)) _ _ l1 (λ l2.
          then_greater (lexical_score fold query a.text) (lexical_score fold query b.text) _ _ l2
            (λ l3.
              then_less (direct_authority a.provenance_status)
                (direct_authority b.provenance_status) _ _ l3
                (λ l4.
                  then_less (tier_order a.authority_tier) (tier_order b.authority_tier) _ _ l4
                    (λ l5.
                      then_greater (pos_part a.recurrence_count) (pos_part b.recurrence_count) _ _
                        l5 (λ l6. later s t Q l6))))))
