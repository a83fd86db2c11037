-- ===== src/Retrieve/Rank/Order.antt =====
-- The order of the rank keys of retrieve/engine.py.
use imprint.Base.{
  ◌≡◌, refl, true, false, List, [], ◌∷◌, arith, ℤ, pos, negsuc, ltbℤ, eqbℤ, text_lt_asym, eqbℤ-eq,
  ltbℤ_asym,
}
use imprint.Retrieve.Rank.{Keyed, Key, numbers_lt, numbers_eq, key_lt, ranks_before}

eqbℤ_refl : (a : ℤ) → eqbℤ a a ≡ true
eqbℤ_refl (pos n) = ground arith
eqbℤ_refl (negsuc n) = ground arith

ltbℤ_irrefl : (a : ℤ) → ltbℤ a a ≡ false
ltbℤ_irrefl (pos n) = ground arith
ltbℤ_irrefl (negsuc n) = ground arith

numbers_lt_asym :
    (s t : List ℤ) → numbers_lt s t ≡ true → (numbers_lt t s ≡ false) × (numbers_eq t s ≡ false)
numbers_lt_asym [] [] h = cc
numbers_lt_asym [] (b ∷ bs) h = (refl, refl)
numbers_lt_asym (a ∷ as') [] h = cc
numbers_lt_asym (a ∷ as') (b ∷ bs) h =
    ground (arith, numbers_lt_asym as' bs, ltbℤ_asym a b, eqbℤ-eq a b, eqbℤ-eq b a, ltbℤ_irrefl a)

numbers_eq-lt : (s t : List ℤ) → numbers_eq s t ≡ true → numbers_lt t s ≡ false
numbers_eq-lt [] [] h = refl
numbers_eq-lt [] (b ∷ bs) h = cc
numbers_eq-lt (a ∷ as') [] h = cc
numbers_eq-lt (a ∷ as') (b ∷ bs) h =
    ground (arith, numbers_eq-lt as' bs, eqbℤ-eq a b, ltbℤ_irrefl a)

key_lt_asym : (a b : Key) → key_lt a b ≡ true → key_lt b a ≡ false
unfolding key_lt
key_lt_asym a b h = ground (
  arith,
  numbers_lt_asym a.numbers b.numbers,
  numbers_eq-lt a.numbers b.numbers,
  text_lt_asym a.id b.id,
)

-- Of two keyed records at most one ranks before the other.
pub ranks_before_asym : (a b : Keyed) → ranks_before a b ≡ true → ranks_before b a ≡ false
unfolding ranks_before
ranks_before_asym a b h = key_lt_asym a.0 b.0 h
