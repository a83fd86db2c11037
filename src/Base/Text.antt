-- ===== src/Base/Text.antt =====
-- Python's texts as lists of code points.
use native.Mathlib.Omega.{arith}
use mathlib.Core.Path.{◌≡◌, refl}
use Prim.Native.Nat.{ℕ}
use Prim.Native.Char.{code}
use Prim.Native.String.{String}
use mathlib.Core.Bool.{Bool, true, false, ◌&&◌, ◌||◌, not}
use mathlib.Core.List.{List, [], ◌∷◌}
use imprint.Base.Tests.{◌==◌, leb, ltb}
use imprint.Base.Lists.{any}

abbrev pub codes : String → List ℕ
codes String.[] = []
codes (String.◌∷◌ c s) = code c ∷ codes s

-- `str.isspace` of one code point
abbrev pub is_space : ℕ → Bool
is_space c =
    (leb 9 c && leb c 13)
    || (leb 28 c && leb c 32)
    || c == 133
    || c == 160
    || c == 5760
    || (leb 8192 c && leb c 8202)
    || c == 8232
    || c == 8233
    || c == 8239
    || c == 8287
    || c == 12288

-- `bool(value.strip())`
unfoldable pub has_text : String → Bool
has_text s = any (λ c. not (is_space c)) (codes s)

abbrev pub is_digit : ℕ → Bool
is_digit c = leb b'0' c && leb c b'9'

abbrev pub is_lower : ℕ → Bool
is_lower c = leb b'a' c && leb c b'z'

abbrev pub codes_eq : List ℕ → List ℕ → Bool
codes_eq [] [] = true
codes_eq (a ∷ as') (b ∷ bs) = a == b && codes_eq as' bs
codes_eq _ _ = false

-- `a < b` for two texts by their code points, which is also the order of their UTF-8 bytes
abbrev pub codes_lt : List ℕ → List ℕ → Bool
codes_lt [] [] = false
codes_lt [] (b ∷ bs) = true
codes_lt (a ∷ as') [] = false
codes_lt (a ∷ as') (b ∷ bs) = ltb a b || (a == b && codes_lt as' bs)

pub codes_lt_asym : (s t : List ℕ) → codes_lt s t ≡ true → codes_lt t s ≡ false
codes_lt_asym [] [] h = cc
codes_lt_asym [] (b ∷ bs) h = refl
codes_lt_asym (a ∷ as') [] h = cc
codes_lt_asym (a ∷ as') (b ∷ bs) h = ground (arith, codes_lt_asym as' bs)

unfoldable pub text_lt : String → String → Bool
text_lt s t = codes_lt (codes s) (codes t)

pub text_lt_asym : (s t : String) → text_lt s t ≡ true → text_lt t s ≡ false
unfolding text_lt
text_lt_asym s t h = codes_lt_asym (codes s) (codes t) h
