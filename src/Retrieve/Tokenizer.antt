-- ===== src/Retrieve/Tokenizer.antt =====
-- retrieve/tokenizer.py. A token is the list of its ASCII code points.
use imprint.Base.{
  ℕ, ◌+◌, String, Bool, true, false, ◌&&◌, ◌||◌, Option, none, some, List, [], ◌∷◌, ◌++◌, reverse,
  ◌==◌, if◌then◌else◌, codes, codes_eq, is_digit, is_lower,
}

abbrev pub tokenizer_version : String
tokenizer_version = "lexical-v1"

abbrev pub is_alnum : ℕ → Bool
is_alnum c = is_lower c || is_digit c

abbrev is_joiner : ℕ → Bool
is_joiner c = c == 39 || c == b'-'

-- What the pattern `[a-z0-9]+(?:['-][a-z0-9]+)*` has matched so far: a word, last character first,
-- and a joiner behind it that counts only if a letter or a digit follows.
pub record Scan : Type 0 where
  pub word : List ℕ
  pub joiner : Option ℕ

abbrev pub start : Scan
start = record { word = []; joiner = none }

abbrev pub emit : List ℕ → List (List ℕ)
emit [] = []
emit (c ∷ word) = reverse (c ∷ word) ∷ []

abbrev extend : ℕ → List ℕ → Option ℕ → List ℕ
extend c word none = c ∷ word
extend c word (some j) = c ∷ j ∷ word

abbrev may_join : List ℕ → Option ℕ → Bool
may_join (c ∷ word) none = true
may_join _ _ = false

-- one more character: the words that it ends, and the scan behind it
pub scan_step : ℕ → Scan → List (List ℕ) × Scan
scan_step c s =
    if is_alnum c
    then ([], record { word = extend c s.word s.joiner; joiner = none })
    else if is_joiner c && may_join s.word s.joiner
    then ([], record { word = s.word; joiner = some c })
    else (emit s.word, start)

-- `_TOKEN.findall`
pub find_all : Scan → List ℕ → List (List ℕ)
unfolding scan_step
find_all s [] = emit s.word
find_all s (c ∷ cs) = let (words, s') = scan_step c s in words ++ find_all s' cs

abbrev pub mem_token : List ℕ → List (List ℕ) → Bool
mem_token t [] = false
mem_token t (x ∷ xs) = codes_eq t x || mem_token t xs

-- `sum(1 for token in query_tokens if token in candidate)`
pub count_in : List (List ℕ) → List (List ℕ) → ℕ
count_in [] candidate = 0
count_in (t ∷ ts) candidate = (if mem_token t candidate then 1 else 0) + count_in ts candidate

-- The tables of `unicodedata` and of `casefold`: the ASCII code points to which the compatibility
-- decomposition of one character, case-folded, projects.
abbrev pub AsciiFold : Type 0
AsciiFold = ℕ → List ℕ

module _ (fold : AsciiFold) where
  -- `normalize("NFKD", value).casefold().encode("ascii", "ignore")`: the reordering of combining
  -- marks moves no ASCII character
  pub stable : List ℕ → List ℕ
  stable [] = []
  stable (c ∷ cs) = fold c ++ stable cs

  unfoldable pub tokenize : String → List (List ℕ)
  unfolding stable find_all
  tokenize value = find_all start (stable (codes value))

  unfoldable pub lexical_score : String → String → ℕ
  unfolding tokenize count_in
  lexical_score query text = count_in (tokenize query) (tokenize text)
