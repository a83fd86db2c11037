-- ===== src/Domains/Rule.antt =====
-- `DomainRule` and `_path_parts` of domains/selector.py.
use imprint.Base.{
  ℕ, String, Bool, false, not, ◌&&◌, ◌||◌, List, [], ◌∷◌, ◌++◌, map, leb, ◌==◌, if◌then◌else◌,
  length, keep, all, any, codes, codes_eq, has_text, is_digit, is_lower,
}
use imprint.Ontology.Urn.{split_on}

abbrev safe_tail : ℕ → Bool
safe_tail c = is_lower c || is_digit c || c == b'-'

abbrev safe_codes : List ℕ → Bool
safe_codes [] = false
safe_codes (c ∷ cs) = (is_lower c || is_digit c) && all safe_tail cs && leb (length cs) 62

-- `_SAFE_ID`
unfoldable pub is_safe_id : String → Bool
is_safe_id s = safe_codes (codes s)

pub record DomainRule : Type 0 where
  pub domain_id : String
  pub public_label : String
  pub safe_paths : List String
  pub keywords : List String
  pub frozen : Bool

abbrev pub has_nul : List ℕ → Bool
has_nul cs = any (λ c. c == 0) cs

-- what `__post_init__` accepts
unfoldable pub is_rule : DomainRule → Bool
unfolding is_safe_id has_text
is_rule r =
    is_safe_id r.domain_id
    && has_text r.public_label
    && all (λ p. has_text p && not (has_nul (codes p))) r.safe_paths

-- the case folding of one code point
abbrev pub PathFold : Type 0
PathFold = ℕ → List ℕ

abbrev casefolded : PathFold → List ℕ → List ℕ
casefolded f [] = []
casefolded f (c ∷ cs) = f c ++ casefolded f cs

-- `value.replace("\\", "/")`
abbrev slashes : List ℕ → List ℕ
slashes cs = map (λ c. if c == 92 then 47 else c) cs

-- the components that `PurePosixPath` keeps: not empty and not `.`
abbrev components : List (List ℕ) → List (List ℕ)
components ws = keep (λ w. not (codes_eq w [] || codes_eq w (46 ∷ []))) ws

abbrev all_folded : PathFold → List (List ℕ) → List (List ℕ)
all_folded f [] = []
all_folded f (w ∷ ws) = casefolded f w ∷ all_folded f ws

abbrev is_relative : List ℕ → Bool
is_relative w = codes_eq w (46 ∷ []) || codes_eq w (46 ∷ 46 ∷ [])

-- The slashes at either end only make empty components.
unfoldable pub path_parts : PathFold → String → List (List ℕ)
path_parts f value =
    let cs = slashes (codes value) in
    let parts = all_folded f (components (split_on 47 cs)) in
    if has_nul cs || any is_relative parts then [] else parts
