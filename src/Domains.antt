-- ===== src/Domains.antt =====
-- domains/selector.py: which domain a session's context belongs to. Tables of `unicodedata` and of
-- `str.casefold` are parameters; paths are POSIX paths.
pub mod Rule
pub mod Choice
use imprint.Base.{
  ℕ, zero, suc, ◌+◌, ◌-◌, ◌*◌, ◌/◌, ◌%◌, ◌≤◌, ◌<◌, String, ◌≡◌, refl, sym, ap, ◌∙◌, ◌≢◌, ◌↔◌, ◌⊎◌,
  inl, inr, Bool, true, false, not, ◌&&◌, ◌||◌, Option, none, some, List, [], ◌∷◌, ◌++◌, map,
  reverse, arith, ltb, leb, ◌==◌, str_eq, str_eq_iff, if◌then◌else◌, Bool-cases, Option-cases,
  tests, length, length-append, keep, all, any, All, mem, distinct, ℤ, pos, negsuc, pos_part,
  neg_part, sub_ℕ, negate_ℕ, negate, ltbℤ, eqbℤ, codes, codes_eq, has_text, is_digit, is_lower,
  text_lt, sort_by,
}
use imprint.Retrieve.Tokenizer.{AsciiFold, tokenize, mem_token}
use imprint.Domains.Rule.{is_safe_id, DomainRule, is_rule, PathFold, path_parts}

pub record DomainSelection : Type 0 where
  pub domain_id : Option String
  pub method : String
  pub diagnostic_code : Option String

abbrev pub ids : List DomainRule → List String
ids [] = []
ids (r ∷ rs) = r.domain_id ∷ ids rs

-- the registry that the constructors accept
unfoldable pub registry : List DomainRule → Option (List DomainRule)
registry rules = if all is_rule rules && distinct (ids rules) then some rules else none

unfoldable pub domain_ids : List DomainRule → List String
domain_ids rules = sort_by text_lt (ids rules)

-- `target[: len(parts)] == parts` where `parts` is not longer
abbrev pub is_prefix : List (List ℕ) → List (List ℕ) → Bool
is_prefix [] target = true
is_prefix (p ∷ ps) [] = false
is_prefix (p ∷ ps) (t ∷ ts) = codes_eq t p && is_prefix ps ts

abbrev pub max : ℕ → ℕ → ℕ
max a b = if ltb a b then b else a

-- the longest of a rule's prefixes that the path has; a prefix without parts counts 0
unfoldable pub path_score : PathFold → List String → List (List ℕ) → ℕ
path_score casefold [] target = 0
path_score casefold (prefix ∷ rest) target =
    let parts = path_parts casefold prefix in
    let best = path_score casefold rest target in
    if is_prefix parts target then max (length parts) best else best

abbrev pub unique_tokens : List (List ℕ) → List (List ℕ)
unique_tokens [] = []
unique_tokens (t ∷ ts) = let rest = unique_tokens ts in if mem_token t rest then rest else t ∷ rest

-- `len(query.intersection(terms))`
abbrev pub shared : List (List ℕ) → List (List ℕ) → ℕ
shared [] terms = 0
shared (t ∷ ts) terms = (if mem_token t terms then 1 else 0) + shared ts terms

abbrev pub tokens_of : AsciiFold → List String → List (List ℕ)
tokens_of fold [] = []
tokens_of fold (k ∷ ks) = tokenize fold k ++ tokens_of fold ks

unfoldable pub keyword_score : AsciiFold → List String → String → ℕ
keyword_score fold keywords prompt =
    shared (unique_tokens (tokenize fold prompt)) (tokens_of fold keywords)

-- the rules whose score is not zero, with it
abbrev pub scored : (DomainRule → ℕ) → List DomainRule → List (ℕ × String)
scored score [] = []
scored score (r ∷ rs) =
    let rest = scored score rs in
    let n = score r in if ltb 0 n then (n, r.domain_id) ∷ rest else rest

abbrev pub high : List (ℕ × String) → ℕ
high [] = 0
high (x ∷ xs) = max x.0 (high xs)

abbrev pub with_score : ℕ → List (ℕ × String) → List String
with_score n [] = []
with_score n (x ∷ xs) = let rest = with_score n xs in if x.0 == n then x.1 ∷ rest else rest

abbrev pub settle : String → String → List String → DomainSelection
settle method tie (w ∷ []) = record { domain_id = some w; method = method; diagnostic_code = none }
settle method tie _ = record { domain_id = none; method = method; diagnostic_code = some tie }

-- the only domain with the highest score, or a tie
unfoldable pub pick : String → String → List (ℕ × String) → DomainSelection
pick method tie scores = settle method tie (sort_by text_lt (with_score (high scores) scores))

abbrev pub no_match : DomainSelection
no_match = record { domain_id = none; method = "none"; diagnostic_code = some "domain_no_match" }

abbrev pub by_scores : String → String → List (ℕ × String) → DomainSelection → DomainSelection
by_scores method tie [] otherwise = otherwise
by_scores method tie (x ∷ xs) otherwise = pick method tie (x ∷ xs)

abbrev pub path_scores : PathFold → List DomainRule → Option String → List (ℕ × String)
path_scores casefold rules none = []
path_scores casefold rules (some path) =
    scored (λ r. path_score casefold r.safe_paths (path_parts casefold path)) rules

module _ (fold : AsciiFold) (casefold : PathFold) where
  unfoldable pub select_implicit : List DomainRule → Option String → String → DomainSelection
  unfolding pick path_score keyword_score
  select_implicit rules path prompt =
      by_scores "path" "domain_path_tie" (path_scores casefold rules path) (
        by_scores "keyword" "domain_keyword_tie"
          (scored (λ r. keyword_score fold r.keywords prompt) rules) no_match)

  -- `DomainRegistry.select`
  unfoldable pub select : List DomainRule → Option String → Option String → String → DomainSelection
  unfolding select_implicit
  select rules (some explicit) path prompt =
      if not (is_safe_id explicit) || not (mem explicit (ids rules))
      then record {
        domain_id = none;
        method = "explicit";
        diagnostic_code = some "domain_explicit_invalid";
      }
      else record { domain_id = some explicit; method = "explicit"; diagnostic_code = none }
  select rules none path prompt = select_implicit rules path prompt
