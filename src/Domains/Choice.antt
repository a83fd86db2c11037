-- ===== src/Domains/Choice.antt =====
-- `DomainRegistry.select` of domains/selector.py: what a selected domain is.
use mathlib.Core.Path.{subst}
use mathlib.Core.List.{Memᴰ}
use imprint.Base.{
  ℕ, suc, ◌≤◌, ◌<◌, String, ◌≡◌, refl, sym, ap, ◌∙◌, ◌⊎◌, inl, inr, true, Option, none, some, List,
  [], ◌∷◌, arith, ltb, ◌==◌, Bool-cases, length, All, mem, text_lt,
}
use imprint.Base.{str_eq_refl, sort_by, length-sort_by, insert_by, All-map}
use imprint.Retrieve.Tokenizer.{AsciiFold}
use imprint.Domains.Rule.{DomainRule, PathFold, path_parts}
use imprint.Domains.{
  no_match, DomainSelection, ids, path_score, keyword_score, scored, high, with_score, settle, pick,
  by_scores, path_scores, select_implicit, select,
}

names : List (ℕ × String) → List String
names [] = []
names (x ∷ xs) = x.1 ∷ names xs

-- `d` stands in the list with this score, and with every other name the score is lower
abbrev pub Beats : ℕ → String → List (ℕ × String) → Type 0
Beats n d xs = All (λ x. (x ≡ (n, d)) ⊎ (x.0 < n)) xs

abbrev pub Leads : String → List (ℕ × String) → Type 0
Leads d xs = (n : ℕ) × (Memᴰ (n, d) xs) × Beats n d xs

high-le : (xs : List (ℕ × String)) (n : ℕ) → high xs ≤ n → All (λ x. x.0 ≤ n) xs
high-le [] n h = tt
high-le (x ∷ xs) n h = (ground arith, high-le xs n (ground arith))

none_with_score :
    (n : ℕ) (d : String) (xs : List (ℕ × String))
    → All (λ x. x.0 ≤ n) xs
    → with_score n xs ≡ []
    → Beats n d xs
none_with_score n d [] h k = tt
none_with_score n d (x ∷ xs) h k = elim (Bool-cases (x.0 == n)) [
  | inl e ↦ let clash : x.1 ∷ with_score n xs ≡ [] = sym (rw e refl) ∙ k in cc clash
  | inr e ↦
      let rest : with_score n xs ≡ [] = sym (rw e refl) ∙ k in
      (inr (ground (arith, h.0, e)), none_with_score n d xs h.1 rest)
]

one_with_score :
    (n : ℕ) (d : String) (xs : List (ℕ × String))
    → All (λ x. x.0 ≤ n) xs
    → with_score n xs ≡ d ∷ []
    → Memᴰ (n, d) xs × Beats n d xs
one_with_score n d [] h k = cc
one_with_score n d (x ∷ xs) h k = elim (Bool-cases (x.0 == n)) [
  | inl e ↦
      let whole : x.1 ∷ with_score n xs ≡ d ∷ [] = sym (rw e refl) ∙ k in
      let first : x.1 ≡ d = cc whole in
      let rest : with_score n xs ≡ [] = cc whole in
      let score : x.0 ≡ n = ground (arith, e) in
      let same : x ≡ (n, d) = rw (score, first) refl in
      (Memᴰ.head (sym same), (inl same, none_with_score n d xs h.1 rest))
  | inr e ↦
      let rest : with_score n xs ≡ d ∷ [] = sym (rw e refl) ∙ k in
      let (there, others) = one_with_score n d xs h.1 rest in
      (Memᴰ.tail there, (inr (ground (arith, h.0, e)), others))
]

settle-some :
    (method tie : String) (ws : List String) (d : String)
    → (settle method tie ws).domain_id ≡ some d
    → ws ≡ d ∷ []
settle-some method tie [] d h = cc
settle-some method tie (w ∷ []) d h = cc
settle-some method tie (w ∷ v ∷ ws) d h = cc

sort-one : (xs : List String) (d : String) → sort_by text_lt xs ≡ d ∷ [] → xs ≡ d ∷ []
unfolding sort_by insert_by
sort-one [] d h = cc
sort-one (x ∷ []) d h = h
sort-one (x ∷ y ∷ ys) d h =
    let n : length (sort_by text_lt (x ∷ y ∷ ys)) ≡ 1 = ap length h in
    let m : suc (suc (length ys)) ≡ 1 = sym (length-sort_by text_lt (x ∷ y ∷ ys)) ∙ n in
    ground (arith, m)

-- What is picked has a higher score than every other candidate: a tie picks nothing.
pub pick-Leads :
    (method tie : String) (xs : List (ℕ × String)) (d : String)
    → (pick method tie xs).domain_id ≡ some d
    → Leads d xs
unfolding pick
pick-Leads method tie xs d h =
    let one =
      sort-one (with_score (high xs) xs) d
        (settle-some method tie (sort_by text_lt (with_score (high xs) xs)) d h) in
    let leader = one_with_score (high xs) d xs (high-le xs (high xs) (ground arith)) one in
    (high xs, leader.0, leader.1)

later-mem : (s x : String) (xs : List String) → mem s xs ≡ true → mem s (x ∷ xs) ≡ true
later-mem s x xs h = ground (arith, h)

first-mem : (x : String) (xs : List String) → mem x (x ∷ xs) ≡ true
first-mem x xs = ground (arith, str_eq_refl x)

scored-Registered :
    (score : DomainRule → ℕ) (rules : List DomainRule)
    → All (λ x. mem x.1 (ids rules) ≡ true) (scored score rules)
scored-Registered score [] = tt
scored-Registered score (r ∷ rs) =
    let rest : All (λ x. mem x.1 (ids (r ∷ rs)) ≡ true) (scored score rs) =
      All-map (λ x h. later-mem x.1 r.domain_id (ids rs) h) (scored score rs)
        (scored-Registered score rs) in
    elim (Bool-cases (ltb 0 (score r))) [
      | inl e ↦ rw e (first-mem r.domain_id (ids rs), rest)
      | inr e ↦ rw e rest
    ]

with_score-All :
    (P : String → Type 0) (n : ℕ) (xs : List (ℕ × String))
    → All (λ x. P x.1) xs
    → All P (with_score n xs)
with_score-All P n [] h = tt
with_score-All P n (x ∷ xs) h = elim (Bool-cases (x.0 == n)) [
  | inl e ↦ rw e (h.0, with_score-All P n xs h.1)
  | inr e ↦ rw e (with_score-All P n xs h.1)
]

pick-Registered :
    (method tie : String) (rules : List DomainRule) (xs : List (ℕ × String)) (d : String)
    → All (λ x. mem x.1 (ids rules) ≡ true) xs
    → (pick method tie xs).domain_id ≡ some d
    → mem d (ids rules) ≡ true
unfolding pick
pick-Registered method tie rules xs d all_in h =
    let one =
      sort-one (with_score (high xs) xs) d
        (settle-some method tie (sort_by text_lt (with_score (high xs) xs)) d h) in
    let P : String → Type 0 = λ s. mem s (ids rules) ≡ true in
    (subst (λ ws. All P ws) one (with_score-All P (high xs) xs all_in)).0

by_scores-cases :
    (method tie : String) (xs : List (ℕ × String)) (o : DomainSelection)
    → (by_scores method tie xs o ≡ o) ⊎ (by_scores method tie xs o ≡ pick method tie xs)
by_scores-cases method tie [] o = inl refl
by_scores-cases method tie (x ∷ xs) o = inr refl

module _ (fold : AsciiFold) (casefold : PathFold) where
  path-Registered :
      (rules : List DomainRule) (path : Option String)
      → All (λ x. mem x.1 (ids rules) ≡ true) (path_scores casefold rules path)
  path-Registered rules none = tt
  path-Registered rules (some path) =
      scored-Registered (λ r. path_score casefold r.safe_paths (path_parts casefold path)) rules

  implicit-Registered :
      (rules : List DomainRule) (path : Option String) (prompt d : String)
      → (select_implicit fold casefold rules path prompt).domain_id ≡ some d
      → mem d (ids rules) ≡ true
  unfolding select_implicit
  implicit-Registered rules path prompt d h =
      let words = scored (λ r. keyword_score fold r.keywords prompt) rules in
      let otherwise = by_scores "keyword" "domain_keyword_tie" words no_match in
      elim (by_scores-cases "path" "domain_path_tie" (path_scores casefold rules path) otherwise) [
        | inl e ↦ elim (by_scores-cases "keyword" "domain_keyword_tie" words no_match) [
          | inl e2 ↦
              let clash : none ≡ some d =
                ap (λ (x : DomainSelection). x.domain_id) (sym (e ∙ e2)) ∙ h in
              cc clash
          | inr e2 ↦
              pick-Registered "keyword" "domain_keyword_tie" rules words d
                (scored-Registered (λ r. keyword_score fold r.keywords prompt) rules)
                (ap (λ (x : DomainSelection). x.domain_id) (sym (e ∙ e2)) ∙ h)
        ]
        | inr e ↦
            pick-Registered "path" "domain_path_tie" rules (path_scores casefold rules path) d
              (path-Registered rules path) (ap (λ (x : DomainSelection). x.domain_id) (sym e) ∙ h)
      ]

  -- A domain that is selected is registered, whether it is named, found by its paths, or found by its
  -- keywords; and where a domain is named, no other one is selected.
  pub select-Registered :
      (rules : List DomainRule) (explicit path : Option String) (prompt d : String)
      → (select fold casefold rules explicit path prompt).domain_id ≡ some d
      → (mem d (ids rules) ≡ true) × ((e : String) → explicit ≡ some e → d ≡ e)
  unfolding select
  select-Registered rules none path prompt d h =
      (implicit-Registered rules path prompt d h, λ e k. cc k)
  select-Registered rules (some e) path prompt d h = ground arith
