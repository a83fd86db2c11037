-- ===== src/Examples/Domains.antt =====
-- A registry of two domains.
use imprint.Base.{
  ℕ, ◌+◌, String, ◌≡◌, refl, ap, true, false, ◌&&◌, Option, none, some, List, [], ◌∷◌, ltb, leb,
  if◌then◌else◌, mem, text_lt,
}
use imprint.Base.{sort_by}
use imprint.Retrieve.Tokenizer.{tokenize}
use imprint.Domains.Rule.{DomainRule, path_parts}
use imprint.Domains.{DomainSelection, ids, pick, select}
use imprint.Domains.Choice.{select-Registered}

abbrev lower : ℕ → List ℕ
lower c = if leb 65 c && leb c 90 then (c + 32) ∷ [] else if ltb c 128 then c ∷ [] else []

abbrev rule : String → List String → List String → DomainRule
rule id paths keywords = record {
  domain_id = id;
  public_label = id;
  safe_paths = paths;
  keywords = keywords;
  frozen = false;
}

abbrev rules : List DomainRule
rules =
    rule "design" ("/work" ∷ []) ("layout" ∷ "colour" ∷ [])
    ∷ rule "tax" ("/work/tax/" ∷ []) ("invoice" ∷ [])
    ∷ []

longest_path :
    select lower lower rules none (some "/Work/tax/2026") "layout"
    ≡ record { domain_id = some "tax"; method = "path"; diagnostic_code = none }
unfolding select path_parts sort_by text_lt
longest_path = refl

by_keyword :
    select lower lower rules none none "the layout"
    ≡ record { domain_id = some "design"; method = "keyword"; diagnostic_code = none }
unfolding select tokenize sort_by text_lt
by_keyword = refl

select-Registered_example :
    (mem "tax" (ids rules) ≡ true)
    × ((e : String) → ◌≡◌ {A = Option String} none (some e) → "tax" ≡ e)
select-Registered_example =
    select-Registered lower lower rules none (some "/Work/tax/2026") "layout" "tax"
      (ap (λ (s : DomainSelection). s.domain_id) longest_path)

picked : (pick "path" "tie" ((1, "design") ∷ (2, "tax") ∷ [])).domain_id ≡ some "tax"
unfolding pick sort_by
picked = refl

tied : (pick "path" "tie" ((2, "design") ∷ (2, "tax") ∷ [])).domain_id ≡ none
unfolding pick sort_by text_lt
tied = refl
