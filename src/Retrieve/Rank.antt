-- ===== src/Retrieve/Rank.antt =====
-- `_parse_time`, `_recency_bucket` and `_rank_key` of retrieve/engine.py, and the order of the keys.
pub mod Order
pub mod Follows
use imprint.Base.{
  ℕ, zero, suc, ◌+◌, ◌-◌, ◌*◌, ◌/◌, ◌%◌, ◌≤◌, ◌<◌, String, ◌≡◌, refl, sym, ap, ◌∙◌, ◌≢◌, ◌↔◌, ◌⊎◌,
  inl, inr, Bool, true, false, not, ◌&&◌, ◌||◌, Option, none, some, List, [], ◌∷◌, ◌++◌, map,
  reverse, arith, ltb, leb, ◌==◌, str_eq, str_eq_iff, if◌then◌else◌, Bool-cases, Option-cases,
  tests, length, length-append, keep, all, any, All, mem, distinct, ℤ, pos, negsuc, pos_part,
  neg_part, sub_ℕ, negate_ℕ, negate, ltbℤ, eqbℤ, codes, codes_eq, has_text, is_digit, is_lower,
  text_lt,
}
use imprint.Time.{end_of_time, Stamp, epoch, parse_iso, day_us}
use imprint.Retrieve.Models.{RetrievalRecord}
use imprint.Retrieve.Eligible.Gates.{is_none, same_domain}
use imprint.Retrieve.Tokenizer.{AsciiFold, lexical_score}

-- `astimezone` raises `OverflowError` outside the years 1 to 9999, which is `none`
abbrev to_utc : Stamp → Option Stamp
to_utc t = if leb day_us t.instant && ltb t.instant (end_of_time + day_us) then some t else none

abbrev or_epoch : Option Stamp → Option Stamp
or_epoch none = some epoch
or_epoch (some t) = to_utc t

-- a time without an offset is read as UTC, and one that does not parse as 1970-01-01; `none` where it
-- raises `OverflowError`, which is not caught
unfoldable pub parse_time : String → Option Stamp
unfolding parse_iso
parse_time value = or_epoch (parse_iso value)

abbrev pub bucket : Stamp → ℤ
bucket t = sub_ℕ (t.instant / day_us) (epoch.instant / day_us)

-- `int(timestamp // 86400)`, floored also before 1970
unfoldable pub recency_bucket : String → Option ℤ
unfolding parse_time
recency_bucket value = elim (parse_time value) [ none ↦ none | some t ↦ some (bucket t) ]

abbrev pub direct_authority : String → ℕ
direct_authority status =
    if str_eq status "captured" || str_eq status "ratified"
    then 0
    else if str_eq status "extracted"
    then 1
    else 9

abbrev pub tier_order : String → ℕ
tier_order tier =
    if str_eq tier "captured_judgment" || str_eq tier "ratified_knowledge"
    then 0
    else if str_eq tier "imported_floor"
    then 2
    else 9

abbrev pub int : Bool → ℕ
int true = 1
int false = 0

-- the tuple of the source: its numbers in their order, then the record's id
pub record Key : Type 0 where
  pub numbers : List ℤ
  pub id : String

-- tuples are compared at the first place where they differ
abbrev pub numbers_lt : List ℤ → List ℤ → Bool
numbers_lt [] [] = false
numbers_lt [] (b ∷ bs) = true
numbers_lt (a ∷ as') [] = false
numbers_lt (a ∷ as') (b ∷ bs) = ltbℤ a b || (eqbℤ a b && numbers_lt as' bs)

abbrev pub numbers_eq : List ℤ → List ℤ → Bool
numbers_eq [] [] = true
numbers_eq (a ∷ as') (b ∷ bs) = eqbℤ a b && numbers_eq as' bs
numbers_eq _ _ = false

unfoldable pub key_lt : Key → Key → Bool
unfolding text_lt
key_lt a b = numbers_lt a.numbers b.numbers || (numbers_eq a.numbers b.numbers && text_lt a.id b.id)

-- `exact_domain`
abbrev pub exact_domain : RetrievalRecord → Option String → Bool
exact_domain r selected_domain =
    not (is_none selected_domain) && same_domain r.domain_id selected_domain

module _ (fold : AsciiFold) where
  -- the key, given the recency bucket
  abbrev pub key_of : RetrievalRecord → String → Option String → ℤ → Key
  key_of r query selected_domain recency = record {
    numbers =
        negate_ℕ (int r.pinned)
        ∷ negate_ℕ (int (exact_domain r selected_domain))
        ∷ negate_ℕ (lexical_score fold query r.text)
        ∷ pos (direct_authority r.provenance_status)
        ∷ pos (tier_order r.authority_tier)
        ∷ negate_ℕ (pos_part r.recurrence_count)
        ∷ negate recency
        ∷ [];
    id = r.record_id;
  }

  -- `none` where the time raises
  unfoldable pub rank_key : RetrievalRecord → String → Option String → Option Key
  unfolding recency_bucket lexical_score
  rank_key r query selected_domain = elim (recency_bucket r.valid_from) [
    | none ↦ none
    | some recency ↦ some (key_of r query selected_domain recency)
  ]

abbrev pub Keyed : Type 0
Keyed = Key × RetrievalRecord

unfoldable pub ranks_before : Keyed → Keyed → Bool
unfolding key_lt
ranks_before a b = key_lt a.0 b.0
