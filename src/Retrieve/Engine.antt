-- ===== src/Retrieve/Engine.antt =====
-- `RetrievalEngine` of retrieve/engine.py. The source of candidates and the tables of Unicode are
-- parameters.
pub mod Budgeted
pub mod Admitted
pub mod Ordered
pub mod Requests
use Prim.Native.String.{len, ◌++◌ as str_append}
use imprint.Base.{
  ℕ, ◌-◌, ◌*◌, String, Bool, true, false, not, ◌&&◌, ◌||◌, Option, none, some, List, [], ◌∷◌, ◌++◌,
  map, ltb, leb, str_eq, if◌then◌else◌, length, keep, all, mem, sort_by,
}
use imprint.Retrieve.Models.{
  Section, same_section, ontology_partitions, RetrievalRecord, RetrievalConfig,
}
use imprint.Retrieve.Eligible.{eligible}
use imprint.Retrieve.Eligible.Gates.{is_empty}
use imprint.Retrieve.Tokenizer.{AsciiFold, tokenizer_version}
use imprint.Retrieve.Rank.{Key, Keyed, rank_key, ranks_before}
use imprint.Base.{ℤ, pos, ltbℤ, pos_part}
use imprint.Retrieve.Render.{render}
use imprint.Retrieve.Budget.{Selected, section_limits, section_order, fill_sections}

-- the errors that the engine raises
pub data Refusal : Type 0 where
  budget_not_positive higher_budget_needs_opt_in budget_over_hard_bound : Refusal
  unsupported_tokenizer unsupported_mode unsupported_format : Refusal
  partitions_required partitions_not_a_sequence unknown_partitions : Refusal
  budget_violated time_overflow : Refusal

pub data Result {ℓ} (A : Type ℓ) : Type ℓ where
  ok : A → Result A
  err : Refusal → Result A

infixl 5 ◌>>=◌
abbrev pub ◌>>=◌ {ℓ κ} : {A : Type ℓ} {B : Type κ} → Result A → (A → Result B) → Result B
err refusal >>= next = err refusal
ok value >>= next = next value

infixl 5 ◌>>◌
abbrev pub ◌>>◌ {ℓ} : {B : Type ℓ} → Result (Unit {0}) → Result B → Result B
check >> next = check >>= (λ u. next)

abbrev pub guard : Bool → Refusal → Result (Unit {0})
guard true e = ok tt
guard false e = err e

abbrev pub default_budget : ℕ
default_budget = 32 * 1024

abbrev pub max_explicit_budget : ℕ
max_explicit_budget = 128 * 1024

abbrev pub known_modes : List String
known_modes = "authoritative" ∷ "analytical" ∷ []

unfoldable pub validate_config : RetrievalConfig → Result (Unit {0})
validate_config c = do
  guard (ltbℤ (pos 0) c.total_budget_bytes) budget_not_positive
  guard (not (ltbℤ (pos default_budget) c.total_budget_bytes) || c.allow_higher_budget)
      higher_budget_needs_opt_in
  guard (not (ltbℤ (pos max_explicit_budget) c.total_budget_bytes)) budget_over_hard_bound
  guard (str_eq c.tokenizer_version tokenizer_version) unsupported_tokenizer
  guard (mem c.authority_mode known_modes) unsupported_mode
  guard (mem c.output_format ("compact" ∷ "audit" ∷ [])) unsupported_format

-- `ontology_partitions` as a caller may give it: nothing, one text, or a sequence of names
pub data Requested : Type 0 where
  absent : Requested
  text : String → Requested
  names : List String → Requested

-- `tuple(dict.fromkeys(names))`: each name once, where it first stands
unique_from : List String → List String → List String
unique_from seen [] = []
unique_from seen (n ∷ ns) =
    let rest = unique_from (n ∷ seen) ns in if mem n seen then rest else n ∷ rest

unfoldable pub unique : List String → List String
unfolding unique_from
unique ns = unique_from [] ns

unfoldable pub partitions : Requested → String → Result (List String)
unfolding unique
partitions absent mode = do guard (not (str_eq mode "analytical")) partitions_required; ok []
partitions (text t) mode = err partitions_not_a_sequence
partitions (names ns) mode = do
  guard (not (str_eq mode "analytical" && is_empty (unique ns))) partitions_required
  guard (all (λ p. mem p ontology_partitions) (unique ns)) unknown_partitions
  ok (unique ns)

pub record RetrievalResult : Type 0 where
  pub payload : String
  pub selected_ids : List String
  pub eligible_count : ℕ
  pub omitted_count : ℕ
  pub selected_bytes : ℕ
  pub budget_bytes : ℕ
  pub section_bytes : List (Section × ℕ)
  pub tokenizer_version : String
  pub authority_mode : String
  pub requested_partitions : List String
  pub selected_by_partition : List (String × List String)

-- `b"".join`
abbrev pub joined : List Selected → String
joined [] = ""
joined (s ∷ ss) = str_append s.rendered (joined ss)

abbrev pub ids : List Selected → List String
ids = map (λ s. s.record_id)

-- `selected_by_partition[partition] += (record_id,)`, the entry made at its first use
abbrev add_to : String → String → List (String × List String) → List (String × List String)
add_to p id [] = (p, id ∷ []) ∷ []
add_to p id ((q, seen) ∷ rest) =
    let later = add_to p id rest in
    if str_eq p q then (q, seen ++ id ∷ []) ∷ rest else (q, seen) ∷ later

unfoldable pub by_partition :
    List String → List RetrievalRecord → List (String × List String) → List (String × List String)
by_partition chosen [] table = table
by_partition chosen (r ∷ rs) table =
    by_partition chosen rs
      (if mem r.record_id chosen then add_to r.ontology_partition r.record_id table else table)

-- `authority_mode or self.config.authority_mode`
abbrev pub mode_or : Option String → String → String
mode_or none configured = configured
mode_or (some m) configured = if str_eq m "" then configured else m

-- the budget of an engine, whose constructor has refused one that is not positive
abbrev pub budget : RetrievalConfig → ℕ
budget c = pos_part c.total_budget_bytes

-- the keys of the sort, or `none` where one of them raises
unfoldable pub with_keys :
    (RetrievalRecord → Option Key) → List RetrievalRecord → Option (List Keyed)
with_keys key [] = some []
with_keys key (r ∷ rs) =
    let rest = with_keys key rs in
    elim (key r) [ none ↦ none | some k ↦ elim rest [ none ↦ none | some ks ↦ some ((k, r) ∷ ks) ] ]

abbrev pub records : List Keyed → List RetrievalRecord
records = map (λ k. k.1)

abbrev pub sorted : Option (List Keyed) → Result (List RetrievalRecord)
sorted none = err time_overflow
sorted (some ks) = ok (records (sort_by ranks_before ks))

module _ (fold : AsciiFold) (source : String → List RetrievalRecord)
    (config : RetrievalConfig) where
  pub record Request : Type 0 where
    pub snapshot_id : String
    pub query : String
    pub selected_domain : Option String
    pub ontology_partitions : Requested
    pub authority_mode : Option String

  -- the filter of the source, before the sort
  abbrev pub admitted : Request → String → List String → RetrievalRecord → Bool
  admitted q mode wanted r =
      eligible r q.selected_domain mode && (is_empty wanted || mem r.ontology_partition wanted)

  -- eligible, in a requested partition, and in the order of their ranks
  unfoldable pub candidates : Request → String → List String → Result (List RetrievalRecord)
  unfolding with_keys
  candidates q mode wanted = sorted (
      with_keys (λ r. rank_key fold r q.query q.selected_domain)
        (keep (admitted q mode wanted) (source q.snapshot_id)))

  abbrev pub by_section : List RetrievalRecord → Section → List RetrievalRecord
  by_section rs s = keep (λ r. same_section s r.section) rs

  unfoldable pub selection : List RetrievalRecord → List Selected × List (Section × ℕ)
  selection rs =
      fill_sections (render config.output_format) (section_limits (budget config)) (by_section rs) 0
        section_order

  -- the result for candidates in the order of their ranks
  abbrev pub result_of : String → List String → List RetrievalRecord → RetrievalResult
  result_of mode wanted ranked =
      let (selected, section_bytes) = selection ranked in
      let payload = joined selected in
      record {
        payload = payload;
        selected_ids = ids selected;
        eligible_count = length ranked;
        omitted_count = length ranked - length (ids selected);
        selected_bytes = len payload;
        budget_bytes = budget config;
        section_bytes = section_bytes;
        tokenizer_version = config.tokenizer_version;
        authority_mode = mode;
        requested_partitions = wanted;
        selected_by_partition = by_partition (ids selected) ranked [];
      }

  -- what a request comes to whose mode and partitions are accepted
  unfoldable pub compile : Request → String → List String → Result RetrievalResult
  unfolding candidates selection by_partition
  compile q mode wanted = do
    ranked ← candidates q mode wanted
    let result = result_of mode wanted ranked
    guard (leb (len result.payload) (budget config)) budget_violated
    ok result

  unfoldable pub retrieve : Request → Result RetrievalResult
  unfolding compile
  retrieve q = do
    let mode = mode_or q.authority_mode config.authority_mode
    guard (mem mode known_modes) unsupported_mode
    wanted ← partitions q.ontology_partitions mode
    compile q mode wanted
