-- ===== src/Examples/Retrieve.antt =====
-- Retrieval over a small store: one judgment, one ratified self-model reading of a domain, and an
-- inferred candidate.
use Prim.Native.String.{len}
use mathlib.Core.List.{Perm}
use imprint.Base.{
  ◌+◌, ◌≤◌, String, ◌≡◌, refl, ◌≢◌, true, false, ◌&&◌, Option, none, some, List, [], ◌∷◌, ltb, leb,
  if◌then◌else◌, length, keep, All, pos, ◌-◌,
}
use imprint.Base.Sort.{sort_by}
use imprint.Retrieve.Eligible.Gates.{gates}
use imprint.Retrieve.Budget.{fill_sections, section_limits, fill}
use imprint.Retrieve.Models.{general, domain, RetrievalRecord, RetrievalConfig}
use imprint.Retrieve.Eligible.{eligible}
use imprint.Retrieve.Eligible.Policy.{
  CarriesAuthority, eligible-live, eligible-CarriesAuthority, eligible-domain,
}
use imprint.Retrieve.Tokenizer.{AsciiFold, lexical_score}
use imprint.Retrieve.Rank.{ranks_before}
use imprint.Retrieve.Render.{render, render_compact}
use imprint.Retrieve.Budget.Bounds.{counted, bytes, IsGreedy, fill-IsGreedy}
use imprint.Retrieve.Engine.{
  ok, partitions, absent, names, RetrievalResult, Request, candidates, retrieve, compile,
  validate_config, selection,
}
use imprint.Retrieve.Engine.Budgeted.{Turns, selection-Turns, retrieve-returns}
use imprint.Retrieve.Engine.Admitted.{Admitted, compile-Admitted}
use imprint.Retrieve.Engine.Requests.{partitions-accepted}
use imprint.Retrieve.Models.{ontology_partitions}
use imprint.Base.{distinct, mem, ◌≢◌}
use imprint.Retrieve.Engine.Requests.{partitions-accepted}
use imprint.Retrieve.Models.{ontology_partitions}
use imprint.Base.{distinct, mem, ◌≢◌}
use imprint.Retrieve.Engine.Ordered.{Ranked, candidates-Ranked}
use imprint.Retrieve.Engine.Budgeted.{convertible}
use imprint.Retrieve.Engine.{
  with_keys, admitted, result_of, err, time_overflow, budget_not_positive,
}
use imprint.Retrieve.Rank.{rank_key, recency_bucket, parse_time, key_lt}
use imprint.Time.{parse_iso}
use imprint.Base.{negsuc, ◌⊎◌, all}

abbrev judgment : RetrievalRecord
judgment = record {
  record_id = "urn:a";
  text = "Keep  it short";
  section = general;
  provenance_status = "captured";
  authority_tier = "captured_judgment";
  evidence_ids = "urn:e" ∷ [];
  case_ids = "urn:c" ∷ [];
  case_referents = "a draft" ∷ [];
  source_receipt_ids = [];
  domain_id = none;
  pinned = false;
  recurrence_count = pos 2;
  valid_from = "2026-07-16T08:00:00Z";
  current = true;
  rejected = false;
  tombstoned = false;
  valid_until = none;
  provenance_complete = true;
  imported_selected = false;
  ontology_partition = "judgment";
  ontology_type = "LegacyRecord";
  ontology_path = [];
  confidence = none;
  disclosure = "authority_unclassified";
}

abbrev reading : RetrievalRecord
reading = record judgment {
  record_id = "urn:b";
  section = domain;
  domain_id = some "design";
  provenance_status = "ratified";
  authority_tier = "ratified_knowledge";
  ontology_partition = "self_model";
  ontology_type = "SelfModelAssertion";
}

abbrev guess : RetrievalRecord
guess = record judgment {
  record_id = "urn:d";
  provenance_status = "inferred";
  authority_tier = "inferred_candidate";
}

-- ASCII characters fold to lower case, and no other character projects to ASCII.
abbrev ascii : AsciiFold
ascii c = if leb 65 c && leb c 90 then (c + 32) ∷ [] else if ltb c 128 then c ∷ [] else []

abbrev store : String → List RetrievalRecord
store snapshot = guess ∷ reading ∷ judgment ∷ []

abbrev config : RetrievalConfig
config = record {
  total_budget_bytes = pos 400;
  allow_higher_budget = false;
  tokenizer_version = "lexical-v1";
  authority_mode = "authoritative";
  output_format = "compact";
}

abbrev request : Request ascii store config
request = record {
  snapshot_id = "s";
  query = "short keep";
  selected_domain = some "design";
  ontology_partitions = absent;
  authority_mode = none;
}

eligible-judgment : eligible judgment none "authoritative" ≡ true
unfolding eligible gates
eligible-judgment = refl

eligible-reading : eligible reading (some "design") "authoritative" ≡ true
unfolding eligible gates
eligible-reading = refl

eligible-guess :
    (eligible guess none "authoritative" ≡ false) × (eligible guess none "analytical" ≡ true)
unfolding eligible gates
eligible-guess = (refl, refl)

scored : lexical_score ascii "Keep keep long-form" "keep LONG-form it" ≡ 3
unfolding lexical_score
scored = refl

rendered : render_compact judgment ≡ "- Judgment (captured): Keep it short | Case: a draft\n"
unfolding render_compact
rendered = refl

eligible-live_example :
    (judgment.current ≡ true)
    × (judgment.rejected ≡ false)
    × (judgment.tombstoned ≡ false)
    × (judgment.valid_until ≡ none)
    × (judgment.provenance_complete ≡ true)
    × (judgment.evidence_ids ≢ [])
eligible-live_example = eligible-live judgment none "authoritative" eligible-judgment

eligible-CarriesAuthority_example : CarriesAuthority judgment
eligible-CarriesAuthority_example = eligible-CarriesAuthority judgment none eligible-judgment

eligible-domain_example :
    (reading.section ≡ domain) × (◌≡◌ {A = Option String} (some "design") (some "design"))
eligible-domain_example =
    eligible-domain reading (some "design") "authoritative" "design" eligible-reading refl

-- A budget that is not positive is refused, one below zero too.
refused :
    (validate_config (record config { total_budget_bytes = negsuc 0 }) ≡ err budget_not_positive)
    × (validate_config config ≡ ok tt)
unfolding validate_config
refused = (refl, refl)

partitions_two :
    partitions (names ("judgment" ∷ "self_model" ∷ "judgment" ∷ [])) "analytical"
    ≡ ok ("judgment" ∷ "self_model" ∷ [])
unfolding partitions
partitions_two = refl

abbrev two : List String
two = "judgment" ∷ "self_model" ∷ []

abbrev three : List String
three = "judgment" ∷ "self_model" ∷ "judgment" ∷ []

partitions-accepted_example :
    (distinct two ≡ true)
    × (all (λ p. mem p ontology_partitions) two ≡ true)
    × ((p : String) → mem p two ≡ mem p three)
    × ((◌≢◌ {A = String} "analytical" "analytical") ⊎ (two ≢ []))
partitions-accepted_example = partitions-accepted three "analytical" two partitions_two

accepted_absent : partitions absent "authoritative" ≡ ok []
unfolding partitions
accepted_absent = refl

abbrev passing : List RetrievalRecord
passing = keep (admitted ascii store config request "authoritative" []) (store "s")

retrieve-returns_example :
    ((all (convertible ascii store config) passing ≡ true)
      × (result : RetrievalResult) × (retrieve ascii store config request ≡ ok result)
      × (len result.payload ≤ 400)
      × (result.selected_bytes ≡ len result.payload)
      × (counted result.section_bytes ≡ result.selected_bytes)
      × (length result.selected_ids + result.omitted_count ≡ result.eligible_count))
    ⊎ ((all (convertible ascii store config) passing ≡ false)
        × (retrieve ascii store config request ≡ err time_overflow))
retrieve-returns_example = retrieve-returns ascii store config request [] refl accepted_absent

-- A time that has no equivalent in UTC makes every retrieval of its record raise.
abbrev early : String → List RetrievalRecord
early snapshot = record judgment { valid_from = "0001-01-01T00:00:00+01:00" } ∷ []

abbrev early_request : Request ascii early config
early_request = record {
  snapshot_id = "s";
  query = "";
  selected_domain = none;
  ontology_partitions = absent;
  authority_mode = none;
}

raises_early : candidates ascii early config early_request "authoritative" [] ≡ err time_overflow
unfolding candidates gates eligible with_keys rank_key recency_bucket parse_time parse_iso
raises_early = refl

selection-Turns_example :
    Turns ascii store config
      (judgment ∷ reading ∷ [])
      (selection ascii store config (judgment ∷ reading ∷ [])).0
selection-Turns_example = selection-Turns ascii store config (judgment ∷ reading ∷ [])

abbrev both : List RetrievalRecord
both = reading ∷ judgment ∷ []

ranked : candidates ascii store config request "authoritative" [] ≡ ok both
unfolding candidates gates eligible with_keys rank_key recency_bucket parse_time parse_iso
    ranks_before key_lt lexical_score sort_by
ranked = refl

candidates-Ranked_example :
    Perm both (keep (admitted ascii store config request "authoritative" []) (store "s"))
    × Ranked ascii "short keep" (some "design") both
candidates-Ranked_example =
    candidates-Ranked ascii store config request "authoritative" [] both ranked

abbrev compiled : RetrievalResult
compiled = result_of ascii store config "authoritative" [] both

is_compiled : compile ascii store config request "authoritative" [] ≡ ok compiled
unfolding compile gates eligible rank_key recency_bucket parse_time parse_iso ranks_before
    lexical_score sort_by fill_sections section_limits render
is_compiled = refl

compile-Admitted_example :
    All
      (λ id.
        (r : RetrievalRecord) × Admitted ascii store config request "authoritative" [] r
        × (r.record_id ≡ id))
      compiled.selected_ids
compile-Admitted_example =
    compile-Admitted ascii store config request "authoritative" [] compiled is_compiled

selected : compiled.selected_ids ≡ "urn:a" ∷ "urn:b" ∷ []
unfolding selection fill_sections section_limits render
selected = refl

abbrev compact : RetrievalRecord → String
compact r = render "compact" r

fill-IsGreedy_example :
    let (picked, total) = fill compact 100 0 (judgment ∷ reading ∷ []) in
    (total ≡ bytes picked)
    × (total ≤ 100)
    × IsGreedy compact (100 - total) (judgment ∷ reading ∷ []) picked
fill-IsGreedy_example = fill-IsGreedy compact 100 (judgment ∷ reading ∷ [])
