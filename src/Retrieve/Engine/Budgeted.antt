-- ===== src/Retrieve/Engine/Budgeted.antt =====
-- The budget and the counts of `retrieve` in retrieve/engine.py.
use mathlib.Core.List.{append-nil}
use Prim.Native.String.{len}
use text.Mathlib.TextPositions.{len-append}
use imprint.Base.{
  ℕ, suc, ◌+◌, ◌-◌, ◌≤◌, String, ◌≡◌, refl, ap, true, List, [], ◌∷◌, ◌++◌, arith, length,
  length-append, keep, mem, le→leb,
}
use imprint.Retrieve.Models.{core, general, domain, same_section, RetrievalRecord, RetrievalConfig}
use imprint.Retrieve.Tokenizer.{AsciiFold}
use imprint.Retrieve.Render.{render}
use imprint.Retrieve.Budget.{Selected, section_limits, section_order, fill, fill_sections}
use imprint.Retrieve.Budget.Bounds.{
  bytes, counted, section_limits-sum, IsGreedy, done, pick, skip, fill-IsGreedy, fill_sections-le,
}
use imprint.Retrieve.Rank.{
  Key, Keyed, key_of, bucket, rank_key, recency_bucket, parse_time, ranks_before,
}
use imprint.Time.{Stamp, parse_iso, epoch, end_of_time, day_us}
use imprint.Base.{
  all, none, some, Option, Option-cases, Bool-cases, Bool, false, inl, inr, ltb, leb, ◌&&◌, sort_by,
  mem, keep,
}
use imprint.Base.{◌⊎◌, inl, inr}
use imprint.Retrieve.Engine.{
  err, time_overflow, budget, with_keys, records, result_of, admitted, ok, known_modes, partitions,
  RetrievalResult, compile, joined, ids, mode_or, Request, candidates, by_section, selection,
  retrieve,
}

len-joined : (ss : List Selected) → len (joined ss) ≡ bytes ss
len-joined [] = refl
len-joined (s ∷ ss) = rw len-append (omega (arith, len-joined ss))

length-ids : (ss : List Selected) → length (ids ss) ≡ length ss
length-ids [] = refl
length-ids (s ∷ ss) = ap suc (length-ids ss)

length-sections :
    (rs : List RetrievalRecord)
    → length (keep (λ r. same_section core r.section) rs)
        + length (keep (λ r. same_section general r.section) rs)
        + length (keep (λ r. same_section domain r.section) rs)
      ≡ length rs
length-sections [] = refl
length-sections (r ∷ rs) = ground (arith, length-sections rs)

module _ (render' : RetrievalRecord → String) where
  IsGreedy-length :
      {left : ℕ} {rs : List RetrievalRecord} {ps : List Selected}
      → IsGreedy render' left rs ps
      → length ps ≤ length rs
  IsGreedy-length done = omega arith
  IsGreedy-length (pick r g) = omega (arith, IsGreedy-length g)
  IsGreedy-length (skip r h g) = omega (arith, IsGreedy-length g)

module _ (fold : AsciiFold) (source : String → List RetrievalRecord)
    (config : RetrievalConfig) where
  -- what the three turns of the section loop give, each with the bytes that it hands on
  pub record Turns (rs : List RetrievalRecord) (picked : List Selected) : Type 0 where
    pub cores : List Selected
    pub generals : List Selected
    pub domains : List Selected
    pub left_core : ℕ
    pub left_general : ℕ
    pub left_domain : ℕ
    pub in_order : picked ≡ cores ++ (generals ++ domains)
    pub core_bytes : bytes cores + left_core ≡ section_limits (budget config) core
    pub general_bytes :
        bytes generals + left_general ≡ section_limits (budget config) general + left_core
    pub domain_bytes :
        bytes domains + left_domain ≡ section_limits (budget config) domain + left_general
    pub core_greedy :
        IsGreedy
          (render config.output_format)
          left_core
          (by_section fold source config rs core)
          cores
    pub general_greedy :
        IsGreedy
          (render config.output_format)
          left_general
          (by_section fold source config rs general)
          generals
    pub domain_greedy :
        IsGreedy
          (render config.output_format)
          left_domain
          (by_section fold source config rs domain)
          domains

  -- The selection is that of the three sections in their order: each has its limit and the bytes
  -- that the sections before it left, spends or hands on every one of them, and is greedy within
  -- them.
  pub selection-Turns : (rs : List RetrievalRecord) → Turns rs (selection fold source config rs).0
  unfolding selection fill_sections
  selection-Turns rs =
      let draw = render config.output_format in
      let limit = section_limits (budget config) in
      let first = fill-IsGreedy draw (limit core + 0) (by_section fold source config rs core) in
      let (cores, used) = fill draw (limit core + 0) 0 (by_section fold source config rs core) in
      let left = limit core + 0 - used in
      let second =
        fill-IsGreedy draw (limit general + left) (by_section fold source config rs general) in
      let (generals, used') =
        fill draw (limit general + left) 0 (by_section fold source config rs general) in
      let left' = limit general + left - used' in
      let third =
        fill-IsGreedy draw (limit domain + left') (by_section fold source config rs domain) in
      let (domains, used'') =
        fill draw (limit domain + left') 0 (by_section fold source config rs domain) in
      record {
        cores = cores;
        generals = generals;
        domains = domains;
        left_core = left;
        left_general = left';
        left_domain = limit domain + left' - used'';
        in_order = simp append-nil;
        core_bytes = omega (arith, first.0, first.1);
        general_bytes = omega (arith, second.0, second.1);
        domain_bytes = omega (arith, third.0, third.1);
        core_greedy = first.2;
        general_greedy = second.2;
        domain_greedy = third.2;
      }

  selection-le :
      (rs : List RetrievalRecord)
      → len (joined (selection fold source config rs).0) ≤ (budget config)
  unfolding selection
  selection-le rs = omega (
    arith,
    len-joined (selection fold source config rs).0,
    section_limits-sum (budget config),
    (fill_sections-le (render config.output_format) (section_limits (budget config))
        (by_section fold source config rs) 0 section_order).1,
  )

  selection-counted :
      (rs : List RetrievalRecord)
      → counted (selection fold source config rs).1
        ≡ len (joined (selection fold source config rs).0)
  unfolding selection
  selection-counted rs = omega (
    arith,
    len-joined (selection fold source config rs).0,
    (fill_sections-le (render config.output_format) (section_limits (budget config))
        (by_section fold source config rs) 0 section_order).0,
  )

  selection-length :
      (rs : List RetrievalRecord) → length (ids (selection fold source config rs).0) ≤ length rs
  selection-length rs =
      let t = selection-Turns rs in
      let draw = render config.output_format in
      let picked = (selection fold source config rs).0 in
      let split : length picked ≡ length (t.cores ++ (t.generals ++ t.domains)) =
        ap length t.in_order in
      omega (
        arith,
        length-ids picked,
        split,
        length-append {0} t.cores (t.generals ++ t.domains),
        length-append {0} t.generals t.domains,
        length-sections rs,
        IsGreedy-length draw t.core_greedy,
        IsGreedy-length draw t.general_greedy,
        IsGreedy-length draw t.domain_greedy,
      )

  -- the time can be converted to UTC within the years 1 to 9999, or does not parse
  abbrev in_calendar : Option Stamp → Bool
  in_calendar none = true
  in_calendar (some t) = leb day_us t.instant && ltb t.instant (end_of_time + day_us)

  abbrev pub convertible : RetrievalRecord → Bool
  convertible r = in_calendar (parse_iso r.valid_from)

  rank_key-convertible :
      (query : String) (sel : Option String) (r : RetrievalRecord)
      → (convertible r ≡ true → (k : Key) × (rank_key fold r query sel ≡ some k))
        × (convertible r ≡ false → rank_key fold r query sel ≡ none)
  unfolding rank_key recency_bucket parse_time
  rank_key-convertible query sel r = elim (Option-cases (parse_iso r.valid_from)) [
    | inl e ↦ (
      (λ h. (
        key_of fold r query sel (bucket epoch),
        rw (rank_key, recency_bucket, parse_time, e) refl,
      )),
      (λ h. let clash : true ≡ false = rw e at h in cc clash),
    )
    | inr (t, e) ↦
        let fits = leb day_us t.instant && ltb t.instant (end_of_time + day_us) in
        (
          (λ h.
              let k : fits ≡ true = rw e at h in
              (
                key_of fold r query sel (bucket t),
                rw (rank_key, recency_bucket, parse_time, e, k) refl,
              )),
          (λ h.
              let k : fits ≡ false = rw e at h in
              rw (rank_key, recency_bucket, parse_time, e, k) refl),
        )
  ]

  with_keys-convertible :
      (query : String) (sel : Option String) (rs : List RetrievalRecord)
      → (all convertible rs ≡ true
          → (ks : List Keyed) × (with_keys (λ r. rank_key fold r query sel) rs ≡ some ks))
        × (all convertible rs ≡ false → with_keys (λ r. rank_key fold r query sel) rs ≡ none)
  unfolding with_keys
  with_keys-convertible query sel [] = ((λ h. ([], refl)), (λ h. cc h))
  with_keys-convertible query sel (r ∷ rs) =
      let more = with_keys-convertible query sel rs in
      let one = rank_key-convertible query sel r in
      let key = λ (x : RetrievalRecord). rank_key fold x query sel in
      elim (Bool-cases (convertible r)) [
        | inl e ↦
            let (k, is_key) = one.0 e in
            (
              (λ h.
                  let (ks, are_keys) = more.0 (rw e at h) in
                  ((k, r) ∷ ks, rw (with_keys, is_key, are_keys) refl)),
              (λ h. rw (with_keys, is_key, more.1 (rw e at h)) refl),
            )
        | inr e ↦ (
          (λ h. let clash : false ≡ true = rw e at h in cc clash),
          (λ h. rw (with_keys, one.1 e) refl),
        )
      ]

  -- Where the mode is known and the partitions are accepted: either the time of every record that
  -- passes the filter can be converted to UTC, and `retrieve` returns, its defensive check of the
  -- budget never fails, the payload and the section counts agree, and every candidate is selected or
  -- counted as omitted; or the time of one cannot, and `retrieve` raises `OverflowError`.
  pub retrieve-returns :
      (q : Request fold source config) (wanted : List String)
      → mem (mode_or q.authority_mode config.authority_mode) known_modes ≡ true
      → partitions q.ontology_partitions (mode_or q.authority_mode config.authority_mode)
        ≡ ok wanted
      → let mode = mode_or q.authority_mode config.authority_mode in
        let passing = keep (admitted fold source config q mode wanted) (source q.snapshot_id) in
        ((all convertible passing ≡ true)
          × (result : RetrievalResult) × (retrieve fold source config q ≡ ok result)
          × (len result.payload ≤ budget config)
          × (result.selected_bytes ≡ len result.payload)
          × (counted result.section_bytes ≡ result.selected_bytes)
          × (length result.selected_ids + result.omitted_count ≡ result.eligible_count))
        ⊎ ((all convertible passing ≡ false) × (retrieve fold source config q ≡ err time_overflow))
  unfolding retrieve compile candidates
  retrieve-returns q wanted known accepted =
      let mode = mode_or q.authority_mode config.authority_mode in
      let passing = keep (admitted fold source config q mode wanted) (source q.snapshot_id) in
      let keys = with_keys-convertible q.query q.selected_domain passing in
      elim (Bool-cases (all convertible passing)) [
        | inl h ↦
            let (ks, e) = keys.0 h in
            let ranked = records (sort_by ranks_before ks) in
            inl (
              h,
              result_of fold source config mode wanted ranked,
              rw (known, accepted, e, le→leb _ _ (selection-le ranked)) refl,
              selection-le ranked,
              refl,
              selection-counted ranked,
              omega (arith, selection-length ranked),
            )
        | inr h ↦ inr (h, rw (known, accepted, keys.1 h) refl)
      ]
