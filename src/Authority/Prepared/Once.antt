-- ===== src/Authority/Prepared/Once.antt =====
-- `mark_prepared_executed` of authority/ledger.py, among the other operations on the prepared
-- mutations.
use imprint.Base.{
  ℕ, String, ◌≡◌, refl, sym, ◌∙◌, ◌⊎◌, inl, inr, true, false, List, [], ◌∷◌, arith, ◌==◌, str_eq,
  str_eq_iff, Bool-cases,
}
use imprint.Authority.Error.{Refusal, ok, err, demand->>-ok, >>=-eq-ok}
use imprint.Authority.Request.{ChallengeRequest, validate_request, nonempty}
use imprint.Authority.Prepared.{
  is_pending, Prepared, Codec, find_prepared, update_pending, pending_rows, expire, execute, absent,
  new_prepared, prepare_mutation, load_prepared_mutation, mark_prepared_executed,
}

-- no pending row with this operation is left, and its place in the table is taken
pub record Settled (id : String) (rows : List Prepared) : Type 0 where
  pub none_pending : pending_rows id rows ≡ 0
  pub taken : absent (find_prepared id rows) ≡ false

pending_rows-update :
    (f : Prepared → Prepared) (id : String) (rows : List Prepared)
    → ((r : Prepared) → is_pending (f r).status ≡ false)
    → pending_rows id (update_pending f id rows) ≡ 0
pending_rows-update f id [] h = refl
pending_rows-update f id (r ∷ rs) h = ground (arith, pending_rows-update f id rs h, h r)

pending_rows-other :
    (f : Prepared → Prepared) (id other : String) (rows : List Prepared)
    → ((r : Prepared) → is_pending (f r).status ≡ false)
    → pending_rows id rows ≡ 0
    → pending_rows id (update_pending f other rows) ≡ 0
pending_rows-other f id other [] h k = refl
pending_rows-other f id other (r ∷ rs) h k = ground (arith, pending_rows-other f id other rs h, h r)

absent-update :
    (f : Prepared → Prepared) (id other : String) (rows : List Prepared)
    → ((r : Prepared) → (f r).operation_id ≡ r.operation_id)
    → absent (find_prepared id (update_pending f other rows)) ≡ absent (find_prepared id rows)
absent-update f id other [] h = refl
absent-update f id other (r ∷ rs) h = ground (arith, absent-update f id other rs h, h r)

pending_rows-taken :
    (id : String) (rows : List Prepared)
    → (pending_rows id rows == 1) ≡ true
    → absent (find_prepared id rows) ≡ false
pending_rows-taken id [] h = cc
pending_rows-taken id (r ∷ rs) h = ground (arith, pending_rows-taken id rs)

module _ (rows : List Prepared) (id provenance : String) (now : ℕ) {rows' : List Prepared}
    (done : mark_prepared_executed rows id provenance now ≡ ok rows') where
  marked : (pending_rows id rows ≡ 1) × (rows' ≡ update_pending (execute now provenance) id rows)
  unfolding mark_prepared_executed
  marked =
      let (one, h) = demand->>-ok (pending_rows id rows == 1) _ _ done in
      (ground (arith, one), ground (arith, h))

  executed-Settled : Settled id rows'
  executed-Settled = record {
    none_pending = rw marked.1 (pending_rows-update (execute now provenance) id rows (λ r. refl));
    taken =
        rw (marked.1, absent-update (execute now provenance) id id rows (λ r. refl))
          (pending_rows-taken id rows (ground (arith, marked.0)));
  }

Settled-refuses :
    (rows : List Prepared) (id provenance : String) (now : ℕ)
    → Settled id rows
    → mark_prepared_executed rows id provenance now ≡ err Refusal.already_executed
unfolding mark_prepared_executed
Settled-refuses rows id provenance now s = ground (arith, s.none_pending)

Settled-update :
    (f : Prepared → Prepared) (id other : String) (rows : List Prepared)
    → ((r : Prepared) → is_pending (f r).status ≡ false)
    → ((r : Prepared) → (f r).operation_id ≡ r.operation_id)
    → Settled id rows
    → Settled id (update_pending f other rows)
Settled-update f id other rows h k s = record {
  none_pending = pending_rows-other f id other rows h s.none_pending;
  taken = absent-update f id other rows k ∙ s.taken;
}

module _ (codec : Codec) where
  -- what an operation of any caller does to the table
  pub data Step : List Prepared → List Prepared → Type 0 where
    prepare :
        {rows rows' : List Prepared} (command : String) (request : ChallengeRequest)
        (intent prior execution operator : String) (now : ℕ)
        → prepare_mutation codec rows command request intent prior execution operator now ≡ ok rows'
        → Step rows rows'
    load :
        {rows : List Prepared} (id command intent prior operator : String) (now : ℕ)
        → Step rows (load_prepared_mutation codec rows id command intent prior operator now).0
    mark :
        {rows rows' : List Prepared} (id provenance : String) (now : ℕ)
        → mark_prepared_executed rows id provenance now ≡ ok rows'
        → Step rows rows'

  pub data Later (rows : List Prepared) : List Prepared → Type 0 where
    here : Later rows rows
    next : {u v : List Prepared} → Later rows u → Step u v → Later rows v

  prepare-Settled :
      (rows : List Prepared) (command : String) (request : ChallengeRequest)
      (intent prior execution operator : String) (now : ℕ) (id : String) {rows' : List Prepared}
      → prepare_mutation codec rows command request intent prior execution operator now ≡ ok rows'
      → Settled id rows
      → Settled id rows'
  unfolding prepare_mutation
  prepare-Settled rows command request intent prior execution operator now id {rows'} h s =
      let (u, e, h1) = >>=-eq-ok (validate_request request) _ h in
      let (e2, h2) = demand->>-ok (nonempty command) _ _ h1 in
      let (e3, h3) =
        demand->>-ok (str_eq request.execution_fields_sha256 (codec.sha256 execution)) _ _ h2 in
      let (fresh, h4) = demand->>-ok (absent (find_prepared request.operation_id rows)) _ _ h3 in
      let same : rows'
          ≡ new_prepared codec command request intent prior execution operator now ∷ rows =
        ground (arith, h4) in
      elim (Bool-cases (str_eq request.operation_id id)) [
        | inl e ↦
            let eq : request.operation_id ≡ id = (str_eq_iff request.operation_id id).0 e in
            let clash : true ≡ false = sym fresh ∙ (rw eq s.taken) in cc clash
        | inr e ↦ record {
          none_pending = rw (same, e) (ground (arith, s.none_pending));
          taken = rw (same, e) s.taken;
        }
      ]

  load-rows :
      (rows : List Prepared) (id command intent prior operator : String) (now : ℕ)
      → ((load_prepared_mutation codec rows id command intent prior operator now).0 ≡ rows)
        ⊎ ((load_prepared_mutation codec rows id command intent prior operator now).0
            ≡ update_pending expire id rows)
  unfolding load_prepared_mutation
  load-rows rows id command intent prior operator now = ground arith

  Step-Settled :
      {rows rows' : List Prepared} (id : String)
      → Step rows rows'
      → Settled id rows
      → Settled id rows'
  Step-Settled {rows} id (prepare command request intent prior execution operator now h) s =
      prepare-Settled rows command request intent prior execution operator now id h s
  Step-Settled {rows} id (load other command intent prior operator now) s =
      elim (load-rows rows other command intent prior operator now) [
        | inl e ↦ rw e s
        | inr e ↦ rw e (Settled-update expire id other rows (λ r. refl) (λ r. refl) s)
      ]
  Step-Settled {rows} id (mark other provenance now h) s =
      rw (marked rows other provenance now h).1
        (Settled-update (execute now provenance) id other rows (λ r. refl) (λ r. refl) s)

  Later-Settled :
      {rows rows' : List Prepared} (id : String)
      → Later rows rows'
      → Settled id rows
      → Settled id rows'
  Later-Settled id here s = s
  Later-Settled id (next l step) s = Step-Settled id step (Later-Settled id l s)

  -- Once a prepared mutation is marked as executed, every later mark of it is refused, whatever
  -- mutations are prepared, read and executed in between.
  pub executed_once :
      (rows : List Prepared) (id provenance : String) (now : ℕ) {rows' later : List Prepared}
      → mark_prepared_executed rows id provenance now ≡ ok rows'
      → Later rows' later
      → (provenance2 : String) (now2 : ℕ)
      → mark_prepared_executed later id provenance2 now2 ≡ err Refusal.already_executed
  executed_once rows id provenance now {rows'} {later} done l provenance2 now2 =
      Settled-refuses later id provenance2 now2
        (Later-Settled id l (executed-Settled rows id provenance now done))
