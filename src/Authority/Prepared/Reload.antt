-- ===== src/Authority/Prepared/Reload.antt =====
-- `prepare_mutation` and `load_prepared_mutation` of authority/ledger.py, one after the other.
use mathlib.Core.Path.{subst}
use imprint.Base.{
  str_eq_refl, ℕ, ◌+◌, ◌*◌, ◌<◌, String, ◌≡◌, true, false, some, List, ◌∷◌, arith, leb, str_eq,
}
use imprint.Authority.Error.{ok, demand->>-ok, >>=-eq-ok}
use imprint.Authority.Request.{ChallengeRequest, validate_request, nonempty}
use imprint.Authority.Challenge.{second}
use imprint.Authority.Prepared.{
  Prepared, Codec, prepared_ttl_seconds, find_prepared, absent, new_prepared, prepare_mutation,
  check_digests, check_unchanged, load_prepared_mutation,
}

module _ (codec : Codec) where
  load-new :
      (rows : List Prepared) (command : String) (request : ChallengeRequest)
      (intent prior execution operator : String) (now then_ : ℕ)
      → codec.decode_request (codec.request_json request) ≡ some request
      → codec.is_json execution ≡ true
      → str_eq request.execution_fields_sha256 (codec.sha256 execution) ≡ true
      → leb (now + prepared_ttl_seconds * second) then_ ≡ false
      → let row = new_prepared codec command request intent prior execution operator now in
        load_prepared_mutation codec
          (row ∷ rows)
          request.operation_id
          command
          intent
          prior
          operator
          then_
        ≡ (row ∷ rows, ok (row, request))
  unfolding load_prepared_mutation check_unchanged check_digests
  load-new rows command request intent prior execution operator now then_ decodes parses digest
        late =
      simp (str_eq_refl, digest, decodes, parses, late)

  -- A mutation that is prepared is read back with its request for the same command, intent, prior
  -- state and operator, at every time within a day, where the codec decodes what it encoded for the
  -- request and the execution fields are JSON.
  pub prepare-load :
      (rows : List Prepared) (command : String) (request : ChallengeRequest)
      (intent prior execution operator : String) (now : ℕ) {rows' : List Prepared}
      → codec.decode_request (codec.request_json request) ≡ some request
      → codec.is_json execution ≡ true
      → prepare_mutation codec rows command request intent prior execution operator now ≡ ok rows'
      → (then_ : ℕ) → then_ < now + prepared_ttl_seconds * second
      → load_prepared_mutation codec rows' request.operation_id command intent prior operator then_
        ≡ (
          rows',
          ok (new_prepared codec command request intent prior execution operator now, request),
        )
  unfolding prepare_mutation
  prepare-load rows command request intent prior execution operator now {rows'} decodes parses h
        then_ soon =
      let (u, e, h1) = >>=-eq-ok (validate_request request) _ h in
      let (e2, h2) = demand->>-ok (nonempty command) _ _ h1 in
      let (e3, h3) =
        demand->>-ok (str_eq request.execution_fields_sha256 (codec.sha256 execution)) _ _ h2 in
      let (fresh, h4) = demand->>-ok (absent (find_prepared request.operation_id rows)) _ _ h3 in
      let same : new_prepared codec command request intent prior execution operator now ∷ rows
          ≡ rows' =
        ground (arith, h4) in
      let late : leb (now + prepared_ttl_seconds * second) then_ ≡ false = ground arith in
      subst
        (λ x.
          load_prepared_mutation codec x request.operation_id command intent prior operator then_
          ≡ (
            x,
            ok (new_prepared codec command request intent prior execution operator now, request),
          ))
        same
        (load-new rows command request intent prior execution operator now then_ decodes parses e3
          late)
