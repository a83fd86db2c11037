-- ===== src/Authority/Prepared.antt =====
-- authority/ledger.py: a mutation is frozen before its challenge is issued (`prepare_mutation`),
-- read back when the approval comes (`load_prepared_mutation`), and marked as executed
-- (`mark_prepared_executed`). Its expiry is computed without the rounding of a float.
pub mod Once
pub mod Reload
use imprint.Base.{
  ℕ, ◌+◌, ◌*◌, String, Bool, true, false, not, ◌&&◌, ◌||◌, Option, none, some, List, [], ◌∷◌, leb,
  ◌==◌, str_eq, if◌then◌else◌,
}
use imprint.Authority.Error
use imprint.Authority.Error.{Refusal, Result, ok, err, demand, ◌>>=◌, ◌>>◌}
use imprint.Authority.Request.{ChallengeRequest, validate_request, nonempty}
use imprint.Authority.Challenge.{second}

pub data Status : Type 0 where
  pending executed expired : Status

abbrev pub is_pending : Status → Bool
is_pending pending = true
is_pending executed = false
is_pending expired = false

-- a row of authority_prepared_mutations
pub record Prepared : Type 0 where
  pub operation_id : String
  pub command_name : String
  pub operator_id : String
  pub request_json : String
  pub request_sha256 : String
  pub intent_json : String
  pub intent_sha256 : String
  pub prior_state_json : String
  pub prior_state_sha256 : String
  pub execution_fields_json : String
  pub execution_fields_sha256 : String
  pub created_at : ℕ
  pub expires_at : ℕ
  pub status : Status
  pub executed_at : Option ℕ
  pub provenance_id : Option String

-- The codec: the canonical JSON of a request, its decoder, and SHA-256. The canonical JSON of the
-- intent, the prior state and the execution fields comes as a text.
pub record Codec : Type 0 where
  pub request_json : ChallengeRequest → String
  -- whether a text is JSON
  pub is_json : String → Bool
  pub decode_request : String → Option ChallengeRequest
  pub sha256 : String → String

abbrev pub prepared_ttl_seconds : ℕ
prepared_ttl_seconds = 24 * 60 * 60

abbrev pub find_prepared : String → List Prepared → Option Prepared
find_prepared id [] = none
find_prepared id (r ∷ rs) = if str_eq r.operation_id id then some r else find_prepared id rs

-- `UPDATE ... WHERE operation_id=? AND status='pending'`
abbrev pub update_pending : (Prepared → Prepared) → String → List Prepared → List Prepared
update_pending f id [] = []
update_pending f id (r ∷ rs) =
    (if str_eq r.operation_id id && is_pending r.status then f r else r) ∷ update_pending f id rs

abbrev pub pending_rows : String → List Prepared → ℕ
pending_rows id [] = 0
pending_rows id (r ∷ rs) =
    (if str_eq r.operation_id id && is_pending r.status then 1 else 0) + pending_rows id rs

abbrev pub expire : Prepared → Prepared
expire r = record r { status = expired }

abbrev pub execute : ℕ → String → Prepared → Prepared
execute now id r = record r { status = executed; executed_at = some now; provenance_id = some id }

abbrev pub absent : Option Prepared → Bool
absent none = true
absent (some r) = false

module _ (codec : Codec) where
  -- the row that `prepare_mutation` inserts
  abbrev pub new_prepared :
      String → ChallengeRequest → String → String → String → String → ℕ → Prepared
  new_prepared command request intent prior execution operator now = record {
    operation_id = request.operation_id;
    command_name = command;
    operator_id = operator;
    request_json = codec.request_json request;
    request_sha256 = codec.sha256 (codec.request_json request);
    intent_json = intent;
    intent_sha256 = codec.sha256 intent;
    prior_state_json = prior;
    prior_state_sha256 = codec.sha256 prior;
    execution_fields_json = execution;
    execution_fields_sha256 = codec.sha256 execution;
    created_at = now;
    expires_at = now + prepared_ttl_seconds * second;
    status = pending;
    executed_at = none;
    provenance_id = none;
  }

  unfoldable pub prepare_mutation :
      List Prepared
      → String
      → ChallengeRequest
      → String
      → String
      → String
      → String
      → ℕ
      → Result (List Prepared)
  prepare_mutation rows command request intent prior execution operator now = do
    validate_request request
    demand (nonempty command) Error.no_command
    demand (str_eq request.execution_fields_sha256 (codec.sha256 execution)) Error.digest_mismatch
    demand (absent (find_prepared request.operation_id rows)) Error.operation_prepared
    ok (new_prepared command request intent prior execution operator now ∷ rows)

  -- the digests of a stored row, and the request that it holds
  abbrev bound : Prepared → Option ChallengeRequest → Result (Prepared × ChallengeRequest)
  bound r none = err Error.corrupt_storage
  bound r (some request) = do
    demand (str_eq request.execution_fields_sha256 (codec.sha256 r.execution_fields_json))
        Error.fields_not_bound
    ok (r, request)

  unfoldable pub check_digests : Prepared → Result (Prepared × ChallengeRequest)
  check_digests r = do
    demand
        (str_eq (codec.sha256 r.request_json) r.request_sha256
          && str_eq (codec.sha256 r.intent_json) r.intent_sha256
          && str_eq (codec.sha256 r.prior_state_json) r.prior_state_sha256
          && str_eq (codec.sha256 r.execution_fields_json) r.execution_fields_sha256)
        Error.corrupt_digest
    demand (codec.is_json r.execution_fields_json) Error.corrupt_storage
    bound r (codec.decode_request r.request_json)

  -- what is left once the row is known to be in time
  unfoldable pub check_unchanged : Prepared → String → String → Result (Prepared × ChallengeRequest)
  check_unchanged r intent prior = do
    demand (str_eq intent r.intent_json && str_eq prior r.prior_state_json) Error.mutation_changed
    check_digests r

  abbrev load_row :
      List Prepared
      → String
      → String
      → String
      → String
      → String
      → ℕ
      → Option Prepared
      → List Prepared × Result (Prepared × ChallengeRequest)
  load_row rows id command intent prior operator now none = (rows, err Error.not_prepared)
  load_row rows id command intent prior operator now (some r) =
      if not (is_pending r.status)
      then (rows, err Error.not_pending)
      else if not (str_eq r.command_name command) || not (str_eq r.operator_id operator)
      then (rows, err Error.other_command)
      else if leb r.expires_at now
      then (update_pending expire id rows, err Error.prepared_expired)
      else (rows, check_unchanged r intent prior)

  -- The rows that come back are those of the open transaction, also behind a refusal.
  unfoldable pub load_prepared_mutation :
      List Prepared
      → String
      → String
      → String
      → String
      → String
      → ℕ
      → List Prepared × Result (Prepared × ChallengeRequest)
  load_prepared_mutation rows id command intent prior operator now =
      load_row rows id command intent prior operator now (find_prepared id rows)

unfoldable pub mark_prepared_executed : List Prepared → String → String → ℕ → Result (List Prepared)
mark_prepared_executed rows id provenance_id now = do
  demand (pending_rows id rows == 1) Error.already_executed
  ok (update_pending (execute now provenance_id) id rows)
