-- ===== src/Examples/Authority.antt =====
-- An installation with one key: a challenge is issued, approved, and refused the second time.
use imprint.Base.{
  String, ◌≡◌, refl, ◌≢◌, true, none, some, [], ◌∷◌, arith, str_eq, if◌then◌else◌, pos,
}
use imprint.Authority.Error.{already_executed, ok, err}
use imprint.Authority.Ledger.Consume.{Accepted, accepted}
use imprint.Authority.Request.{ChallengeRequest, is_string_list, validate_request, same_request}
use imprint.Authority.Challenge.{
  Challenge, is_nonce, new_challenge, validate_challenge_shape, build_challenge,
}
use imprint.Authority.Ledger.{
  Binding, ChallengeRow, Tables, Crypto, active_binding, new_row, issue_challenge,
  verify_and_consume,
}
use imprint.Authority.Ledger.Approve.{issued-approved}
use imprint.Authority.Ledger.History.{here, single_use_for_ever}
use imprint.Authority.Prepared.{
  check_unchanged, check_digests, executed, Prepared, Codec, new_prepared, prepare_mutation,
  load_prepared_mutation, mark_prepared_executed,
}
use imprint.Authority.Prepared.Reload.{prepare-load}
use imprint.Authority.Prepared.Once.{executed_once, Later}

abbrev zeros : String
zeros = "0000000000000000000000000000000000000000000000000000000000000000"

abbrev ones : String
ones = "1111111111111111111111111111111111111111111111111111111111111111"

abbrev request : ChallengeRequest
request = record {
  operation_id = "op-1";
  purpose = "ratify";
  payload_sha256 = ones;
  prior_state_sha256 = ones;
  execution_fields_sha256 = zeros;
  authority_transition = "ratified_knowledge";
  subject_ids = "s" ∷ [];
  source_ids = [];
  target_ids = [];
  proposal_ids = [];
  result_version_ids = [];
  scope = [];
  field_paths = [];
}

abbrev key : Binding
key = record {
  operator_id = "op";
  install_id = "install";
  key_id = "key";
  store_identity = "store";
  public_key = "public";
  active = true;
  ledger_sequence = 1;
}

abbrev tables : Tables
tables = record {
  in_transaction = true;
  keys = key ∷ [];
  head = some 1;
  challenges = [];
  provenance = [];
}

abbrev crypto : Crypto
crypto = record {
  canonical = λ c. c.nonce;
  sha256 = λ s. s;
  verifies = λ public signature c. str_eq signature "signed";
}

abbrev nonce : String
nonce = "AAAAAAAAAAAAAAAAAAAAAAAAAAAAAAAAAAAAAAAAAAA"

abbrev challenge : Challenge
challenge = new_challenge request "op" "install" "key" "store" (pos 1) 120 1000 nonce

abbrev issued_tables : Tables
issued_tables = record tables { challenges = new_row crypto challenge ∷ [] }

issued :
    issue_challenge crypto tables request none 120 1000 nonce ≡ ok (challenge, key, issued_tables)
unfolding issue_challenge active_binding build_challenge validate_request validate_challenge_shape
    is_nonce is_string_list
issued = refl

abbrev consumed_row : ChallengeRow
consumed_row = record (new_row crypto challenge) {
  consumed_at = some 2000;
  consumed_provenance_id = some "p-1";
}

abbrev used_tables : Tables
used_tables = record issued_tables {
  challenges = consumed_row ∷ [];
  provenance =
      record {
        provenance_id = "p-1";
        operation_id = "op-1";
        operator_id = "op";
        install_id = "install";
        key_id = "key";
        ledger_sequence = 1;
        challenge_json = nonce;
        challenge_sha256 = nonce;
        signature = "signed";
        authority_transition = "ratified_knowledge";
        committed_at = 2000;
      }
      ∷ [];
}

approved :
    verify_and_consume crypto issued_tables challenge "signed" request none 2000 "p-1"
    ≡ ok used_tables
unfolding verify_and_consume active_binding validate_request validate_challenge_shape is_nonce
    is_string_list same_request
approved = refl

single_use_for_ever_example :
    verify_and_consume crypto used_tables challenge "signed" request none 3000 "p-2"
    ≢ ok used_tables
single_use_for_ever_example =
    single_use_for_ever crypto issued_tables challenge "signed" request none 2000 "p-1" approved
      here challenge "signed" request none 3000 "p-2" used_tables refl

accepted_example :
    Accepted crypto issued_tables challenge "signed" request none 2000 "p-1" used_tables
accepted_example = accepted crypto issued_tables challenge "signed" request none 2000 "p-1" approved

abbrev codec : Codec
codec = record {
  request_json = λ r. "request";
  is_json = λ s. str_eq s "{}";
  decode_request = λ s. if str_eq s "request" then some request else none;
  sha256 = λ s. if str_eq s "{}" then zeros else ones;
}

abbrev row : Prepared
row = new_prepared codec "ratify" request "intent" "prior" "{}" "op" 1000

prepared_row :
    prepare_mutation codec [] "ratify" request "intent" "prior" "{}" "op" 1000 ≡ ok (row ∷ [])
unfolding prepare_mutation validate_request is_string_list
prepared_row = refl

loaded :
    load_prepared_mutation codec (row ∷ []) "op-1" "ratify" "intent" "prior" "op" 2000
    ≡ (row ∷ [], ok (row, request))
unfolding load_prepared_mutation check_unchanged check_digests
loaded = refl

abbrev executed_row : Prepared
executed_row = record row { status = executed; executed_at = some 2000; provenance_id = some "p-1" }

marked_row : mark_prepared_executed (row ∷ []) "op-1" "p-1" 2000 ≡ ok (executed_row ∷ [])
unfolding mark_prepared_executed
marked_row = refl

executed_once_example :
    mark_prepared_executed (executed_row ∷ []) "op-1" "p-2" 3000 ≡ err already_executed
executed_once_example =
    executed_once codec (row ∷ []) "op-1" "p-1" 2000 marked_row (Later.here) "p-2" 3000

prepare-load_example :
    load_prepared_mutation codec (row ∷ []) "op-1" "ratify" "intent" "prior" "op" 2000
    ≡ (row ∷ [], ok (row, request))
prepare-load_example =
    prepare-load codec [] "ratify" request "intent" "prior" "{}" "op" 1000 refl refl prepared_row
      2000 (omega arith)

issued-approved_example :
    (t2 : Tables) × (verify_and_consume crypto issued_tables challenge "signed" request none 2000
        "p-1"
      ≡ ok t2)
issued-approved_example =
    issued-approved crypto tables request none 120 1000 nonce challenge key issued_tables 2000
      "signed" "p-1" issued refl (omega arith) (omega arith) refl refl
