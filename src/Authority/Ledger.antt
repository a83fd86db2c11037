-- ===== src/Authority/Ledger.antt =====
-- authority/ledger.py: the tables of the authority ledger, and the two ends of an approval,
-- `issue_challenge` and `verify_and_consume`. RFC 8785, SHA-256 and Ed25519 are parameters.
pub mod Consume
pub mod Issue
pub mod Approve
pub mod History
use imprint.Base.{
  ℕ, ◌+◌, String, Bool, true, false, not, ◌&&◌, ◌||◌, Option, none, some, List, [], ◌∷◌, ltb, leb,
  ◌==◌, str_eq, if◌then◌else◌, keep, pos, eqbℤ,
}
use imprint.Authority.Error.{Refusal, Result, ok, err, demand, ◌>>=◌, ◌>>◌}
use imprint.Authority.Error
use imprint.Authority.Request.{ChallengeRequest, validate_request, same_request}
use imprint.Authority.Challenge.{Challenge, validate_challenge_shape, build_challenge}

-- a row of authority_keys
pub record Binding : Type 0 where
  pub operator_id : String
  pub install_id : String
  pub key_id : String
  pub store_identity : String
  pub public_key : String
  pub active : Bool
  pub ledger_sequence : ℕ

-- a row of authority_challenges
pub record ChallengeRow : Type 0 where
  pub nonce_sha256 : String
  pub operation_id : String
  pub challenge_sha256 : String
  pub issued_at : ℕ
  pub expires_at : ℕ
  pub consumed_at : Option ℕ
  pub consumed_provenance_id : Option String

-- a row of authority_provenance
pub record ProvenanceRow : Type 0 where
  pub provenance_id : String
  pub operation_id : String
  pub operator_id : String
  pub install_id : String
  pub key_id : String
  pub ledger_sequence : ℕ
  pub challenge_json : String
  pub challenge_sha256 : String
  pub signature : String
  pub authority_transition : String
  pub committed_at : ℕ

pub record Tables : Type 0 where
  pub in_transaction : Bool
  pub keys : List Binding
  -- `MAX(sequence)` of authority_ledger
  pub head : Option ℕ
  pub challenges : List ChallengeRow
  pub provenance : List ProvenanceRow

pub record Crypto : Type 0 where
  -- the canonical JSON of a challenge
  pub canonical : Challenge → String
  pub sha256 : String → String
  -- whether a signature is the key's over a challenge's signature message
  pub verifies : String → String → Challenge → Bool

abbrev single : List Binding → Result Binding
single (b ∷ []) = ok b
single _ = err Error.no_single_active_key

abbrev pub expected_is : Option String → String → Bool
expected_is none actual = true
expected_is (some s) actual = str_eq actual s

abbrev pub reaches : Option ℕ → ℕ → Bool
reaches none sequence = false
reaches (some head) sequence = leb sequence head

unfoldable pub active_binding : Tables → Option String → Result Binding
active_binding t expected_operator_id = do
  binding ← single (keep (λ (b : Binding). b.active) t.keys)
  demand (expected_is expected_operator_id binding.operator_id) Error.other_operator
  demand (reaches t.head binding.ledger_sequence) Error.missing_key_binding
  ok binding

abbrev pub head_or_zero : Option ℕ → ℕ
head_or_zero none = 0
head_or_zero (some n) = n

-- the row with a nonce's digest, which is the primary key
abbrev pub find_row : String → List ChallengeRow → Option ChallengeRow
find_row sha [] = none
find_row sha (r ∷ rs) = if str_eq r.nonce_sha256 sha then some r else find_row sha rs

abbrev pub is_some {ℓ} : {A : Type ℓ} → Option A → Bool
is_some none = false
is_some (some a) = true

-- the row that `issue_challenge` inserts
abbrev pub new_row : Crypto → Challenge → ChallengeRow
new_row crypto c = record {
  nonce_sha256 = crypto.sha256 c.nonce;
  operation_id = c.request.operation_id;
  challenge_sha256 = crypto.sha256 (crypto.canonical c);
  issued_at = c.issued_at;
  expires_at = c.expires_at;
  consumed_at = none;
  consumed_provenance_id = none;
}

-- `UPDATE ... SET consumed_at WHERE nonce_sha256=? AND consumed_at IS NULL`
abbrev pub mark_consumed : String → ℕ → String → List ChallengeRow → List ChallengeRow
mark_consumed sha now id [] = []
mark_consumed sha now id (r ∷ rs) =
    (if str_eq r.nonce_sha256 sha && not (is_some r.consumed_at)
      then record r { consumed_at = some now; consumed_provenance_id = some id }
      else r)
    ∷ mark_consumed sha now id rs

-- the number of rows that the update changes
abbrev pub open_rows : String → List ChallengeRow → ℕ
open_rows sha [] = 0
open_rows sha (r ∷ rs) =
    (if str_eq r.nonce_sha256 sha && not (is_some r.consumed_at) then 1 else 0) + open_rows sha rs

-- `provenance_id` is the primary key and `operation_id` is unique
abbrev pub provenance_exists : String → String → List ProvenanceRow → Bool
provenance_exists id operation [] = false
provenance_exists id operation (r ∷ rs) =
    str_eq r.provenance_id id
    || str_eq r.operation_id operation
    || provenance_exists id operation rs

-- the nonce was issued by this store, for this challenge
abbrev pub issued_here : Crypto → Challenge → Option ChallengeRow → Result ChallengeRow
issued_here crypto c none = err Error.nonce_not_issued
issued_here crypto c (some row) = do
  demand
      (str_eq row.challenge_sha256 (crypto.sha256 (crypto.canonical c))
        && str_eq row.operation_id c.request.operation_id)
      Error.nonce_not_issued
  ok row

module _ (crypto : Crypto) where
  unfoldable pub issue_challenge :
      Tables
      → ChallengeRequest
      → Option String
      → ℕ
      → ℕ
      → String
      → Result (Challenge × Binding × Tables)
  issue_challenge t request expected_operator_id ttl_seconds now nonce = do
    binding ← active_binding t expected_operator_id
    challenge ←
        build_challenge request binding.operator_id binding.install_id binding.key_id
          binding.store_identity (pos (head_or_zero t.head)) ttl_seconds now nonce
    demand (not (is_some (find_row (crypto.sha256 nonce) t.challenges)))
        Error.nonce_or_operation_collision
    ok (challenge, binding, record t { challenges = new_row crypto challenge ∷ t.challenges })

  -- An approval token: a challenge and its signature. `now` and `provenance_id` are the clock's time
  -- and the fresh identifier. The tables that come back are those of the open transaction; a refusal
  -- rolls it back.
  unfoldable pub verify_and_consume :
      Tables → Challenge → String → ChallengeRequest → Option String → ℕ → String → Result Tables
  verify_and_consume t challenge signature expected expected_operator_id now provenance_id = do
    demand t.in_transaction Error.no_transaction
    validate_challenge_shape challenge
    validate_request expected
    demand (same_request challenge.request expected) Error.not_the_exact_mutation
    binding ← active_binding t expected_operator_id
    demand
        (str_eq challenge.operator_id binding.operator_id
          && str_eq challenge.install_id binding.install_id
          && str_eq challenge.key_id binding.key_id
          && str_eq challenge.store_identity binding.store_identity)
        Error.other_installation
    demand (eqbℤ challenge.ledger_sequence (pos (head_or_zero t.head))) Error.stale_sequence
    let sha = crypto.sha256 challenge.nonce
    row ← issued_here crypto challenge (find_row sha t.challenges)
    demand (not (is_some row.consumed_at)) Error.nonce_consumed
    demand (leb challenge.issued_at now && ltb now challenge.expires_at) Error.not_currently_valid
    demand (crypto.verifies binding.public_key signature challenge) Error.bad_signature
    demand (not (provenance_exists provenance_id challenge.request.operation_id t.provenance))
        Error.operation_exists
    demand (open_rows sha t.challenges == 1) Error.consumed_concurrently
    ok (record t {
      challenges = mark_consumed sha now provenance_id t.challenges;
      provenance =
          record {
            provenance_id = provenance_id;
            operation_id = challenge.request.operation_id;
            operator_id = binding.operator_id;
            install_id = binding.install_id;
            key_id = binding.key_id;
            ledger_sequence = head_or_zero t.head;
            challenge_json = crypto.canonical challenge;
            challenge_sha256 = crypto.sha256 (crypto.canonical challenge);
            signature = signature;
            authority_transition = challenge.request.authority_transition;
            committed_at = now;
          }
          ∷ t.provenance;
    })
