-- ===== src/Authority/Challenge.antt =====
-- authority/challenge.py: a challenge is the exact mutation, the installation that issues it, a
-- nonce, and at most two minutes. Times are microseconds, as the timestamps of the source keep them.
use imprint.Base.{
  ℕ, ◌+◌, ◌*◌, String, Bool, ◌&&◌, ◌||◌, List, [], ◌∷◌, ltb, leb, ◌==◌, str_eq, length, all, any, ℤ,
  pos, ltbℤ, codes, is_digit, is_lower,
}
use imprint.Authority.Error.{
  Result, ok, demand, ◌>>◌, unsupported_contract, bad_sequence, empty_field, bad_list, bad_nonce,
  bad_expiry, bad_ttl,
}
use imprint.Authority.Request.{ChallengeRequest, nonempty, is_string_list, validate_request}

abbrev pub contract_version : String
contract_version = "imprint.authority.approval/1.1.0"

abbrev pub domain_separator : String
domain_separator = "imprint-authority-approval-v1"

abbrev pub max_ttl_seconds : ℕ
max_ttl_seconds = 120

abbrev pub second : ℕ
second = 1_000_000

-- the fields of the request stand in the challenge under their own names
pub record Challenge : Type 0 where
  pub contract_version : String
  pub domain_separator : String
  pub operator_id : String
  pub install_id : String
  pub key_id : String
  pub store_identity : String
  pub ledger_sequence : ℤ
  pub request : ChallengeRequest
  pub nonce : String
  pub issued_at : ℕ
  pub expires_at : ℕ

abbrev is_url64 : ℕ → Bool
is_url64 c = is_lower c || is_digit c || (leb b'A' c && leb c b'Z') || c == b'-' || c == b'_'

abbrev last_code : List ℕ → ℕ
last_code [] = 0
last_code (c ∷ []) = c
last_code (c ∷ d ∷ cs) = last_code (d ∷ cs)

-- The URL-safe base 64 text of 32 bytes without padding: 43 characters, the last of which carries
-- four bits.
unfoldable pub is_nonce : String → Bool
is_nonce value =
    length (codes value) == 43
    && all is_url64 (codes value)
    && any (λ c. c == last_code (codes value)) (codes "AEIMQUYcgkosw048")

unfoldable pub validate_challenge_shape : Challenge → Result (Unit {0})
unfolding is_nonce is_string_list
validate_challenge_shape c = do
  demand (str_eq c.contract_version contract_version && str_eq c.domain_separator domain_separator)
      unsupported_contract
  demand (ltbℤ (pos 0) c.ledger_sequence) bad_sequence
  demand
      (nonempty c.operator_id
        && nonempty c.install_id
        && nonempty c.key_id
        && nonempty c.store_identity
        && nonempty c.request.operation_id
        && nonempty c.request.purpose
        && nonempty c.request.payload_sha256
        && nonempty c.request.prior_state_sha256
        && nonempty c.request.execution_fields_sha256
        && nonempty c.request.authority_transition
        && nonempty c.nonce)
      empty_field
  demand
      (is_string_list c.request.subject_ids
        && is_string_list c.request.source_ids
        && is_string_list c.request.target_ids
        && is_string_list c.request.proposal_ids
        && is_string_list c.request.result_version_ids
        && is_string_list c.request.scope
        && is_string_list c.request.field_paths)
      bad_list
  demand (is_nonce c.nonce) bad_nonce
  demand (ltb c.issued_at c.expires_at && leb c.expires_at (c.issued_at + max_ttl_seconds * second))
      bad_expiry

-- the dictionary that `build_challenge` fills
abbrev pub new_challenge :
    ChallengeRequest → String → String → String → String → ℤ → ℕ → ℕ → String → Challenge
new_challenge request operator_id install_id key_id store_identity sequence ttl_seconds now nonce =
    record {
      contract_version = contract_version;
      domain_separator = domain_separator;
      operator_id = operator_id;
      install_id = install_id;
      key_id = key_id;
      store_identity = store_identity;
      ledger_sequence = sequence;
      request = request;
      nonce = nonce;
      issued_at = now;
      expires_at = now + ttl_seconds * second;
    }

-- `build_challenge`, with the clock's time and the random nonce as arguments
unfoldable pub build_challenge :
    ChallengeRequest → String → String → String → String → ℤ → ℕ → ℕ → String → Result Challenge
build_challenge request operator_id install_id key_id store_identity sequence ttl_seconds now
      nonce =
    do
      validate_request request
      demand (leb 1 ttl_seconds && leb ttl_seconds max_ttl_seconds) bad_ttl
      let value =
          new_challenge request operator_id install_id key_id store_identity sequence ttl_seconds
            now nonce
      validate_challenge_shape value
      ok value
