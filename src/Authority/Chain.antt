-- ===== src/Authority/Chain.antt =====
-- authority/ledger.py: the signed chain of authority events, from the genesis event on. The JSON
-- decoder and RFC 8785, base 64, SHA-256 and Ed25519 are parameters. A decoded event has fields of
-- the types that the program writes; the set of keys of its details is their constructor.
pub mod Keys
pub mod Shapes
pub mod Apply
pub mod Verify
pub mod Heads
pub mod Append
pub mod History
use imprint.Base.{
  ℕ, zero, suc, ◌+◌, ◌-◌, ◌*◌, ◌/◌, ◌%◌, ◌≤◌, ◌<◌, String, ◌≡◌, refl, sym, ap, ◌∙◌, ◌≢◌, ◌↔◌, ◌⊎◌,
  inl, inr, Bool, true, false, not, ◌&&◌, ◌||◌, Option, none, some, List, [], ◌∷◌, ◌++◌, map,
  reverse, arith, ltb, leb, ◌==◌, str_eq, str_eq_iff, if◌then◌else◌, Bool-cases, Option-cases,
  tests, length, length-append, keep, all, any, All, mem, distinct, ℤ, pos, negsuc, pos_part,
  neg_part, sub_ℕ, negate_ℕ, negate, ltbℤ, eqbℤ, codes, codes_eq, has_text, is_digit, is_lower,
  text_lt,
}
use imprint.Time.{Stamp, parse_utc}

-- `key_fields`
pub record Certificate : Type 0 where
  pub key_id : String
  pub public_key_b64 : String
  pub public_key_fingerprint : String
  pub install_id : String

-- `blob_fields`
pub record Blob : Type 0 where
  pub blob_rel_path : String
  pub blob_sha256 : String
  pub blob_size : ℤ
  pub algorithm_suite : String

-- `authorization_fields`
pub record Authorization : Type 0 where
  pub certificate_version : String
  pub operator_id : String
  pub store_identity : String
  pub new_install_id : String
  pub new_key_id : String
  pub new_public_key_b64 : String
  pub pairing_nonce : String
  pub pairing_request_sha256 : String
  pub preceding_authority_head_sha256 : String
  pub expires_at : String

-- `current_fields`
pub record StateChange : Type 0 where
  pub target_key_id : String
  pub effective_at : String
  pub compromised_at : Option String
  pub reason : String
  pub replacement_key_id : Option String
  pub affected_installation_ids : List String
  pub evidence_sha256s : List String
  pub required_revocation_key_ids : List String

-- `adjudication_fields`
pub record Adjudication : Type 0 where
  pub proof_id : String
  pub chosen_checkpoint_sha256 : String
  pub rejected_proof_sha256 : String
  pub reason : String
  pub effective_at : String

-- the details of an event, by their set of keys
pub data Details : Type 0 where
  certificate : Certificate → Details
  pairing : Certificate → Blob → Authorization → Details
  -- with `old_key_id`
  rotation : Certificate → Blob → String → Details
  state_change : StateChange → Details
  -- with `old_install_id`
  rebinding : Certificate → Blob → String → Authorization → Details
  adjudication : Adjudication → Details
  other_details : Details

-- what the genesis event has of its own
pub record Genesis : Type 0 where
  pub contract_version : String
  pub domain_separator : String
  pub store_identity : String
  pub public_key_b64 : String
  pub public_key_fingerprint : String
  pub enrollment_nonce : String
  pub status : String
  pub blob : Blob
  pub recovery_binding : Option Certificate

-- An event is the genesis, or it has a version, a separator and details.
pub data Content : Type 0 where
  genesis : Genesis → Content
  lifecycle : String → String → Details → Content

-- the fields that an event shares with its row
pub record Columns : Type 0 where
  pub event_id : String
  pub event_type : String
  pub operator_id : String
  pub install_id : String
  pub key_id : String
  pub previous_event_sha256 : Option String
  pub created_at : String

pub record Event : Type 0 where
  pub sequence : ℤ
  pub columns : Columns
  pub signed_by_key_id : Option String
  pub content : Content

-- a row of authority_ledger
pub record LedgerRow : Type 0 where
  pub sequence : ℕ
  pub event_json : String
  pub event_sha256 : String
  pub columns : Columns
  pub signature_b64 : String

pub data KeyKind : Type 0 where
  installation recovery : KeyKind

pub data KeyStatus : Type 0 where
  active retired revoked compromised : KeyStatus

-- an entry of `keys`, with `None` for what is not yet set
pub record Key : Type 0 where
  pub certified : Certificate
  pub kind : KeyKind
  pub status : KeyStatus
  pub paired : Bool
  pub certificate_sequence : Option ℕ
  pub certificate_event_sha256 : Option String
  pub effective_at : Option String
  pub compromised_at : Option String
  pub replacement_key_id : Option String
  pub blob : Option Blob

-- the value of `_signer_certificate`
pub record SignerCertificate : Type 0 where
  pub certificate_version : String
  pub certified : Certificate
  pub kind : String
  pub paired : Bool
  pub authorization_sequence : Option ℕ
  pub authorization_event_sha256 : Option String
  pub status_at_checkpoint : String

-- a checkpoint without its signature
pub record Checkpoint : Type 0 where
  pub checkpoint_version : String
  pub domain_separator : String
  pub operator_id : String
  pub store_identity : Option String
  pub sequence : ℤ
  pub event_sha256 : String
  pub genesis_event_sha256 : String
  pub key_state_sha256 : String
  pub prior_checkpoint_sha256 : Option String
  pub signer_key_id : String
  pub signer_certificate : SignerCertificate
  pub issued_at : String
  pub expires_at : String

pub record External : Type 0 where
  -- `json.loads`, and `canonical_bytes` as a text
  pub decode : String → Option Event
  pub canonical : Event → String
  pub sha256 : String → String
  -- `base64.b64decode(..., validate=True)`, and the digest of the bytes
  pub b64decode : String → Option (List ℕ)
  pub sha256_raw : List ℕ → String
  -- whether a signature is a public key's over the message of an event
  pub verifies : String → String → Event → Bool
  pub verifies_checkpoint : String → String → Checkpoint → Bool
  -- the signatures that a private key makes
  pub sign : String → Event → String
  pub sign_checkpoint : String → Checkpoint → String
  -- the canonical bytes of a checkpoint with its signature
  pub checkpoint_json : Checkpoint → String → String
  -- the canonical JSON of `_key_state_value`
  pub key_state_json : List Key → String
  -- the instant of a time without a zone, in the zone of the machine
  pub local_instant : Stamp → ℕ

module _ (ext : External) where
  -- `canonical_bytes` and `sha256_hex` of an event
  abbrev pub event_digest : Event → String
  event_digest e = ext.sha256 (ext.canonical e)

  abbrev instant_of : Option Stamp → Option ℕ
  instant_of none = none
  instant_of (some t) = some (if t.aware then t.instant else ext.local_instant t)

  -- `parse_timestamp`
  unfoldable pub parse_timestamp : String → Option ℕ
  parse_timestamp value = instant_of (parse_utc value)
