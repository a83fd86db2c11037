-- ===== src/Authority/Chain/Heads.antt =====
-- authority/ledger.py: what `verify_authority_chain` does with a pinned head and a checkpoint, and
-- `create_checkpoint`.
pub mod Window
pub mod Accepted
use imprint.Base.{
  ℕ, zero, suc, ◌+◌, ◌-◌, ◌*◌, ◌/◌, ◌%◌, ◌≤◌, ◌<◌, String, ◌≡◌, refl, sym, ap, ◌∙◌, ◌≢◌, ◌↔◌, ◌⊎◌,
  inl, inr, Bool, true, false, not, ◌&&◌, ◌||◌, Option, none, some, List, [], ◌∷◌, ◌++◌, map,
  reverse, arith, ltb, leb, ◌==◌, str_eq, str_eq_iff, if◌then◌else◌, Bool-cases, Option-cases,
  tests, length, length-append, keep, all, any, All, mem, distinct, ℤ, pos, negsuc, pos_part,
  neg_part, sub_ℕ, negate_ℕ, negate, ltbℤ, eqbℤ, codes, codes_eq, has_text, is_digit, is_lower,
  text_lt,
}
use imprint.Base.{sort_by, insert_by}
use imprint.Time.{parse_utc}
use imprint.Ontology.Fault.{Checked, ok, err, validation_error, key_error, demand, ◌>>=◌, ◌>>◌}
use imprint.Authority.Request.{is_sha256}
use imprint.Authority.Chain.{
  parse_timestamp, Certificate, Genesis, Content, genesis, lifecycle, Columns, Event, LedgerRow,
  Key, KeyKind, installation, recovery, External, event_digest, SignerCertificate, Checkpoint,
}
use imprint.Authority.Chain.Keys.{
  is_installation, has_key_id, update_key, new_chain_key, key_state_value, is_active, get_key,
  key_state_sha256, signer_certificate,
}
use imprint.Authority.Chain.Apply.{
  check_authorization, create_recovery, pair_installation, rotate, change_state, rebind, adjudicate,
  apply_event, active_key,
}
use imprint.Authority.Chain.Shapes.{timestamp}
use imprint.Authority.Chain.Verify.{
  same_columns, apply_lifecycle, check_event, verify_row, verify_rows, genesis_keys, Entry,
  eq_or_none, keys_after, digest_after, verify_events,
}

abbrev eq_number_or_none : Option ℕ → Option ℕ → Bool
eq_number_or_none none none = true
eq_number_or_none (some a) (some b) = a == b
eq_number_or_none _ _ = false

abbrev eq_bool : Bool → Bool → Bool
eq_bool true b = b
eq_bool false b = not b

-- a head that was seen before
pub record PinnedHead : Type 0 where
  pub sequence : ℤ
  pub event_sha256 : String

-- `hashes.get(sequence)`, and the snapshot behind it
unfoldable pub entry_at : ℕ → List Entry → Option Entry
entry_at n [] = none
entry_at zero (e ∷ es) = none
entry_at (suc zero) (e ∷ es) = some e
entry_at (suc (suc n)) (e ∷ es) = entry_at (suc n) es

abbrev pub entry_at_int : ℤ → List Entry → Option Entry
entry_at_int (pos n) es = entry_at n es
entry_at_int (negsuc n) es = none

abbrev pub has_digest : String → Option Entry → Bool
has_digest s none = false
has_digest s (some e) = str_eq e.digest s

unfoldable pub check_pin : List Entry → Option PinnedHead → Checked (Unit {0})
check_pin entries none = ok tt
check_pin entries (some p) = do
  demand (not (ltbℤ p.sequence (pos 1)) && not (ltbℤ (pos (length entries)) p.sequence))
      "authority source ledger is older than the pinned head"
  demand (has_digest p.event_sha256 (entry_at_int p.sequence entries))
      "authority ledger fork or equivocation against pinned head"

unfoldable pub same_signer_certificate : SignerCertificate → SignerCertificate → Bool
same_signer_certificate a b =
    str_eq a.certificate_version b.certificate_version
    && str_eq a.certified.key_id b.certified.key_id
    && str_eq a.certified.install_id b.certified.install_id
    && str_eq a.certified.public_key_b64 b.certified.public_key_b64
    && str_eq a.certified.public_key_fingerprint b.certified.public_key_fingerprint
    && str_eq a.kind b.kind
    && eq_bool a.paired b.paired
    && eq_number_or_none a.authorization_sequence b.authorization_sequence
    && eq_or_none a.authorization_event_sha256 b.authorization_event_sha256
    && str_eq a.status_at_checkpoint b.status_at_checkpoint

abbrev sha_or_none : Option String → Bool
sha_or_none none = true
sha_or_none (some s) = is_sha256 s

abbrev found_entry : Option Entry → Checked Entry
found_entry none =
    err (validation_error "authority checkpoint names an absent, rolled-back, or forked head")
found_entry (some e) = ok e

abbrev first_digest : List Entry → String
first_digest [] = ""
first_digest (e ∷ es) = e.digest

abbrev current_key : Option Key → Checked Key
current_key none = err (validation_error "authority checkpoint signer is inactive")
current_key (some k) = ok k

module _ (ext : External) (operator : String) (store : Option String) where
  -- the times of a checkpoint, in microseconds
  unfoldable pub check_window : ℕ → ℕ → Bool → ℕ → Checked (Unit {0})
  check_window issued expires enforce now = do
    demand (ltb issued expires && leb expires (issued + 86_400 * 1_000_000))
        "authority checkpoint freshness window is invalid"
    demand (not (enforce && (ltb now issued || leb expires now)))
        "authority checkpoint is absent or stale"

  -- The checkpoint with its signature; what comes back is the entry that it names. The default
  -- stands for `max_checkpoint_age_seconds`.
  unfoldable pub check_checkpoint : List Entry → Checkpoint → String → Bool → ℕ → Checked Entry
  check_checkpoint entries c signature enforce now = do
    demand
        (str_eq c.checkpoint_version "imprint.authority.checkpoint/1.1.0"
          && str_eq c.domain_separator "imprint-authority-checkpoint-v1")
        "authority checkpoint version is unsupported"
    demand (str_eq c.operator_id operator && eq_or_none c.store_identity store)
        "authority checkpoint identity mismatch"
    demand (str_eq c.genesis_event_sha256 (first_digest entries))
        "authority checkpoint trust genesis mismatch"
    entry ← found_entry (entry_at_int c.sequence entries)
    demand (str_eq entry.digest c.event_sha256)
        "authority checkpoint names an absent, rolled-back, or forked head"
    demand (str_eq c.key_state_sha256 (key_state_sha256 ext entry.keys))
        "authority checkpoint key-state digest mismatch"
    demand (sha_or_none c.prior_checkpoint_sha256) "authority checkpoint prior hash is invalid"
    current ← current_key (get_key c.signer_key_id (keys_after [] entries))
    signer ← active_key c.signer_key_id entry.keys "authority checkpoint signer is inactive"
    demand (same_signer_certificate c.signer_certificate (signer_certificate signer))
        "authority checkpoint signer certificate mismatch"
    issued ← timestamp ext c.issued_at
    expires ← timestamp ext c.expires_at
    check_window issued expires enforce now
    demand (ext.verifies_checkpoint current.certified.public_key_b64 signature c)
        "authority checkpoint signature is invalid"
    ok entry

-- a checkpoint as it was supplied, with its signature
pub record Supplied : Type 0 where
  pub checkpoint : Checkpoint
  pub signature_b64 : String

-- what `verify_authority_chain` returns
pub record Verified : Type 0 where
  pub store_identity : Option String
  pub entries : List Entry
  -- the entry that the checkpoint names
  pub at_checkpoint : Option Entry
  pub unseen_newer_events : Bool
  pub active_installations : List Key

abbrev newer_than : Option Supplied → List Entry → Bool
newer_than none entries = false
newer_than (some s) entries = ltbℤ s.checkpoint.sequence (pos (length entries))

abbrev pub verified : Option String → List Entry → Option Supplied → Option Entry → Verified
verified store entries supplied named = record {
  store_identity = store;
  entries = entries;
  at_checkpoint = named;
  unseen_newer_events = newer_than supplied entries;
  active_installations =
      keep (λ (k : Key). is_installation k.kind && is_active k) (keys_after [] entries);
}

module _ (ext : External) (operator : String) where
  abbrev check_supplied :
      Option String → List Entry → Option Supplied → Bool → ℕ → Checked (Option Entry)
  check_supplied store entries none enforce now = ok none
  check_supplied store entries (some s) enforce now = do
    entry ← check_checkpoint ext operator store entries s.checkpoint s.signature_b64 enforce now
    ok (some entry)

  unfoldable pub verify_authority_chain :
      Option String
      → List LedgerRow
      → Option Supplied
      → Option PinnedHead
      → Bool
      → ℕ
      → Checked Verified
  verify_authority_chain expected_store rows checkpoint pin enforce now = do
    (store, entries) ← verify_events ext operator expected_store rows
    check_pin entries pin
    named ← check_supplied store entries checkpoint enforce now
    ok (verified store entries checkpoint named)

  abbrev head_text : Option String → String
  head_text none = ""
  head_text (some s) = s

  -- the dictionary `unsigned` of `create_checkpoint`
  abbrev pub new_checkpoint :
      Option String → List Entry → Key → String → Option String → String → String → Checkpoint
  new_checkpoint store entries signer signer_id prior issued expires = record {
    checkpoint_version = "imprint.authority.checkpoint/1.1.0";
    domain_separator = "imprint-authority-checkpoint-v1";
    operator_id = operator;
    store_identity = store;
    sequence = pos (length entries);
    event_sha256 = head_text (digest_after none entries);
    genesis_event_sha256 = first_digest entries;
    key_state_sha256 = key_state_sha256 ext (keys_after [] entries);
    prior_checkpoint_sha256 = prior;
    signer_key_id = signer_id;
    signer_certificate = signer_certificate signer;
    issued_at = issued;
    expires_at = expires;
  }

  -- The clock's time comes as its instant; `utc_text` writes an instant, `approve` may refuse.
  unfoldable pub create_checkpoint :
      (ℕ → String)
      → (Checkpoint → Checked (Unit {0}))
      → List LedgerRow
      → String
      → String
      → ℕ
      → Option String
      → ℕ
      → Checked Supplied
  create_checkpoint utc_text approve rows signer_id private_key ttl_seconds prior now = do
    demand (leb 1 ttl_seconds && leb ttl_seconds 86_400)
        "authority checkpoint TTL must be within 24 hours"
    (store, entries) ← verify_events ext operator none rows
    signer ←
        active_key signer_id (keys_after [] entries) "authority checkpoint signer is not active"
    let unsigned =
        new_checkpoint store entries signer signer_id prior (utc_text now)
          (utc_text (now + ttl_seconds * 1_000_000))
    approve unsigned
    ok (record { checkpoint = unsigned; signature_b64 = ext.sign_checkpoint private_key unsigned })

-- opens every check of the chain, for a test
unfoldable pub checks : Unit {0}
unfolding verify_events parse_utc parse_timestamp is_sha256 has_text get_key has_key_id update_key
    new_chain_key key_state_value key_state_sha256 signer_certificate active_key check_authorization
    create_recovery pair_installation rotate change_state rebind adjudicate apply_event same_columns
    apply_lifecycle check_event verify_row verify_rows genesis_keys entry_at check_pin
    same_signer_certificate check_window check_checkpoint verify_authority_chain create_checkpoint
    sort_by insert_by text_lt
checks = tt
