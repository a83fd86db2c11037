-- ===== src/Authority/Chain/Verify.antt =====
-- authority/ledger.py: `verify_authority_chain`, from the rows of the ledger in the order of their
-- sequence to the keys, the pinned head and the checkpoint.
pub mod Steps
pub mod Prefix
pub mod Start
pub mod Life
pub mod Single
use imprint.Base.{
  ℕ, zero, suc, ◌+◌, ◌-◌, ◌*◌, ◌/◌, ◌%◌, ◌≤◌, ◌<◌, String, ◌≡◌, refl, sym, ap, ◌∙◌, ◌≢◌, ◌↔◌, ◌⊎◌,
  inl, inr, Bool, true, false, not, ◌&&◌, ◌||◌, Option, none, some, List, [], ◌∷◌, ◌++◌, map,
  reverse, arith, ltb, leb, ◌==◌, str_eq, str_eq_iff, if◌then◌else◌, Bool-cases, Option-cases,
  tests, length, length-append, keep, all, any, All, mem, distinct, ℤ, pos, negsuc, pos_part,
  neg_part, sub_ℕ, negate_ℕ, negate, ltbℤ, eqbℤ, codes, codes_eq, has_text, is_digit, is_lower,
  text_lt,
}
use imprint.Ontology.Fault.{Checked, ok, err, validation_error, key_error, demand, ◌>>=◌, ◌>>◌}
use imprint.Authority.Request.{is_sha256}
use imprint.Authority.Chain.{
  Certificate, Genesis, Content, genesis, lifecycle, Columns, Event, LedgerRow, Key, KeyKind,
  installation, recovery, External, event_digest, SignerCertificate, Checkpoint,
}
use imprint.Authority.Chain.Keys.{
  is_active, is_installation, key_id_of, get_key, new_chain_key, chain_key, certify,
  key_state_sha256, signer_certificate,
}
use imprint.Authority.Chain.Apply.{apply_event, active_key}

abbrev pub eq_or_none : Option String → Option String → Bool
eq_or_none none none = true
eq_or_none (some a) (some b) = str_eq a b
eq_or_none _ _ = false

-- the signed event and its row agree
unfoldable pub same_columns : Columns → Columns → Bool
same_columns a b =
    str_eq a.event_id b.event_id
    && str_eq a.event_type b.event_type
    && str_eq a.operator_id b.operator_id
    && str_eq a.install_id b.install_id
    && str_eq a.key_id b.key_id
    && eq_or_none a.previous_event_sha256 b.previous_event_sha256
    && str_eq a.created_at b.created_at

abbrev pub or_else : Option String → String → String
or_else none s = s
or_else (some t) s = t

abbrev pub is_present : Option String → Bool
is_present none = false
is_present (some s) = true

-- what a verified row leaves: the digest of its event and the keys behind it
pub record Entry : Type 0 where
  pub digest : String
  pub keys : List Key

abbrev pub stamp_digest : String → Key → Key
stamp_digest digest k = record k { certificate_event_sha256 = some digest }

module _ (ext : External) (operator : String) where
  module _ (store : Option String) where
    -- an event behind the genesis
    unfoldable pub apply_lifecycle :
        ℕ → String → Event → Key → List Key → Content → Checked (List Key)
    apply_lifecycle index digest e signer keys (genesis g) =
        err (validation_error "authority lifecycle event has unknown fields or version")
    apply_lifecycle index digest e signer keys (lifecycle version separator details) = do
      demand
          (is_present e.signed_by_key_id
            && str_eq version "imprint.authority.ledger-event/1.1.0"
            && str_eq separator "imprint-authority-ledger-v1")
          "authority lifecycle event has unknown fields or version"
      apply_event ext operator store (suc index) digest e signer keys e.columns.event_type details

    abbrev pub take_effect : ℕ → String → Event → Key → List Key → Checked (List Key)
    take_effect zero digest e signer keys = ok (map (stamp_digest digest) keys)
    take_effect (suc n) digest e signer keys =
        apply_lifecycle (suc n) digest e signer keys e.content

    abbrev decoded : Option Event → Checked Event
    decoded none = err (validation_error "authority ledger event is malformed")
    decoded (some e) = ok e

    -- the body of the loop for the event at an index, before its effect
    unfoldable pub check_event : List Key → Option String → ℕ → LedgerRow → Event → Checked Key
    check_event keys head index row e = do
      demand (str_eq (event_digest ext e) row.event_sha256 && eqbℤ e.sequence (pos (suc index)))
          "authority ledger event digest or sequence mismatch"
      demand (same_columns e.columns row.columns) "authority ledger row and signed event disagree"
      demand (str_eq e.columns.operator_id operator) "authority ledger operator equivocation"
      demand (eq_or_none e.columns.previous_event_sha256 head)
          "authority ledger rollback, fork, or missing intermediate"
      signer ←
          active_key (or_else e.signed_by_key_id e.columns.key_id) keys
            "authority ledger event signer is unknown or inactive"
      demand (ext.verifies signer.certified.public_key_b64 row.signature_b64 e)
          "authority ledger signature is invalid"
      ok signer

    unfoldable pub verify_row : List Key → Option String → ℕ → LedgerRow → Checked Entry
    verify_row keys head index row = do
      e ← decoded (ext.decode row.event_json)
      signer ← check_event keys head index row e
      next ← take_effect index (event_digest ext e) e signer keys
      ok (record { digest = event_digest ext e; keys = next })

    unfoldable pub verify_rows :
        List Key → Option String → ℕ → List LedgerRow → Checked (List Entry)
    unfolding verify_row
    verify_rows keys head index [] = ok []
    verify_rows keys head index (row ∷ rows) = do
      entry ← verify_row keys head index row
      rest ← verify_rows entry.keys (some entry.digest) (suc index) rows
      ok (entry ∷ rest)

  abbrev genesis_content : Content → Checked Genesis
  genesis_content (genesis g) = ok g
  genesis_content (lifecycle version separator details) = err (key_error "public_key_b64")

  abbrev machine_certificate : Event → Genesis → Certificate
  machine_certificate e g = record {
    key_id = e.columns.key_id;
    public_key_b64 = g.public_key_b64;
    public_key_fingerprint = g.public_key_fingerprint;
    install_id = e.columns.install_id;
  }

  abbrev pub machine_key : Event → Genesis → Key
  machine_key e g =
      certify 1 none e.columns.created_at (chain_key (machine_certificate e g) none installation)

  abbrev with_recovery : Event → Key → Option Certificate → Checked (List Key)
  with_recovery e machine none = ok (machine ∷ [])
  with_recovery e machine (some c) = do
    k ← new_chain_key ext c none recovery
    demand (not (str_eq c.key_id (key_id_of machine))) "authority genesis key identities collide"
    ok (machine ∷ certify 1 none e.columns.created_at k ∷ [])

  -- the keys that the genesis event binds
  unfoldable pub genesis_keys : Event → Checked (List Key)
  genesis_keys e = do
    g ← genesis_content e.content
    with_recovery e (machine_key e g) g.recovery_binding

  abbrev pub store_of : Content → Option String
  store_of (genesis g) = some g.store_identity
  store_of (lifecycle version separator details) = none

  abbrev pub in_sequence : ℕ → List LedgerRow → Bool
  in_sequence n [] = true
  in_sequence n (r ∷ rs) = r.sequence == n && in_sequence (suc n) rs

  abbrev pub expected_or_any : Option String → Option String → Bool
  expected_or_any none store = true
  expected_or_any (some s) store = eq_or_none (some s) store

  abbrev pub first_event : List LedgerRow → Checked Event
  first_event [] = err (validation_error "authority ledger is absent")
  first_event (r ∷ rs) = elim (ext.decode r.event_json) [
    | none ↦ err (validation_error "authority ledger genesis is malformed")
    | some e ↦ ok e
  ]

  abbrev pub is_empty : List LedgerRow → Bool
  is_empty [] = true
  is_empty (r ∷ rs) = false

  -- the loop over the rows, with the identity of the store that the genesis names
  unfoldable pub verify_events :
      Option String → List LedgerRow → Checked (Option String × List Entry)
  verify_events expected_store rows = do
    demand (not (is_empty rows)) "authority ledger is absent"
    demand (in_sequence 1 rows) "authority ledger sequence is broken or forked"
    e ← first_event rows
    demand (str_eq e.columns.operator_id operator) "authority ledger operator mismatch"
    demand (expected_or_any expected_store (store_of e.content))
        "authority ledger store identity mismatch"
    keys ← genesis_keys e
    entries ← verify_rows (store_of e.content) keys none 0 rows
    ok (store_of e.content, entries)

-- the keys, and the head, behind the entries
abbrev pub keys_after : List Key → List Entry → List Key
keys_after keys [] = keys
keys_after keys (e ∷ es) = keys_after e.keys es

abbrev pub digest_after : Option String → List Entry → Option String
digest_after head [] = head
digest_after head (e ∷ es) = digest_after (some e.digest) es
