-- ===== src/Authority/Chain/Append.antt =====
-- authority/ledger.py: `genesis_event`, `insert_genesis` and `append_ledger_event`. The identity of
-- an event and the time come as arguments; `approve` may refuse the event before it is signed.
pub mod Verified
use imprint.Base.{
  ℕ, zero, suc, ◌+◌, ◌-◌, ◌*◌, ◌/◌, ◌%◌, ◌≤◌, ◌<◌, String, ◌≡◌, refl, sym, ap, ◌∙◌, ◌≢◌, ◌↔◌, ◌⊎◌,
  inl, inr, Bool, true, false, not, ◌&&◌, ◌||◌, Option, none, some, List, [], ◌∷◌, ◌++◌, map,
  reverse, arith, ltb, leb, ◌==◌, str_eq, str_eq_iff, if◌then◌else◌, Bool-cases, Option-cases,
  tests, length, length-append, keep, all, any, All, mem, distinct, ℤ, pos, negsuc, pos_part,
  neg_part, sub_ℕ, negate_ℕ, negate, ltbℤ, eqbℤ, codes, codes_eq, has_text, is_digit, is_lower,
  text_lt,
}
use imprint.Ontology.Fault.{Checked, ok, err, validation_error, demand, ◌>>=◌, ◌>>◌}
use imprint.Authority.Chain.{
  Certificate, Blob, Details, Genesis, Content, genesis, lifecycle, Columns, Event, LedgerRow,
  External, event_digest,
}

-- the metadata of a key that is enrolled
pub record Metadata : Type 0 where
  pub operator_id : String
  pub install_id : String
  pub store_identity : String
  pub key_id : String
  pub public_key_b64 : String
  pub public_key_fingerprint : String
  pub enrollment_nonce : String
  pub created_at : String

abbrev pub genesis_event : Metadata → Blob → Option Certificate → String → Event
genesis_event m blob recovery_binding event_id = record {
  sequence = pos 1;
  columns = record {
    event_id = event_id;
    event_type = "enrollment";
    operator_id = m.operator_id;
    install_id = m.install_id;
    key_id = m.key_id;
    previous_event_sha256 = none;
    created_at = m.created_at;
  };
  signed_by_key_id = none;
  content = genesis (record {
    contract_version = "imprint.authority.ledger-event/1.0.0";
    domain_separator = "imprint-authority-ledger-v1";
    store_identity = m.store_identity;
    public_key_b64 = m.public_key_b64;
    public_key_fingerprint = m.public_key_fingerprint;
    enrollment_nonce = m.enrollment_nonce;
    status = "active";
    blob = blob;
    recovery_binding = recovery_binding;
  });
}

abbrev pub last_row : List LedgerRow → Option LedgerRow
last_row [] = none
last_row (r ∷ []) = some r
last_row (r ∷ s ∷ rs) = last_row (s ∷ rs)

module _ (ext : External) where
  -- the row of an event that a private key signs
  abbrev pub signed_row : ℕ → Event → String → LedgerRow
  signed_row sequence e private_key = record {
    sequence = sequence;
    event_json = ext.canonical e;
    event_sha256 = event_digest ext e;
    columns = e.columns;
    signature_b64 = ext.sign private_key e;
  }

  abbrev already_enrolled : List LedgerRow → Bool
  already_enrolled [] = false
  already_enrolled (r ∷ rs) = true

  -- the rows of authority_ledger after `insert_genesis`
  unfoldable pub insert_genesis :
      (Event → Checked (Unit {0}))
      → List LedgerRow
      → Metadata
      → Blob
      → Option Certificate
      → String
      → String
      → Checked (List LedgerRow)
  insert_genesis approve rows m blob recovery_binding event_id private_key = do
    demand (not (already_enrolled rows)) "authority is already enrolled"
    let e = genesis_event m blob recovery_binding event_id
    approve e
    ok (signed_row 1 e private_key ∷ [])

  -- the event behind a head
  abbrev pub next_event :
      LedgerRow → String → String → String → String → Details → String → String → String → Event
  next_event head event_type operator_id install_id key_id details signer_key_id event_id
        created_at =
      record {
        sequence = pos (suc head.sequence);
        columns = record {
          event_id = event_id;
          event_type = event_type;
          operator_id = operator_id;
          install_id = install_id;
          key_id = key_id;
          previous_event_sha256 = some head.event_sha256;
          created_at = created_at;
        };
        signed_by_key_id = some signer_key_id;
        content =
            lifecycle "imprint.authority.ledger-event/1.1.0" "imprint-authority-ledger-v1" details;
      }

  abbrev head_row : Option LedgerRow → Checked LedgerRow
  head_row none = err (validation_error "authority lifecycle event requires an enrolled ledger")
  head_row (some r) = ok r

  -- the rows of authority_ledger after `append_ledger_event`
  unfoldable pub append_ledger_event :
      (Event → Checked (Unit {0}))
      → List LedgerRow
      → String
      → String
      → String
      → String
      → Details
      → String
      → String
      → String
      → String
      → Checked (List LedgerRow)
  append_ledger_event approve rows event_type operator_id install_id key_id details signer_key_id
        private_key event_id created_at =
      do
        head ← head_row (last_row rows)
        let e =
            next_event head event_type operator_id install_id key_id details signer_key_id event_id
              created_at
        approve e
        ok (rows ++ signed_row (suc head.sequence) e private_key ∷ [])
