-- ===== src/Authority/Chain/Verify/Steps.antt =====
-- What `verify_authority_chain` has checked of a row that it accepts, and what the row does to the
-- keys.
use imprint.Base.{
  ℕ, suc, String, ◌≡◌, refl, sym, ap, ◌∙◌, Bool, true, ◌&&◌, Option, none, some, List, ◌∷◌, arith,
  str_eq, str_eq_iff, distinct, pos, eqbℤ,
}
use imprint.Base.{eqbℤ-eq}
use mathlib.Core.Path.{subst}
use imprint.Ontology.Fault.{ok, >>=-eq-ok, demand->>-ok}
use imprint.Authority.Chain.{
  Event, LedgerRow, Key, External, event_digest, Content, genesis, lifecycle,
}
use imprint.Authority.Chain.Keys.{is_active, get_key}
use imprint.Authority.Chain.Keys.Table.{Change, ids}
use imprint.Authority.Chain.Apply.{active_key}
use imprint.Authority.Chain.Apply.Ends.{active_key-ok, ok_injective}
use imprint.Authority.Chain.Apply.Changes.{apply_event-Change}
use imprint.Authority.Chain.Verify.{
  Entry, eq_or_none, same_columns, or_else, is_present, apply_lifecycle, take_effect, decoded,
  check_event, verify_row, verify_rows,
}

-- the key that an event names as its signer
abbrev pub signer_id : Event → String
signer_id e = or_else e.signed_by_key_id e.columns.key_id

pub eq_or_none-eq : (a b : Option String) → eq_or_none a b ≡ true → a ≡ b
eq_or_none-eq none none h = refl
eq_or_none-eq (some a) (some b) h = ap some ((str_eq_iff a b).0 h)
eq_or_none-eq none (some b) h = cc
eq_or_none-eq (some a) none h = cc

module _ (ext : External) (operator : String) (store : Option String) where
  pub record Accepted (keys : List Key) (head : Option String) (index : ℕ) (row : LedgerRow)
      (entry : Entry) : Type 0 where
    pub event : Event
    pub read : ext.decode row.event_json ≡ some event
    pub digest : entry.digest ≡ event_digest ext event
    pub stored : event_digest ext event ≡ row.event_sha256
    pub numbered : event.sequence ≡ pos (suc index)
    pub linked : event.columns.previous_event_sha256 ≡ head
    pub signer : Key
    pub known : get_key (signer_id event) keys ≡ some signer
    pub in_force : is_active signer ≡ true
    pub signed : ext.verifies signer.certified.public_key_b64 row.signature_b64 event ≡ true
    pub applied :
        take_effect ext operator store index (event_digest ext event) event signer keys
        ≡ ok entry.keys

  decoded-ok : (o : Option Event) (e : Event) → decoded ext operator store o ≡ ok e → o ≡ some e
  decoded-ok none e h = cc
  decoded-ok (some d) e h = ap some (ok_injective d e h)

  both_true : (a b : Bool) → (a && b) ≡ true → (a ≡ true) × (b ≡ true)
  both_true a b h = ground arith

  check_event-ok :
      (keys : List Key) (head : Option String) (index : ℕ) (row : LedgerRow) (e : Event)
      (signer : Key)
      → check_event ext operator store keys head index row e ≡ ok signer
      → (event_digest ext e ≡ row.event_sha256)
        × (e.sequence ≡ pos (suc index))
        × (e.columns.previous_event_sha256 ≡ head)
        × (get_key (signer_id e) keys ≡ some signer)
        × (is_active signer ≡ true)
        × (ext.verifies signer.certified.public_key_b64 row.signature_b64 e ≡ true)
  unfolding check_event
  check_event-ok keys head index row e signer h =
      let same = str_eq (event_digest ext e) row.event_sha256 in
      let at = eqbℤ e.sequence (pos (suc index)) in
      let (a, k1) = demand->>-ok (same && at) _ _ h in
      let (a1, a2) = both_true same at a in
      let (_, k2) = demand->>-ok (same_columns e.columns row.columns) _ _ k1 in
      let (_, k3) = demand->>-ok (str_eq e.columns.operator_id operator) _ _ k2 in
      let (b, k4) = demand->>-ok (eq_or_none e.columns.previous_event_sha256 head) _ _ k3 in
      let (s, k5, k6) = >>=-eq-ok (active_key (signer_id e) keys _) _ k4 in
      let (c, k7) =
        demand->>-ok (ext.verifies s.certified.public_key_b64 row.signature_b64 e) _ _ k6 in
      let it : s ≡ signer = ok_injective s signer k7 in
      let (found, on) = active_key-ok (signer_id e) keys _ signer (k5 ∙ k7) in
      (
        (str_eq_iff (event_digest ext e) row.event_sha256).0 a1,
        eqbℤ-eq e.sequence (pos (suc index)) a2,
        eq_or_none-eq e.columns.previous_event_sha256 head b,
        found,
        on,
        subst (λ (x : Key). ext.verifies x.certified.public_key_b64 row.signature_b64 e ≡ true) it
            c,
      )

  pub verify_row-Accepted :
      (keys : List Key) (head : Option String) (index : ℕ) (row : LedgerRow) (entry : Entry)
      → verify_row ext operator store keys head index row ≡ ok entry
      → Accepted keys head index row entry
  unfolding verify_row
  verify_row-Accepted keys head index row entry h =
      let (e, h1, h2) = >>=-eq-ok (decoded ext operator store (ext.decode row.event_json)) _ h in
      let (signer, h3, h4) =
        >>=-eq-ok (check_event ext operator store keys head index row e) _ h2 in
      let (next, h5, h6) =
        >>=-eq-ok (take_effect ext operator store index (event_digest ext e) e signer keys) _ h4 in
      let it : record { digest = event_digest ext e; keys = next } ≡ entry =
        ok_injective _ entry h6 in
      let (stored, numbered, linked, known, in_force, signed) =
        check_event-ok keys head index row e signer h3 in
      record {
        event = e;
        read = decoded-ok (ext.decode row.event_json) e h1;
        digest = sym (ap (λ (x : Entry). x.digest) it);
        stored = stored;
        numbered = numbered;
        linked = linked;
        signer = signer;
        known = known;
        in_force = in_force;
        signed = signed;
        applied = h5 ∙ ap (λ (x : Entry). ok x.keys) it;
      }

  apply_lifecycle-Change :
      (index : ℕ) (digest : String) (e : Event) (signer : Key) (keys out : List Key)
      (content : Content)
      → distinct (ids keys) ≡ true
      → apply_lifecycle ext operator store index digest e signer keys content ≡ ok out
      → Change keys out
  unfolding apply_lifecycle
  apply_lifecycle-Change index digest e signer keys out (genesis g) unique h = cc
  apply_lifecycle-Change index digest e signer keys out (lifecycle version separator details) unique
        h =
      let (_, h1) =
        demand->>-ok
          (is_present e.signed_by_key_id
            && str_eq version "imprint.authority.ledger-event/1.1.0"
            && str_eq separator "imprint-authority-ledger-v1")
          _ _ h in
      apply_event-Change ext operator store (suc index) digest e signer keys e.columns.event_type
        details out unique h1

  -- a row behind the genesis
  pub verify_row-Change :
      (keys : List Key) (head : Option String) (index : ℕ) (row : LedgerRow) (entry : Entry)
      → distinct (ids keys) ≡ true
      → verify_row ext operator store keys head (suc index) row ≡ ok entry
      → Change keys entry.keys
  verify_row-Change keys head index row entry unique h =
      let a = verify_row-Accepted keys head (suc index) row entry h in
      apply_lifecycle-Change (suc index) _ a.event a.signer keys entry.keys a.event.content unique
        a.applied

  pub verify_rows-cons :
      (keys : List Key) (head : Option String) (index : ℕ) (row : LedgerRow) (rows : List LedgerRow)
      (out : List Entry)
      → verify_rows ext operator store keys head index (row ∷ rows) ≡ ok out
      → (entry : Entry) × (rest : List Entry) × (out ≡ entry ∷ rest)
        × (verify_row ext operator store keys head index row ≡ ok entry)
        × (verify_rows ext operator store entry.keys (some entry.digest) (suc index) rows ≡ ok rest)
  unfolding verify_rows
  verify_rows-cons keys head index row rows out h =
      let (entry, h1, h2) = >>=-eq-ok (verify_row ext operator store keys head index row) _ h in
      let (rest, h3, h4) =
        >>=-eq-ok (verify_rows ext operator store entry.keys (some entry.digest) (suc index) rows) _
          h2 in
      (entry, rest, sym (ok_injective (entry ∷ rest) out h4), h1, h3)
