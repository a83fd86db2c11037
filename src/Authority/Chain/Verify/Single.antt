-- ===== src/Authority/Chain/Verify/Single.antt =====
-- The active installation keys behind a ledger that `verify_authority_chain` accepts.
use imprint.Base.{
  ℕ, suc, String, ◌≡◌, refl, sym, ap, Bool, true, false, not, ◌&&◌, ◌||◌, Option, none, some, List,
  [], ◌∷◌, map, arith, str_eq, All,
}
use mathlib.Core.Path.{subst}
use imprint.Ontology.Fault.{ok, >>=-eq-ok, demand->>-ok}
use imprint.Authority.Chain.{
  Event, LedgerRow, Key, External, Certificate, Content, genesis, lifecycle, recovery,
}
use imprint.Authority.Chain.Keys.{is_installation, get_key, key_id_of, new_chain_key, certify}
use imprint.Authority.Chain.Keys.Table.{new_chain_key-eq, get_key-id}
use imprint.Authority.Chain.Apply.Ends.{ok_injective}
use imprint.Authority.Chain.Apply.Single.{OneActive, representatives, apply_event-OneActive}
use imprint.Authority.Chain.Verify.{
  Entry, verify_row, verify_rows, verify_events, genesis_keys, genesis_content, with_recovery,
  machine_key, stamp_digest, apply_lifecycle, is_present,
}
use imprint.Authority.Chain.Verify.Steps.{verify_row-Accepted, verify_rows-cons, signer_id}
use imprint.Authority.Chain.Verify.Start.{verify_events-Started}

representatives-stamp :
    (install digest : String) (ks : List Key)
    → representatives install (map (stamp_digest digest) ks) ≡ representatives install ks
representatives-stamp install digest [] = refl
representatives-stamp install digest (k ∷ ks) =
    ground (arith, representatives-stamp install digest ks)

both-left : (a b : Bool) → (a && b) ≡ true → a ≡ true
both-left a b h = ground arith

both-right : (a b : Bool) → (a && b) ≡ true → b ≡ true
both-right a b h = ground arith

abbrev kind_ok : Option Key → Bool
kind_ok none = false
kind_ok (some k) = is_installation k.kind

abbrev rotation_ok : List Key → Option Event → Bool
rotation_ok keys none = true
rotation_ok keys (some e) =
    not (str_eq e.columns.event_type "key_rotated") || kind_ok (get_key (signer_id e) keys)

module _ (ext : External) where
  -- the rotations among the rows behind the entries are signed by installation keys
  abbrev pub rotations_ok : List Key → List LedgerRow → List Entry → Bool
  rotations_ok keys [] out = true
  rotations_ok keys (r ∷ rows) [] = true
  rotations_ok keys (r ∷ rows) (x ∷ out) =
      rotation_ok keys (ext.decode r.event_json) && rotations_ok x.keys rows out

  -- the same behind the genesis
  abbrev pub later_rotations_ok : List LedgerRow → List Entry → Bool
  later_rotations_ok [] out = true
  later_rotations_ok (r ∷ rows) [] = true
  later_rotations_ok (r ∷ rows) (x ∷ out) = rotations_ok x.keys rows out

module _ (ext : External) (operator : String) (store : Option String) where
  apply_lifecycle-OneActive :
      (index : ℕ) (digest : String) (e : Event) (signer : Key) (keys out : List Key)
      (content : Content)
      → get_key (key_id_of signer) keys ≡ some signer
      → (str_eq e.columns.event_type "key_rotated" ≡ true → is_installation signer.kind ≡ true)
      → OneActive keys
      → apply_lifecycle ext operator store index digest e signer keys content ≡ ok out
      → OneActive out
  unfolding apply_lifecycle
  apply_lifecycle-OneActive index digest e signer keys out (genesis g) there rotates one h = cc
  apply_lifecycle-OneActive index digest e signer keys out (lifecycle version separator details)
        there rotates one h =
      let (_, h1) =
        demand->>-ok
          (is_present e.signed_by_key_id
            && str_eq version "imprint.authority.ledger-event/1.1.0"
            && str_eq separator "imprint-authority-ledger-v1")
          _ _ h in
      apply_event-OneActive ext operator store (suc index) digest e signer keys e.columns.event_type
        details out there rotates one h1

  rotated_by :
      (keys : List Key) (o : Option Event) (e : Event) (signer : Key)
      → o ≡ some e
      → get_key (signer_id e) keys ≡ some signer
      → rotation_ok keys o ≡ true
      → str_eq e.columns.event_type "key_rotated" ≡ true
      → is_installation signer.kind ≡ true
  rotated_by keys o e signer read there h is =
      let at : rotation_ok keys (some e) ≡ true = subst (λ x. rotation_ok keys x ≡ true) read h in
      let kind : kind_ok (get_key (signer_id e) keys) ≡ true = ground arith in
      subst (λ x. kind_ok x ≡ true) there kind

  verify_row-OneActive :
      (keys : List Key) (head : Option String) (index : ℕ) (row : LedgerRow) (entry : Entry)
      → rotation_ok keys (ext.decode row.event_json) ≡ true
      → OneActive keys
      → verify_row ext operator store keys head (suc index) row ≡ ok entry
      → OneActive entry.keys
  verify_row-OneActive keys head index row entry rotates one h =
      let a = verify_row-Accepted ext operator store keys head (suc index) row entry h in
      let id = get_key-id (signer_id a.event) keys a.signer a.known in
      apply_lifecycle-OneActive (suc index) _ a.event a.signer keys entry.keys a.event.content
        (subst (λ x. get_key x keys ≡ some a.signer) (sym id) a.known)
        (rotated_by keys (ext.decode row.event_json) a.event a.signer a.read a.known rotates) one
        a.applied

  verify_rows-OneActive :
      (keys : List Key) (head : Option String) (index : ℕ) (rows : List LedgerRow)
      (out : List Entry)
      → rotations_ok ext keys rows out ≡ true
      → OneActive keys
      → verify_rows ext operator store keys head (suc index) rows ≡ ok out
      → All (λ (x : Entry). OneActive x.keys) out
  unfolding verify_rows
  verify_rows-OneActive keys head index [] out rotates one h =
      subst (All _) (ok_injective [] out h) tt
  verify_rows-OneActive keys head index (row ∷ rows) out rotates one h =
      let (entry, rest, it, h1, h2) =
        verify_rows-cons ext operator store keys head (suc index) row rows out h in
      let r : rotations_ok ext keys (row ∷ rows) (entry ∷ rest) ≡ true =
        subst (λ xs. rotations_ok ext keys (row ∷ rows) xs ≡ true) it rotates in
      let r1 : rotation_ok keys (ext.decode row.event_json) ≡ true = both-left _ _ r in
      let r2 : rotations_ok ext entry.keys rows rest ≡ true = both-right _ _ r in
      let next = verify_row-OneActive keys head index row entry r1 one h1 in
      subst (All _) (sym it) (
        next,
        verify_rows-OneActive entry.keys (some entry.digest) (suc index) rows rest r2 next h2,
      )

  with_recovery-OneActive :
      (e : Event) (machine : Key) (binding : Option Certificate) (keys : List Key)
      → with_recovery ext operator e machine binding ≡ ok keys
      → OneActive keys
  with_recovery-OneActive e machine none keys h =
      subst OneActive (ok_injective (machine ∷ []) keys h) (λ install. ground arith)
  with_recovery-OneActive e machine (some c) keys h =
      let (k, h1, h2) = >>=-eq-ok (new_chain_key ext c none recovery) _ h in
      let (_, h3) = demand->>-ok (not (str_eq c.key_id (key_id_of machine))) _ _ h2 in
      let kind : is_installation k.kind ≡ false =
        ap (λ (x : Key). is_installation x.kind) (new_chain_key-eq ext c none recovery k h1) in
      subst OneActive (ok_injective (machine ∷ certify 1 none e.columns.created_at k ∷ []) keys h3)
        (λ install. ground (arith, kind))

  genesis_keys-OneActive :
      (e : Event) (keys : List Key) → genesis_keys ext operator e ≡ ok keys → OneActive keys
  unfolding genesis_keys
  genesis_keys-OneActive e keys h =
      let (g, h1, h2) = >>=-eq-ok (genesis_content ext operator e.content) _ h in
      with_recovery-OneActive e (machine_key ext operator e g) g.recovery_binding keys h2

module _ (ext : External) (operator : String) where
  -- In every snapshot of an accepted ledger, each installation has one active installation key at
  -- most, if every rotation behind the genesis is signed by an installation key.
  pub verify_events-OneActive :
      (expected : Option String) (rows : List LedgerRow) (store : Option String) (out : List Entry)
      → verify_events ext operator expected rows ≡ ok (store, out)
      → later_rotations_ok ext rows out ≡ true
      → All (λ (x : Entry). OneActive x.keys) out
  verify_events-OneActive expected [] store [] h rotates = tt
  verify_events-OneActive expected [] store (x ∷ out) h rotates =
      let s = verify_events-Started ext operator expected [] store (x ∷ out) h in
      let clash = s.first in cc clash
  verify_events-OneActive expected (r ∷ rows) store out h rotates =
      let s = verify_events-Started ext operator expected (r ∷ rows) store out h in
      let (entry, rest, it, h1, h2) =
        verify_rows-cons ext operator store s.keys none 0 r rows out s.ran in
      let a = verify_row-Accepted ext operator store s.keys none 0 r entry h1 in
      let start = genesis_keys-OneActive ext operator store s.event s.keys s.bound in
      let first : OneActive entry.keys =
        subst OneActive (ok_injective _ entry.keys a.applied)
          (λ install. rw (representatives-stamp install _ s.keys) (start install)) in
      let later : rotations_ok ext entry.keys rows rest ≡ true =
        subst (λ xs. later_rotations_ok ext (r ∷ rows) xs ≡ true) it rotates in
      subst (All _) (sym it) (
        first,
        verify_rows-OneActive ext operator store entry.keys (some entry.digest) 0 rows rest later
            first h2,
      )
