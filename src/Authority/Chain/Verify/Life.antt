-- ===== src/Authority/Chain/Verify/Life.antt =====
-- The life of a key in a chain that `verify_authority_chain` accepts.
use imprint.Base.{
  ℕ, zero, suc, String, ◌≡◌, refl, sym, ap, ◌∙◌, ◌≢◌, true, false, Option, none, some, List, [],
  ◌∷◌, ◌++◌, map, length, All, distinct,
}
use mathlib.Core.Path.{subst}
use imprint.Ontology.Fault.{ok}
use imprint.Authority.Chain.{Event, LedgerRow, Key, External}
use imprint.Authority.Chain.Keys.{is_active, get_key, key_id_of}
use imprint.Authority.Chain.Keys.Table.{some_injective, ids, Change-distinct, Change-frozen}
use imprint.Authority.Chain.Apply.Ends.{ok_injective}
use imprint.Authority.Chain.Verify.{
  Entry, verify_row, verify_rows, verify_events, keys_after, digest_after, stamp_digest,
}
use imprint.Authority.Chain.Verify.Steps.{
  Accepted, verify_row-Accepted, verify_row-Change, verify_rows-cons, signer_id,
}
use imprint.Authority.Chain.Verify.Start.{
  genesis_keys-distinct, verify_events-Started, verify_events-Extended,
}

ids-stamp : (digest : String) (ks : List Key) → ids (map (stamp_digest digest) ks) ≡ ids ks
ids-stamp digest [] = refl
ids-stamp digest (k ∷ ks) = ap (λ xs. key_id_of k ∷ xs) (ids-stamp digest ks)

keys_after-append :
    (keys : List Key) (es fs : List Entry)
    → keys_after keys (es ++ fs) ≡ keys_after (keys_after keys es) fs
keys_after-append keys [] fs = refl
keys_after-append keys (e ∷ es) fs = keys_after-append e.keys es fs

module _ (ext : External) (operator : String) (store : Option String) where
  -- behind any row the identities are distinct if they were
  verify_row-distinct :
      (keys : List Key) (head : Option String) (index : ℕ) (row : LedgerRow) (entry : Entry)
      → distinct (ids keys) ≡ true
      → verify_row ext operator store keys head index row ≡ ok entry
      → distinct (ids entry.keys) ≡ true
  verify_row-distinct keys head zero row entry unique h =
      let a = verify_row-Accepted ext operator store keys head zero row entry h in
      subst (λ xs. distinct (ids xs) ≡ true) (ok_injective _ entry.keys a.applied)
        (rw (ids-stamp _ keys) unique)
  verify_row-distinct keys head (suc index) row entry unique h =
      Change-distinct (verify_row-Change ext operator store keys head index row entry unique h)
        unique

  pub verify_rows-distinct :
      (keys : List Key) (head : Option String) (index : ℕ) (rows : List LedgerRow)
      (out : List Entry)
      → distinct (ids keys) ≡ true
      → verify_rows ext operator store keys head index rows ≡ ok out
      → All (λ (x : Entry). distinct (ids x.keys) ≡ true) out
  unfolding verify_rows
  verify_rows-distinct keys head index [] out unique h = subst (All _) (ok_injective [] out h) tt
  verify_rows-distinct keys head index (row ∷ rows) out unique h =
      let (entry, rest, it, h1, h2) =
        verify_rows-cons ext operator store keys head index row rows out h in
      let next = verify_row-distinct keys head index row entry unique h1 in
      subst (All _) (sym it)
        (next, verify_rows-distinct entry.keys (some entry.digest) (suc index) rows rest next h2)

  -- the event of a row, if it decodes, does not name an identity as its signer
  abbrev pub SignedByOther : String → LedgerRow → Type 0
  SignedByOther id row = (e : Event) → ext.decode row.event_json ≡ some e → signer_id e ≢ id

  pub keys_after-distinct :
      (keys : List Key) (out : List Entry)
      → distinct (ids keys) ≡ true
      → All (λ (x : Entry). distinct (ids x.keys) ≡ true) out
      → distinct (ids (keys_after keys out)) ≡ true
  keys_after-distinct keys [] unique h = unique
  keys_after-distinct keys (x ∷ out) unique h = keys_after-distinct x.keys out h.0 h.1

  frozen-SignedByOther :
      (keys : List Key) (head : Option String) (index : ℕ) (row : LedgerRow) (entry : Entry)
      (id : String) (k : Key)
      → get_key id keys ≡ some k
      → is_active k ≡ false
      → Accepted ext operator store keys head (suc index) row entry
      → SignedByOther id row
  frozen-SignedByOther keys head index row entry id k there off a e read same =
      let one : a.event ≡ e = some_injective a.event e (sym a.read ∙ read) in
      let named : signer_id a.event ≡ id = ap signer_id one ∙ same in
      let it : a.signer ≡ k =
        some_injective a.signer k (sym a.known ∙ ap (λ x. get_key x keys) named ∙ there) in
      let clash : true ≡ false = sym a.in_force ∙ ap is_active it ∙ off in cc clash

  pub verify_rows-frozen :
      (keys : List Key) (head : Option String) (index : ℕ) (rows : List LedgerRow)
      (out : List Entry) (id : String) (k : Key)
      → distinct (ids keys) ≡ true
      → get_key id keys ≡ some k
      → is_active k ≡ false
      → verify_rows ext operator store keys head (suc index) rows ≡ ok out
      → All (SignedByOther id) rows × (get_key id (keys_after keys out) ≡ some k)
  unfolding verify_rows
  verify_rows-frozen keys head index [] out id k unique there off h =
      (tt, subst (λ xs. get_key id (keys_after keys xs) ≡ some k) (ok_injective [] out h) there)
  verify_rows-frozen keys head index (row ∷ rows) out id k unique there off h =
      let (entry, rest, it, h1, h2) =
        verify_rows-cons ext operator store keys head (suc index) row rows out h in
      let change = verify_row-Change ext operator store keys head index row entry unique h1 in
      let a = verify_row-Accepted ext operator store keys head (suc index) row entry h1 in
      let (later, at) =
        verify_rows-frozen entry.keys (some entry.digest) (suc index) rows rest id k
          (Change-distinct change unique) (Change-frozen id k change there off) off h2 in
      (
        (frozen-SignedByOther keys head index row entry id k there off a, later),
        subst (λ (xs : List Entry). get_key id (keys_after keys xs) ≡ some k) (sym it) at,
      )

module _ (ext : External) (operator : String) where
  -- In every snapshot of an accepted ledger, each key identity stands once.
  pub verify_events-distinct :
      (expected : Option String) (rows : List LedgerRow) (store : Option String) (out : List Entry)
      → verify_events ext operator expected rows ≡ ok (store, out)
      → All (λ (x : Entry). distinct (ids x.keys) ≡ true) out
  verify_events-distinct expected rows store out h =
      let s = verify_events-Started ext operator expected rows store out h in
      verify_rows-distinct ext operator store s.keys none 0 rows out
        (genesis_keys-distinct ext operator store s.event s.keys s.bound) s.ran

  -- Once a key is retired, revoked or compromised in an accepted ledger, no event that is appended
  -- to the ledger names it as its signer, and its entry never changes again.
  pub inactive_for_ever :
      (expected expected2 : Option String) (older newer : List LedgerRow)
      (store store2 : Option String) (es out : List Entry) (id : String) (k : Key)
      → verify_events ext operator expected older ≡ ok (store, es)
      → verify_events ext operator expected2 (older ++ newer) ≡ ok (store2, out)
      → get_key id (keys_after [] es) ≡ some k
      → is_active k ≡ false
      → All (SignedByOther ext operator store id) newer × (get_key id (keys_after [] out) ≡ some k)
  unfolding get_key
  inactive_for_ever expected expected2 [] newer store store2 es out id k h h2 there off =
      let s = verify_events-Started ext operator expected [] store es h in
      let clash = s.first in cc clash
  inactive_for_ever expected expected2 (r ∷ rs) newer store store2 [] out id k h h2 there off = cc
  inactive_for_ever expected expected2 (r ∷ rs) newer store store2 (x ∷ es) out id k h h2 there
        off =
      let a =
        verify_events-Extended ext operator expected expected2 (r ∷ rs) newer store store2 (x ∷ es)
          out h h2 in
      let start = keys_after x.keys es in
      let (never, kept) =
        verify_rows-frozen ext operator store start (digest_after none (x ∷ es)) (length rs) newer
          a.newer_entries id k
          (keys_after-distinct ext operator store a.keys (x ∷ es) a.unique
            (verify_events-distinct expected (r ∷ rs) store (x ∷ es) h))
          there off a.goes_on in
      (never, rw (a.appended, keys_after-append x.keys es a.newer_entries) kept)
