-- ===== src/Authority/Chain/Append/Verified.antt =====
-- `append_ledger_event` and `verify_authority_chain` of authority/ledger.py: a ledger before and
-- behind one more event.
use imprint.Base.{
  ℕ, suc, ◌+◌, String, ◌≡◌, refl, sym, ap, ◌∙◌, Bool, true, ◌&&◌, Option, none, some, List, [], ◌∷◌,
  ◌++◌, arith, ◌==◌, length,
}
use imprint.Base.{str_eq_refl}
use mathlib.Core.Path.{subst}
use imprint.Ontology.Fault.{ok}
use imprint.Authority.Chain.{
  Event, LedgerRow, Key, External, event_digest, Columns, pos, eqbℤ, str_eq, Details, str_eq_iff,
}
use imprint.Authority.Chain.Keys.{is_active, get_key}
use imprint.Authority.Chain.Keys.Table.{some_injective}
use imprint.Authority.Chain.Apply.{active_key, apply_event}
use imprint.Authority.Chain.Apply.Ends.{ok_injective}
use imprint.Authority.Chain.Verify.{
  Entry, verify_rows, digest_after, same_columns, eq_or_none, in_sequence, verify_row, check_event,
  apply_lifecycle, verify_events, keys_after,
}
use imprint.Authority.Chain.Verify.Steps.{signer_id, verify_row-Accepted, verify_rows-cons}
use imprint.Authority.Chain.Verify.Start.{verify_events-Started, Started-verify_events}
use imprint.Authority.Chain.Verify.Prefix.{verify_rows-join}
use imprint.Authority.Chain.Verify.{apply_lifecycle}
use imprint.Authority.Chain.Append.{
  append_ledger_event, next_event, last_row, signed_row, Checked, next_event,
}

eq_or_none_refl : (a : Option String) → eq_or_none a a ≡ true
eq_or_none_refl none = refl
eq_or_none_refl (some a) = str_eq_refl a

same_columns_refl : (c : Columns) → same_columns c c ≡ true
unfolding same_columns
same_columns_refl c = simp (str_eq_refl, eq_or_none_refl)

active_key-found :
    (id : String) (keys : List Key) (message : String) (k : Key)
    → get_key id keys ≡ some k
    → is_active k ≡ true
    → active_key id keys message ≡ ok k
unfolding active_key
active_key-found id keys message k there on = rw (there, on) refl

and-right : (a b : Bool) → (a && b) ≡ true → b ≡ true
and-right a b h = ground arith

module _ (ext : External) (operator : String) where
  numbered-last :
      (n : ℕ) (rows : List LedgerRow) (r : LedgerRow)
      → in_sequence ext operator n rows ≡ true
      → last_row rows ≡ some r
      → suc r.sequence ≡ n + length rows
  numbered-last n [] r h at = cc
  numbered-last n (x ∷ []) r h at =
      let same : x ≡ r = some_injective x r at in
      subst (λ (y : LedgerRow). suc y.sequence ≡ n + 1) same (ground arith)
  numbered-last n (x ∷ y ∷ rows) r h at =
      let rest = numbered-last (suc n) (y ∷ rows) r (and-right (x.sequence == n) _ h) at in
      omega (arith, rest)

  in_sequence-append :
      (n : ℕ) (rows : List LedgerRow) (new : LedgerRow)
      → in_sequence ext operator n rows ≡ true
      → new.sequence ≡ n + length rows
      → in_sequence ext operator n (rows ++ new ∷ []) ≡ true
  in_sequence-append n [] new h at = ground arith
  in_sequence-append n (x ∷ rows) new h at =
      let rest =
        in_sequence-append (suc n) rows new (and-right (x.sequence == n) _ h) (omega (arith, at)) in
      ground (arith, rest)

  last-digest :
      (store : Option String) (keys : List Key) (head : Option String) (index : ℕ)
      (rows : List LedgerRow) (out : List Entry) (r : LedgerRow)
      → verify_rows ext operator store keys head index rows ≡ ok out
      → last_row rows ≡ some r
      → digest_after head out ≡ some r.event_sha256
  unfolding verify_rows
  last-digest store keys head index [] out r h at = cc
  last-digest store keys head index (x ∷ []) out r h at =
      let (entry, rest, it, h1, h2) =
        verify_rows-cons ext operator store keys head index x [] out h in
      let a = verify_row-Accepted ext operator store keys head index x entry h1 in
      let nil : [] ≡ rest = ok_injective [] rest h2 in
      let same : x ≡ r = some_injective x r at in
      rw (it, sym nil) (ap some (a.digest ∙ a.stored ∙ ap (λ (y : LedgerRow). y.event_sha256) same))
  last-digest store keys head index (x ∷ y ∷ rows) out r h at =
      let (entry, rest, it, h1, h2) =
        verify_rows-cons ext operator store keys head index x (y ∷ rows) out h in
      rw it (last-digest store entry.keys (some entry.digest) (suc index) (y ∷ rows) rest r h2 at)

zero_plus : (n : ℕ) → 0 + n ≡ n
zero_plus n = omega arith

number_refl : (n : ℕ) → (n == n) ≡ true
number_refl n = ground arith

module _ (ext : External) (operator : String) (store : Option String) where
  signed_row-verified :
      (keys : List Key) (head : Option String) (m n : ℕ) (e : Event) (private_key : String)
      (k : Key) (next : List Key)
      → ext.decode (ext.canonical e) ≡ some e
      → e.sequence ≡ pos (suc (suc m))
      → e.columns.operator_id ≡ operator
      → e.columns.previous_event_sha256 ≡ head
      → get_key (signer_id e) keys ≡ some k
      → is_active k ≡ true
      → ext.verifies k.certified.public_key_b64 (ext.sign private_key e) e ≡ true
      → apply_lifecycle ext operator store (suc m) (event_digest ext e) e k keys e.content ≡ ok next
      → verify_row ext operator store keys head (suc m) (signed_row ext n e private_key)
        ≡ ok (record { digest = event_digest ext e; keys = next })
  unfolding verify_row check_event
  signed_row-verified keys head m n e private_key k next read numbered mine linked there on signed
        applied =
      let t1 : eqbℤ e.sequence (pos (suc (suc m))) ≡ true =
        subst (λ x. eqbℤ x (pos (suc (suc m))) ≡ true) (sym numbered) (number_refl (suc (suc m))) in
      let t2 : str_eq e.columns.operator_id operator ≡ true =
        (str_eq_iff e.columns.operator_id operator).1 mine in
      let t3 : eq_or_none e.columns.previous_event_sha256 head ≡ true =
        subst (λ x. eq_or_none e.columns.previous_event_sha256 x ≡ true) linked
          (eq_or_none_refl e.columns.previous_event_sha256) in
      let known =
        active_key-found (signer_id e) keys "authority ledger event signer is unknown or inactive" k
          there on in
      rw
        (
          read,
          str_eq_refl (event_digest ext e),
          t1,
          same_columns_refl e.columns,
          t2,
          t3,
          known,
          signed,
          applied,
        )
        refl

module _ (ext : External) (operator : String) (store : Option String) where
  keys_after-any :
      (keys keys2 keys3 : List Key) (head : Option String) (index : ℕ) (r : LedgerRow)
      (rows : List LedgerRow) (out : List Entry)
      → verify_rows ext operator store keys head index (r ∷ rows) ≡ ok out
      → keys_after keys2 out ≡ keys_after keys3 out
  keys_after-any keys keys2 keys3 head index r rows out h =
      let (entry, rest, it, h1, h2) =
        verify_rows-cons ext operator store keys head index r rows out h in
      rw it refl

  -- one row behind a ledger
  row_behind :
      (keys : List Key) (r : LedgerRow) (rows : List LedgerRow) (new : LedgerRow) (out : List Entry)
      (entry : Entry)
      → verify_rows ext operator store keys none 0 (r ∷ rows) ≡ ok out
      → verify_row ext operator store
          (keys_after [] out)
          (digest_after none out)
          (suc (length rows))
          new
        ≡ ok entry
      → verify_rows ext operator store keys none 0 (r ∷ rows ++ new ∷ []) ≡ ok (out ++ entry ∷ [])
  unfolding verify_rows
  row_behind keys r rows new out entry h k =
      let same = keys_after-any keys [] keys none 0 r rows out h in
      let one : verify_rows ext operator store (keys_after keys out) (digest_after none out)
            (suc (length rows)) (new ∷ [])
          ≡ ok (entry ∷ []) =
        rw (sym same, k) refl in
      verify_rows-join ext operator store keys none 0 (r ∷ rows) (new ∷ []) out (entry ∷ []) h (
        subst
          (λ n.
            verify_rows ext operator store (keys_after keys out) (digest_after none out) n
              (new ∷ [])
            ≡ ok (entry ∷ []))
          (sym (zero_plus (suc (length rows)))) one)

module _ (ext : External) (operator : String) where
  -- A signed event behind an accepted ledger: if the event names the operator, its signer is active
  -- there and has the private key, the event decodes from its canonical form, its effect on the
  -- keys is accepted and `approve` lets it pass, then `append_ledger_event` appends it, and the
  -- ledger with it is accepted, with one more entry.
  pub append-verified :
      (approve : Event → Checked (Unit {0})) (expected store : Option String)
      (rows : List LedgerRow) (out : List Entry) (r : LedgerRow)
      (event_type install_id key_id : String) (details : Details)
      (signer_key_id private_key event_id created_at : String) (k : Key) (next : List Key)
      → let e =
          next_event ext r event_type operator install_id key_id details signer_key_id event_id
            created_at in
        verify_events ext operator expected rows ≡ ok (store, out)
        → last_row rows ≡ some r
        → approve e ≡ ok tt
        → ext.decode (ext.canonical e) ≡ some e
        → get_key signer_key_id (keys_after [] out) ≡ some k
        → is_active k ≡ true
        → ext.verifies k.certified.public_key_b64 (ext.sign private_key e) e ≡ true
        → apply_event ext operator store
            (suc r.sequence)
            (event_digest ext e)
            e
            k
            (keys_after [] out)
            event_type
            details
          ≡ ok next
        → let new = signed_row ext (suc r.sequence) e private_key in
          (append_ledger_event ext approve rows event_type operator install_id key_id details
              signer_key_id private_key event_id created_at
            ≡ ok (rows ++ new ∷ []))
          × (verify_events ext operator expected (rows ++ new ∷ [])
              ≡ ok (store, out ++ record { digest = event_digest ext e; keys = next } ∷ []))
  unfolding append_ledger_event apply_lifecycle
  append-verified approve expected store [] out r event_type install_id key_id details signer_key_id
        private_key event_id created_at k next h last approved read there on signed applied =
      cc
  append-verified approve expected store (x ∷ rows) out r event_type install_id key_id details
        signer_key_id private_key event_id created_at k next h last approved read there on signed
        applied =
      let e =
        next_event ext r event_type operator install_id key_id details signer_key_id event_id
          created_at in
      let new = signed_row ext (suc r.sequence) e private_key in
      let s = verify_events-Started ext operator expected (x ∷ rows) store out h in
      let at : suc r.sequence ≡ 1 + length (x ∷ rows) =
        numbered-last ext operator 1 (x ∷ rows) r s.sequenced last in
      let count : suc (suc (length rows)) ≡ suc r.sequence = omega (arith, at) in
      let effect : apply_lifecycle ext operator store (suc (length rows)) (event_digest ext e) e k
            (keys_after [] out) e.content
          ≡ ok next =
        subst
          (λ n.
            apply_event ext operator store n (event_digest ext e) e k (keys_after [] out) event_type
              details
            ≡ ok next)
          (sym count) applied in
      let row =
        signed_row-verified ext operator store (keys_after [] out) (digest_after none out)
          (length rows) (suc r.sequence) e private_key k next read (ap pos (sym count)) refl
          (sym (last-digest ext operator store s.keys none 0 (x ∷ rows) out r s.ran last)) there on
          signed effect in
      (
        rw (last, approved) refl,
        Started-verify_events ext operator expected x (rows ++ new ∷ []) store _ (record {
          event = s.event;
          first = s.first;
          sequenced = in_sequence-append ext operator 1 (x ∷ rows) new s.sequenced at;
          ours = s.ours;
          wanted = s.wanted;
          keys = s.keys;
          bound = s.bound;
          named = s.named;
          ran = row_behind ext operator store s.keys x rows new out _ s.ran row;
        }),
      )
