-- ===== src/Authority/Chain/Verify/Start.antt =====
-- What `verify_authority_chain` does before its loop, and a ledger that was appended to.
use imprint.Base.{
  str_eq_sym, ℕ, ◌+◌, String, ◌≡◌, refl, sym, ap, ◌∙◌, true, false, not, Option, none, some, List,
  [], ◌∷◌, ◌++◌, arith, str_eq, length, distinct,
}
use mathlib.Core.Path.{subst}
use imprint.Ontology.Fault.{ok, >>=-eq-ok, demand->>-ok}
use imprint.Authority.Chain.{recovery, Event, LedgerRow, Key, External, Certificate}
use imprint.Authority.Chain.Keys.{key_id_of, new_chain_key, certify}
use imprint.Authority.Chain.Keys.Table.{ids, new_chain_key-eq}
use imprint.Authority.Chain.Apply.Ends.{ok_injective}
use imprint.Authority.Chain.Verify.{
  expected_or_any, is_empty, in_sequence, first_event, store_of, Entry, verify_rows, verify_events,
  genesis_keys, keys_after, digest_after, machine_key, with_recovery, genesis_content,
}
use imprint.Authority.Chain.Verify.Prefix.{verify_rows-split}

zero_plus : (n : ℕ) → 0 + n ≡ n
zero_plus n = omega arith

module _ (ext : External) (operator : String) (store : Option String) where
  with_recovery-distinct :
      (e : Event) (machine : Key) (binding : Option Certificate) (keys : List Key)
      → with_recovery ext operator e machine binding ≡ ok keys
      → distinct (ids keys) ≡ true
  with_recovery-distinct e machine none keys h =
      subst (λ xs. distinct (ids xs) ≡ true) (ok_injective (machine ∷ []) keys h) refl
  with_recovery-distinct e machine (some c) keys h =
      let (k, h1, h2) = >>=-eq-ok (new_chain_key ext c none recovery) _ h in
      let (apart, h3) = demand->>-ok (not (str_eq c.key_id (key_id_of machine))) _ _ h2 in
      let at : key_id_of k ≡ c.key_id = ap key_id_of (new_chain_key-eq ext c none recovery k h1) in
      let other : str_eq (key_id_of machine) (key_id_of k) ≡ false =
        rw (at, str_eq_sym (key_id_of machine) c.key_id) (ground arith) in
      subst (λ xs. distinct (ids xs) ≡ true)
        (ok_injective (machine ∷ certify 1 none e.columns.created_at k ∷ []) keys h3)
        (rw other refl)

  pub genesis_keys-distinct :
      (e : Event) (keys : List Key)
      → genesis_keys ext operator e ≡ ok keys
      → distinct (ids keys) ≡ true
  unfolding genesis_keys
  genesis_keys-distinct e keys h =
      let (g, h1, h2) = >>=-eq-ok (genesis_content ext operator e.content) _ h in
      with_recovery-distinct e (machine_key ext operator e g) g.recovery_binding keys h2

module _ (ext : External) (operator : String) where
  -- what the loop starts from
  pub record Started (expected : Option String) (rows : List LedgerRow) (store : Option String)
      (out : List Entry) : Type 0 where
    pub event : Event
    pub first : first_event ext operator rows ≡ ok event
    pub sequenced : in_sequence ext operator 1 rows ≡ true
    pub ours : str_eq event.columns.operator_id operator ≡ true
    pub wanted : expected_or_any ext operator expected (store_of ext operator event.content) ≡ true
    pub keys : List Key
    pub bound : genesis_keys ext operator event ≡ ok keys
    pub named : store ≡ store_of ext operator event.content
    pub ran : verify_rows ext operator store keys none 0 rows ≡ ok out

  pub verify_events-Started :
      (expected : Option String) (rows : List LedgerRow) (store : Option String) (out : List Entry)
      → verify_events ext operator expected rows ≡ ok (store, out)
      → Started expected rows store out
  unfolding verify_events
  verify_events-Started expected rows store out h =
      let (_, h1) = demand->>-ok (not (is_empty ext operator rows)) _ _ h in
      let (sequenced, h2) = demand->>-ok (in_sequence ext operator 1 rows) _ _ h1 in
      let (e, h3, h4) = >>=-eq-ok (first_event ext operator rows) _ h2 in
      let (ours, h5) = demand->>-ok (str_eq e.columns.operator_id operator) _ _ h4 in
      let (wanted, h6) =
        demand->>-ok (expected_or_any ext operator expected (store_of ext operator e.content)) _ _
          h5 in
      let (keys, h7, h8) = >>=-eq-ok (genesis_keys ext operator e) _ h6 in
      let (es, h9, h10) =
        >>=-eq-ok (verify_rows ext operator (store_of ext operator e.content) keys none 0 rows) _
          h8 in
      let same : (store_of ext operator e.content, es) ≡ (store, out) =
        ok_injective _ (store, out) h10 in
      record {
        event = e;
        first = h3;
        sequenced = sequenced;
        ours = ours;
        wanted = wanted;
        keys = keys;
        bound = h7;
        named = sym (ap (λ (p : Option String × List Entry). p.0) same);
        ran =
            subst
              (λ (p : Option String × List Entry).
                verify_rows ext operator p.0 keys none 0 rows ≡ ok p.1)
              same h9;
      }

  -- the same facts are enough
  pub Started-verify_events :
      (expected : Option String) (r : LedgerRow) (rows : List LedgerRow) (store : Option String)
      (out : List Entry)
      → Started expected (r ∷ rows) store out
      → verify_events ext operator expected (r ∷ rows) ≡ ok (store, out)
  unfolding verify_events
  Started-verify_events expected r rows store out s =
      rw (s.sequenced, s.first, s.ours, s.wanted, s.bound, sym s.named, s.ran) refl

  -- a ledger and what was appended to it start alike
  pub record Extended (older newer : List LedgerRow) (store : Option String) (es out : List Entry)
      : Type 0 where
    pub keys : List Key
    pub unique : distinct (ids keys) ≡ true
    pub ran : verify_rows ext operator store keys none 0 older ≡ ok es
    pub newer_entries : List Entry
    pub appended : out ≡ es ++ newer_entries
    pub goes_on :
        verify_rows ext operator store
          (keys_after keys es)
          (digest_after none es)
          (length older)
          newer
        ≡ ok newer_entries

  pub verify_events-Extended :
      (expected expected2 : Option String) (older newer : List LedgerRow)
      (store store2 : Option String) (es out : List Entry)
      → verify_events ext operator expected older ≡ ok (store, es)
      → verify_events ext operator expected2 (older ++ newer) ≡ ok (store2, out)
      → Extended older newer store es out
  verify_events-Extended expected expected2 [] newer store store2 es out h k =
      let s = verify_events-Started expected [] store es h in let clash = s.first in cc clash
  verify_events-Extended expected expected2 (r ∷ rs) newer store store2 es out h k =
      let s = verify_events-Started expected (r ∷ rs) store es h in
      let t = verify_events-Started expected2 (r ∷ rs ++ newer) store2 out k in
      let same : s.event ≡ t.event = ok_injective s.event t.event (sym s.first ∙ t.first) in
      let keys_same : s.keys ≡ t.keys =
        ok_injective s.keys t.keys (sym s.bound ∙ ap (genesis_keys ext operator) same ∙ t.bound) in
      let store_same : store ≡ store2 =
        s.named ∙ ap (λ (e : Event). store_of ext operator e.content) same ∙ sym t.named in
      let ran : verify_rows ext operator store s.keys none 0 (r ∷ rs ++ newer) ≡ ok out =
        rw (store_same, keys_same) t.ran in
      let (es2, fs, it, h1, h2) =
        verify_rows-split ext operator store s.keys none 0 (r ∷ rs) newer out ran in
      let es_same : es2 ≡ es = ok_injective es2 es (sym h1 ∙ s.ran) in
      record {
        keys = s.keys;
        unique = genesis_keys-distinct ext operator store s.event s.keys s.bound;
        ran = s.ran;
        newer_entries = fs;
        appended = subst (λ xs. out ≡ xs ++ fs) es_same it;
        goes_on =
            subst
              (λ n.
                verify_rows ext operator store (keys_after s.keys es) (digest_after none es) n newer
                ≡ ok fs)
              (zero_plus (length (r ∷ rs)))
              (subst
                (λ xs.
                  verify_rows ext operator store (keys_after s.keys xs) (digest_after none xs)
                    (0 + length (r ∷ rs)) newer
                  ≡ ok fs)
                es_same h2);
      }
