-- ===== src/Authority/Chain/Heads/Window.antt =====
-- Checkpoints of authority/ledger.py, from `create_checkpoint` to `verify_authority_chain`.
use imprint.Base.{
  ℕ, ◌+◌, ◌*◌, ◌≤◌, ◌<◌, String, ◌≡◌, refl, sym, ap, Bool, true, false, ◌&&◌, Option, none, some,
  List, [], ◌∷◌, arith, leb, ◌==◌, str_eq, str_eq_iff, length,
}
use imprint.Base.{str_eq_refl}
use mathlib.Core.Path.{subst}
use imprint.Ontology.Fault.{Checked, ok, >>=-eq-ok, demand->>-ok}
use imprint.Authority.Chain.{
  LedgerRow, Key, External, Checkpoint, SignerCertificate, parse_timestamp,
}
use imprint.Authority.Chain.Keys.{is_active, get_key, signer_certificate, key_state_sha256}
use imprint.Authority.Chain.Shapes.{timestamp}
use imprint.Authority.Chain.Apply.{active_key}
use imprint.Authority.Chain.Apply.Ends.{ok_injective, active_key-ok}
use imprint.Authority.Chain.Verify.{Entry, verify_events, digest_after, keys_after, eq_or_none}
use imprint.Authority.Chain.Heads.{
  verified, Supplied, Verified, check_pin, check_checkpoint, check_window, verify_authority_chain,
  create_checkpoint, new_checkpoint, entry_at, same_signer_certificate, eq_bool, eq_number_or_none,
  sha_or_none, head_text,
}

eq_bool_refl : (b : Bool) → eq_bool b b ≡ true
eq_bool_refl true = refl
eq_bool_refl false = refl

number_refl : (n : ℕ) → (n == n) ≡ true
number_refl n = ground arith

eq_number_or_none_refl : (a : Option ℕ) → eq_number_or_none a a ≡ true
eq_number_or_none_refl none = refl
eq_number_or_none_refl (some n) = number_refl n

eq_or_none_refl : (a : Option String) → eq_or_none a a ≡ true
eq_or_none_refl none = refl
eq_or_none_refl (some a) = str_eq_refl a

timestamp-found :
    (ext : External) (value : String) (t : ℕ)
    → parse_timestamp ext value ≡ some t
    → timestamp ext value ≡ ok t
timestamp-found ext value t h = ground arith

same_signer_certificate_refl : (c : SignerCertificate) → same_signer_certificate c c ≡ true
unfolding same_signer_certificate
same_signer_certificate_refl c =
    simp (str_eq_refl, eq_bool_refl, eq_number_or_none_refl, eq_or_none_refl)

entry_at-last :
    (x : Entry) (out : List Entry) (keys : List Key) (head : Option String)
    → (e : Entry) × (entry_at (length (x ∷ out)) (x ∷ out) ≡ some e)
      × (keys_after keys (x ∷ out) ≡ e.keys)
      × (digest_after head (x ∷ out) ≡ some e.digest)
unfolding entry_at
entry_at-last x [] keys head = (x, refl, refl, refl)
entry_at-last x (y ∷ out) keys head = entry_at-last y out x.keys (some x.digest)

-- an issue time, a lifetime within a day, and a time in between
check_window-inside :
    (ext : External) (operator : String) (store : Option String) (issued ttl now : ℕ)
    → 1 ≤ ttl
    → ttl ≤ 86_400
    → issued ≤ now
    → now < issued + ttl * 1_000_000
    → check_window ext operator store issued (issued + ttl * 1_000_000) true now ≡ ok tt
unfolding check_window
check_window-inside ext operator store issued ttl now a b c d = ground arith

module _ (ext : External) (operator : String) where
  -- a checkpoint that `create_checkpoint` fills, at the last entry
  new_checkpoint-accepted :
      (store : Option String) (x : Entry) (out : List Entry) (signer : Key) (id : String)
      (prior : Option String) (issued_at expires_at signature : String) (issued ttl now : ℕ)
      → let entries = x ∷ out in
        let c = new_checkpoint ext operator store entries signer id prior issued_at expires_at in
        get_key id (keys_after [] entries) ≡ some signer
        → is_active signer ≡ true
        → sha_or_none prior ≡ true
        → parse_timestamp ext issued_at ≡ some issued
        → parse_timestamp ext expires_at ≡ some (issued + ttl * 1_000_000)
        → check_window ext operator store issued (issued + ttl * 1_000_000) true now ≡ ok tt
        → ext.verifies_checkpoint signer.certified.public_key_b64 signature c ≡ true
        → (e : Entry) × (check_checkpoint ext operator store entries c signature true now ≡ ok e)
          × (e.keys ≡ keys_after [] entries)
  unfolding check_checkpoint active_key
  new_checkpoint-accepted store x out signer id prior issued_at expires_at signature issued ttl now
        there on fits from until inside signed =
      let (e, at, keys_same, digest_same) = entry_at-last x out [] none in
      let found : get_key id e.keys ≡ some signer = rw (sym keys_same) there in
      let head_same : e.digest ≡ head_text ext operator (digest_after none (x ∷ out)) =
        ap (head_text ext operator) (sym digest_same) in
      let t1 : str_eq e.digest (head_text ext operator (digest_after none (x ∷ out))) ≡ true =
        (str_eq_iff _ _).1 head_same in
      let t2 : str_eq (key_state_sha256 ext (keys_after [] (x ∷ out))) (key_state_sha256 ext e.keys)
          ≡ true =
        (str_eq_iff _ _).1 (ap (key_state_sha256 ext) keys_same) in
      let c = new_checkpoint ext operator store (x ∷ out) signer id prior issued_at expires_at in
      let begins : timestamp ext c.issued_at ≡ ok issued =
        timestamp-found ext issued_at issued from in
      let ends : timestamp ext c.expires_at ≡ ok (issued + ttl * 1_000_000) =
        timestamp-found ext expires_at (issued + ttl * 1_000_000) until in
      (
        e,
        rw
            (
              str_eq_refl operator,
              eq_or_none_refl store,
              str_eq_refl x.digest,
              at,
              t1,
              t2,
              fits,
              there,
              found,
              on,
              same_signer_certificate_refl (signer_certificate signer),
              begins,
              ends,
              inside,
              signed,
            )
            refl,
        sym keys_same,
      )

  made-accepted :
      (store : Option String) (entries : List Entry) (signer : Key) (id : String)
      (prior : Option String) (issued_at expires_at signature : String) (issued ttl now : ℕ)
      → let c = new_checkpoint ext operator store entries signer id prior issued_at expires_at in
        get_key id (keys_after [] entries) ≡ some signer
        → is_active signer ≡ true
        → sha_or_none prior ≡ true
        → parse_timestamp ext issued_at ≡ some issued
        → parse_timestamp ext expires_at ≡ some (issued + ttl * 1_000_000)
        → check_window ext operator store issued (issued + ttl * 1_000_000) true now ≡ ok tt
        → ext.verifies_checkpoint signer.certified.public_key_b64 signature c ≡ true
        → (e : Entry) × (check_checkpoint ext operator store entries c signature true now ≡ ok e)
          × (e.keys ≡ keys_after [] entries)
  unfolding get_key
  made-accepted store [] signer id prior issued_at expires_at signature issued ttl now there on fits
        from until inside signed =
      cc
  made-accepted store (x ∷ out) signer id prior issued_at expires_at signature issued ttl now there
        on fits from until inside signed =
      new_checkpoint-accepted store x out signer id prior issued_at expires_at signature issued ttl
        now there on fits from until inside signed

  chain-accepted :
      (rows : List LedgerRow) (store : Option String) (out : List Entry) (made : Supplied) (now : ℕ)
      (e : Entry)
      → verify_events ext operator none rows ≡ ok (store, out)
      → check_checkpoint ext operator store out made.checkpoint made.signature_b64 true now ≡ ok e
      → verify_authority_chain ext operator none rows (some made) none true now
        ≡ ok (verified store out (some made) (some e))
  unfolding verify_authority_chain check_pin
  chain-accepted rows store out made now e h k = rw (h, k) refl

  -- A checkpoint that `create_checkpoint` makes is accepted with the ledger that it was made from,
  -- from its time of issue until its lifetime is over, if the clock's texts are read back, the
  -- signature is the signer's and the digest of the prior checkpoint is one.
  pub created-accepted :
      (utc_text : ℕ → String) (approve : Checkpoint → Checked (Unit {0})) (rows : List LedgerRow)
      (id private_key : String) (ttl : ℕ) (prior : Option String) (now later : ℕ)
      (supplied : Supplied)
      → create_checkpoint ext operator utc_text approve rows id private_key ttl prior now
        ≡ ok supplied
      → parse_timestamp ext (utc_text now) ≡ some now
      → parse_timestamp ext (utc_text (now + ttl * 1_000_000)) ≡ some (now + ttl * 1_000_000)
      → ((store : Option String) (out : List Entry) (k : Key)
          → verify_events ext operator none rows ≡ ok (store, out)
          → get_key id (keys_after [] out) ≡ some k
          → ext.verifies_checkpoint k.certified.public_key_b64 supplied.signature_b64
              supplied.checkpoint
            ≡ true)
      → sha_or_none prior ≡ true
      → now ≤ later
      → later < now + ttl * 1_000_000
      → (v : Verified) × (verify_authority_chain ext operator none rows
            (some supplied)
            none
            true
            later
          ≡ ok v)
  unfolding create_checkpoint
  created-accepted utc_text approve rows id private_key ttl prior now later supplied h from until
        signed fits begun not_over =
      let (a, h1) = demand->>-ok (leb 1 ttl && leb ttl 86_400) _ _ h in
      let ((store, out), h2, h3) = >>=-eq-ok (verify_events ext operator none rows) _ h1 in
      let (signer, h4, h5) = >>=-eq-ok (active_key id (keys_after [] out) _) _ h3 in
      let (there, on) = active_key-ok id (keys_after [] out) _ signer h4 in
      let c =
        new_checkpoint ext operator store out signer id prior (utc_text now)
          (utc_text (now + ttl * 1_000_000)) in
      let made : Supplied = record {
        checkpoint = c;
        signature_b64 = ext.sign_checkpoint private_key c;
      } in
      let (_, _, h6) = >>=-eq-ok (approve c) _ h5 in
      let same : made ≡ supplied = ok_injective made supplied h6 in
      let inside =
        check_window-inside ext operator store now ttl later (ground arith) (ground arith) begun
          not_over in
      let genuine : ext.verifies_checkpoint signer.certified.public_key_b64 made.signature_b64
            made.checkpoint
          ≡ true =
        subst
          (λ (x : Supplied).
            ext.verifies_checkpoint signer.certified.public_key_b64 x.signature_b64 x.checkpoint
            ≡ true)
          (sym same) (signed store out signer h2 there) in
      let (e, accepted, _) =
        made-accepted store out signer id prior (utc_text now) (utc_text (now + ttl * 1_000_000))
          made.signature_b64 now ttl later there on fits from until inside genuine in
      (
        verified store out (some made) (some e),
        subst
            (λ x.
              verify_authority_chain ext operator none rows (some x) none true later
              ≡ ok (verified store out (some made) (some e)))
            same (chain-accepted rows store out made later e h2 accepted),
      )
