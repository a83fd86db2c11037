-- ===== src/Authority/Chain/Heads/Accepted.antt =====
-- A checkpoint that `verify_authority_chain` of authority/ledger.py accepts.
use imprint.Base.{
  ℕ, ◌+◌, ◌*◌, ◌≤◌, ◌<◌, String, ◌≡◌, true, not, ◌&&◌, ◌||◌, Option, none, some, List, [], arith,
  ltb, leb, str_eq, str_eq_iff,
}
use mathlib.Core.Path.{subst}
use imprint.Ontology.Fault.{ok, >>=-eq-ok, demand->>-ok, demand-ok}
use imprint.Authority.Chain.{Key, External, Checkpoint, parse_timestamp}
use imprint.Authority.Chain.Keys.{is_active, get_key, signer_certificate, key_state_sha256}
use imprint.Authority.Chain.Shapes.{timestamp}
use imprint.Authority.Chain.Apply.{active_key}
use imprint.Authority.Chain.Apply.Ends.{ok_injective, active_key-ok}
use imprint.Authority.Chain.Verify.{Entry, keys_after, eq_or_none}
use imprint.Authority.Chain.Heads.{
  check_checkpoint, check_window, entry_at_int, same_signer_certificate, sha_or_none, found_entry,
  current_key, first_digest,
}

timestamp-ok :
    (ext : External) (value : String) (t : ℕ)
    → timestamp ext value ≡ ok t
    → parse_timestamp ext value ≡ some t
timestamp-ok ext value t h = ground arith

found_entry-ok : (o : Option Entry) (e : Entry) → found_entry o ≡ ok e → o ≡ some e
found_entry-ok none e h = cc
found_entry-ok (some x) e h = ground arith

current_key-ok : (o : Option Key) (k : Key) → current_key o ≡ ok k → o ≡ some k
current_key-ok none k h = cc
current_key-ok (some x) k h = ground arith

module _ (ext : External) (operator : String) (store : Option String) where
  pub record CheckpointHolds (entries : List Entry) (c : Checkpoint) (signature : String) (now : ℕ)
      (entry : Entry) : Type 0 where
    pub named : entry_at_int c.sequence entries ≡ some entry
    pub digest : entry.digest ≡ c.event_sha256
    pub state : c.key_state_sha256 ≡ key_state_sha256 ext entry.keys
    pub signer : Key
    pub known : get_key c.signer_key_id entry.keys ≡ some signer
    pub in_force : is_active signer ≡ true
    -- the entry of the signer in the keys of today
    pub current : Key
    pub still_known : get_key c.signer_key_id (keys_after [] entries) ≡ some current
    pub signed : ext.verifies_checkpoint current.certified.public_key_b64 signature c ≡ true
    pub issued : ℕ
    pub expires : ℕ
    pub issued_at : parse_timestamp ext c.issued_at ≡ some issued
    pub expires_at : parse_timestamp ext c.expires_at ≡ some expires
    pub begun : issued ≤ now
    pub not_over : now < expires
    pub at_most_a_day : expires ≤ issued + 86_400 * 1_000_000

  check_window-ok :
      (issued expires now : ℕ) {u : Unit {0}}
      → check_window ext operator store issued expires true now ≡ ok u
      → (issued ≤ now) × (now < expires) × (expires ≤ issued + 86_400 * 1_000_000)
  unfolding check_window
  check_window-ok issued expires now h =
      let (a, h1) =
        demand->>-ok (ltb issued expires && leb expires (issued + 86_400 * 1_000_000)) _ _ h in
      let b = demand-ok (not (true && (ltb now issued || leb expires now))) _ h1 in
      (ground arith, ground arith, ground arith)

  -- A checkpoint that is accepted while its freshness is enforced names an entry of the ledger with
  -- its digest and its key state, was signed with a key that was active at that entry and is still
  -- known, and the time lies within its lifetime, which is at most a day.
  pub check_checkpoint-Holds :
      (entries : List Entry) (c : Checkpoint) (signature : String) (now : ℕ) (entry : Entry)
      → check_checkpoint ext operator store entries c signature true now ≡ ok entry
      → CheckpointHolds entries c signature now entry
  unfolding check_checkpoint
  check_checkpoint-Holds entries c signature now entry h =
      let (_, h1) =
        demand->>-ok
          (str_eq c.checkpoint_version "imprint.authority.checkpoint/1.1.0"
            && str_eq c.domain_separator "imprint-authority-checkpoint-v1")
          _ _ h in
      let (_, h2) =
        demand->>-ok (str_eq c.operator_id operator && eq_or_none c.store_identity store) _ _ h1 in
      let (_, h3) = demand->>-ok (str_eq c.genesis_event_sha256 (first_digest entries)) _ _ h2 in
      let (e, h4, h5) = >>=-eq-ok (found_entry (entry_at_int c.sequence entries)) _ h3 in
      let (d, h6) = demand->>-ok (str_eq e.digest c.event_sha256) _ _ h5 in
      let (s, h7) = demand->>-ok (str_eq c.key_state_sha256 (key_state_sha256 ext e.keys)) _ _ h6 in
      let (_, h8) = demand->>-ok (sha_or_none c.prior_checkpoint_sha256) _ _ h7 in
      let (current, h9, h10) =
        >>=-eq-ok (current_key (get_key c.signer_key_id (keys_after [] entries))) _ h8 in
      let (signer, h11, h12) = >>=-eq-ok (active_key c.signer_key_id e.keys _) _ h10 in
      let (there, on) = active_key-ok c.signer_key_id e.keys _ signer h11 in
      let (_, h13) =
        demand->>-ok (same_signer_certificate c.signer_certificate (signer_certificate signer)) _ _
          h12 in
      let (issued, h14, h15) = >>=-eq-ok (timestamp ext c.issued_at) _ h13 in
      let (expires, h16, h17) = >>=-eq-ok (timestamp ext c.expires_at) _ h15 in
      let (_, h18, h19) =
        >>=-eq-ok (check_window ext operator store issued expires true now) _ h17 in
      let (v, h20) =
        demand->>-ok (ext.verifies_checkpoint current.certified.public_key_b64 signature c) _ _
          h19 in
      let (w1, w2, w3) = check_window-ok issued expires now h18 in
      subst (CheckpointHolds entries c signature now) (ok_injective e entry h20) (record {
        named = found_entry-ok (entry_at_int c.sequence entries) e h4;
        digest = (str_eq_iff e.digest c.event_sha256).0 d;
        state = (str_eq_iff c.key_state_sha256 (key_state_sha256 ext e.keys)).0 s;
        signer = signer;
        known = there;
        in_force = on;
        current = current;
        still_known = current_key-ok (get_key c.signer_key_id (keys_after [] entries)) current h9;
        signed = v;
        issued = issued;
        expires = expires;
        issued_at = timestamp-ok ext c.issued_at issued h14;
        expires_at = timestamp-ok ext c.expires_at expires h16;
        begun = w1;
        not_over = w2;
        at_most_a_day = w3;
      })
