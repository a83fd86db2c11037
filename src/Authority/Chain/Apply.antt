-- ===== src/Authority/Chain/Apply.antt =====
-- authority/ledger.py: what one lifecycle event of `verify_authority_chain` does to the keys.
pub mod Ends
pub mod Dispatch
pub mod Changes
pub mod Single
use imprint.Base.{
  ℕ, String, Bool, true, not, ◌&&◌, Option, none, some, List, [], ◌∷◌, ◌++◌, leb, str_eq,
  if◌then◌else◌, keep, all, any, has_text,
}
use imprint.Ontology.Fault.{Checked, ok, err, validation_error, demand, ◌>>=◌, ◌>>◌}
use imprint.Authority.Request.{is_sha256}
use imprint.Authority.Chain.{
  Certificate, Blob, Authorization, StateChange, Adjudication, Details, Key, installation, recovery,
  External, Event,
}
use imprint.Authority.Chain.Shapes.{
  timestamp, nullable_timestamp, as_certificate, as_pairing, as_rotation, as_state_change,
  as_rebinding, as_adjudication, same_text_or_none, the_only, is_singleton, new_status,
  is_compromise, is_recovery_revocation, StateKind, key_revoked, key_compromised, recovery_revoked,
}
use imprint.Authority.Chain.Keys.{
  is_active, is_installation, key_id_of, get_key, has_key_id, update_key, new_chain_key, certify,
  retire,
}

abbrev found_key : Option Key → String → Checked Key
found_key none message = err (validation_error message)
found_key (some k) message = ok k

-- `key_id in keys and keys[key_id]["status"] == "active"`
unfoldable pub active_key : String → List Key → String → Checked Key
active_key id keys message = do
  k ← found_key (get_key id keys) message
  demand (is_active k) message
  ok k

-- an active key of an installation
abbrev pub serves : String → Key → Bool
serves install k = str_eq k.certified.install_id install && is_active k

-- an active installation key of an installation
abbrev pub represents : String → Key → Bool
represents install k = is_installation k.kind && serves install k

module _ (ext : External) (operator : String) (store : Option String) where
  -- the checks of an `authorization`
  unfoldable pub check_authorization :
      Authorization → Certificate → Option String → String → Checked (Unit {0})
  check_authorization a c head message = do
    demand
        (str_eq a.certificate_version "imprint.authority.authorize-installation/1.0.0"
          && str_eq a.operator_id operator
          && same_text_or_none (some a.store_identity) store
          && str_eq a.new_install_id c.install_id
          && str_eq a.new_key_id c.key_id
          && str_eq a.new_public_key_b64 c.public_key_b64
          && same_text_or_none (some a.preceding_authority_head_sha256) head)
        message
    t ← timestamp ext a.expires_at
    ok tt

  module _ (sequence : ℕ) (digest : String) (e : Event) (signer : Key) (keys : List Key) where
    -- the key as the event certifies it
    abbrev pub certified_now : Key → Key
    certified_now k = certify sequence (some digest) e.columns.created_at k

    unfoldable pub create_recovery : Certificate → Checked (List Key)
    create_recovery c = do
      k ← new_chain_key ext c none recovery
      demand (str_eq e.columns.key_id c.key_id && str_eq e.columns.install_id c.install_id)
          "authority key certificate subject mismatch"
      demand (not (has_key_id c.key_id keys)) "authority key identity was certified twice"
      ok (keys ++ certified_now k ∷ [])

    unfoldable pub pair_installation : Certificate → Blob → Authorization → Checked (List Key)
    pair_installation c blob a = do
      k ← new_chain_key ext c (some blob) installation
      demand (str_eq e.columns.key_id c.key_id && str_eq e.columns.install_id c.install_id)
          "authority key certificate subject mismatch"
      demand (not (has_key_id c.key_id keys)) "authority key identity was certified twice"
      demand (not (any (represents c.install_id) keys))
          "authority installation already has an active key"
      check_authorization a c e.columns.previous_event_sha256
          "installation authorization certificate is invalid"
      ok (keys ++ certified_now k ∷ [])

    unfoldable pub rotate : Certificate → Blob → String → Checked (List Key)
    rotate c blob old_id = do
      demand (str_eq (key_id_of signer) old_id)
          "authority rotation does not continue the active key"
      old ← active_key old_id keys "authority rotation does not continue the active key"
      k ← new_chain_key ext c (some blob) installation
      demand (not (has_key_id c.key_id keys)) "authority rotation key already exists"
      demand (str_eq c.install_id old.certified.install_id)
          "authority rotation changed installation identity"
      ok (update_key old_id (retire e.columns.created_at) keys ++ certified_now k ∷ [])

    abbrev no_later : Option ℕ → ℕ → Bool
    no_later none effective = true
    no_later (some compromise) effective = leb compromise effective

    abbrev boundary : StateKind → StateChange → Option String
    boundary kind s = elim s.compromised_at [
      | none ↦ if is_compromise kind then some s.effective_at else none
      | some t ↦ some t
    ]

    abbrev pub end_key : StateKind → StateChange → Key → Key
    end_key kind s k = record k {
      status = new_status kind;
      effective_at = some s.effective_at;
      compromised_at = boundary kind s;
      replacement_key_id = s.replacement_key_id;
    }

    abbrev known_or_none : Option String → Bool
    known_or_none none = true
    known_or_none (some id) = has_key_id id keys

    unfoldable pub change_state : StateKind → StateChange → Checked (List Key)
    change_state kind s = do
      demand (has_text s.reason) "authority key-state event has unknown or missing fields"
      demand (str_eq e.columns.key_id s.target_key_id) "authority key-state subject mismatch"
      target ← active_key s.target_key_id keys "authority key-state equivocation"
      demand (not (is_compromise kind && str_eq (key_id_of signer) s.target_key_id))
          "a compromised key cannot revoke itself"
      demand (not (is_recovery_revocation kind && is_installation target.kind))
          "recovery revocation targets a non-recovery key"
      demand
          (is_singleton s.affected_installation_ids target.certified.install_id
            && is_singleton s.required_revocation_key_ids s.target_key_id
            && all is_sha256 s.evidence_sha256s)
          "authority compromise scope or evidence is invalid"
      effective ← timestamp ext s.effective_at
      given ← nullable_timestamp ext s.compromised_at
      compromise ← nullable_timestamp ext (boundary kind s)
      demand (no_later compromise effective)
          "authority compromise boundary follows its effective time"
      demand (known_or_none s.replacement_key_id) "authority key-state replacement is unknown"
      ok (update_key s.target_key_id (end_key kind s) keys)

    unfoldable pub rebind : Certificate → Blob → String → Authorization → Checked (List Key)
    rebind c blob old_install a = do
      old ← the_only (keep (serves old_install) keys)
      let rest = update_key (key_id_of old) (retire e.columns.created_at) keys
      k ← new_chain_key ext c (some blob) installation
      demand (not (has_key_id c.key_id rest)) "authority rebind key already exists"
      demand (not (any (represents c.install_id) rest))
          "authority rebind target installation is already active"
      check_authorization a c e.columns.previous_event_sha256
          "installation rebind authorization is invalid"
      ok (rest ++ certified_now k ∷ [])

    unfoldable pub adjudicate : Adjudication → Checked (List Key)
    adjudicate a = do
      demand (has_text a.reason && not (is_installation signer.kind))
          "authority conflict adjudication is invalid"
      demand (is_sha256 a.chosen_checkpoint_sha256 && is_sha256 a.rejected_proof_sha256)
          "authority conflict adjudication digest is invalid"
      t ← timestamp ext a.effective_at
      ok keys

    -- the dispatch on `event_type`
    unfoldable pub apply_event : String → Details → Checked (List Key)
    unfolding create_recovery pair_installation rotate change_state rebind adjudicate
    apply_event type details =
        if str_eq type "recovery_created"
        then (do c ← as_certificate details; create_recovery c)
        else if str_eq type "installation_paired"
        then (do (c, (b, a)) ← as_pairing details; pair_installation c b a)
        else if str_eq type "key_rotated"
        then (do (c, (b, old)) ← as_rotation details; rotate c b old)
        else if str_eq type "key_revoked"
        then (do s ← as_state_change details; change_state key_revoked s)
        else if str_eq type "key_compromised"
        then (do s ← as_state_change details; change_state key_compromised s)
        else if str_eq type "recovery_revoked"
        then (do s ← as_state_change details; change_state recovery_revoked s)
        else if str_eq type "installation_rebound"
        then (do (c, (b, (old, a))) ← as_rebinding details; rebind c b old a)
        else if str_eq type "authority_conflict_adjudicated"
        then (do a ← as_adjudication details; adjudicate a)
        else err (validation_error "authority ledger event type is unsupported")
