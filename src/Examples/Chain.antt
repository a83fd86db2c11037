-- ===== src/Examples/Chain.antt =====
-- A ledger with a machine and a recovery key: the machine's key is compromised, and a new one is
-- paired by the recovery key. Digests and signatures are readable stand-ins.
use imprint.Base.{
  ℕ, ◌+◌, ◌*◌, String, ◌≡◌, refl, sym, ◌∙◌, true, Option, none, some, List, [], ◌∷◌, ◌++◌, arith,
  ◌==◌, str_eq, if◌then◌else◌, All, pos, false, str_eq_iff,
}
use imprint.Ontology.Fault.{ok}
use imprint.Authority.Chain.{
  Certificate, Blob, Authorization, StateChange, Details, pairing, state_change, lifecycle, Event,
  LedgerRow, Key, External, Checkpoint, parse_timestamp, compromised, recovery, installation,
}
use mathlib.Core.Path.{subst}
use imprint.Authority.Chain.Apply.Ends.{ok_injective}
use imprint.Authority.Chain.Keys.Table.{some_injective}
use imprint.Authority.Chain.Append.{
  Metadata, genesis_event, signed_row, insert_genesis, append_ledger_event,
}
use imprint.Authority.Chain.Append.Verified.{append-verified}
use imprint.Authority.Chain.Verify.{Entry, verify_events, keys_after}
use imprint.Authority.Chain.Verify.Life.{inactive_for_ever, SignedByOther}
use imprint.Authority.Chain.Verify.Single.{verify_events-OneActive, later_rotations_ok}
use imprint.Authority.Chain.Apply.{apply_event}
use imprint.Authority.Chain.Apply.Single.{OneActive}
use imprint.Authority.Chain.Keys.{get_key, certify, chain_key}
use imprint.Authority.Chain.History.{history, CollisionFree, same_head-history, pinned-history}
use imprint.Authority.Chain.Heads.{
  checks, PinnedHead, Supplied, check_pin, check_checkpoint, create_checkpoint, new_checkpoint,
  verify_authority_chain, Verified,
}
use imprint.Authority.Chain.Heads.Window.{created-accepted}
use imprint.Authority.Chain.Heads.Accepted.{check_checkpoint-Holds, CheckpointHolds}

abbrev raw : List ℕ
raw =
    0 ∷ 0 ∷ 0 ∷ 0 ∷ 0 ∷ 0 ∷ 0 ∷ 0 ∷ 0 ∷ 0 ∷ 0 ∷ 0 ∷ 0 ∷ 0 ∷ 0 ∷ 0 ∷ 0 ∷ 0 ∷ 0 ∷ 0 ∷ 0 ∷ 0 ∷ 0 ∷ 0
    ∷ 0 ∷ 0 ∷ 0 ∷ 0 ∷ 0 ∷ 0 ∷ 0 ∷ 0 ∷ []

abbrev pub key_of : String → String → Certificate
key_of id install = record {
  key_id = id;
  public_key_b64 = id;
  public_key_fingerprint = "sha256:f";
  install_id = install;
}

abbrev pub blob : Blob
blob = record {
  blob_rel_path = "blob";
  blob_sha256 = "0000000000000000000000000000000000000000000000000000000000000000";
  blob_size = pos 1;
  algorithm_suite = "suite";
}

abbrev pub noon : String
noon = "2026-01-01T00:00:00Z"

abbrev noon_us : ℕ
noon_us = 63902908800000000

abbrev machine : Metadata
machine = record {
  operator_id = "op";
  install_id = "i1";
  store_identity = "store";
  key_id = "k1";
  public_key_b64 = "k1";
  public_key_fingerprint = "sha256:f";
  enrollment_nonce = "nonce";
  created_at = noon;
}

abbrev pub first : Event
first = genesis_event machine blob (some (key_of "r1" "ir")) "e1"

abbrev pub lifecycle_event :
    ℕ → String → String → String → String → Details → String → String → Event
lifecycle_event sequence previous event_type install_id key_id details signer event_id = record {
  sequence = pos sequence;
  columns = record {
    event_id = event_id;
    event_type = event_type;
    operator_id = "op";
    install_id = install_id;
    key_id = key_id;
    previous_event_sha256 = some previous;
    created_at = noon;
  };
  signed_by_key_id = some signer;
  content = lifecycle "imprint.authority.ledger-event/1.1.0" "imprint-authority-ledger-v1" details;
}

abbrev compromise : StateChange
compromise = record {
  target_key_id = "k1";
  effective_at = noon;
  compromised_at = none;
  reason = "lost";
  replacement_key_id = none;
  affected_installation_ids = "i1" ∷ [];
  evidence_sha256s = [];
  required_revocation_key_ids = "k1" ∷ [];
}

abbrev second : Event
second = lifecycle_event 2 "e1" "key_compromised" "i1" "k1" (state_change compromise) "r1" "e2"

abbrev authorization : Authorization
authorization = record {
  certificate_version = "imprint.authority.authorize-installation/1.0.0";
  operator_id = "op";
  store_identity = "store";
  new_install_id = "i1";
  new_key_id = "k2";
  new_public_key_b64 = "k2";
  pairing_nonce = "n";
  pairing_request_sha256 = "s";
  preceding_authority_head_sha256 = "e2";
  expires_at = noon;
}

abbrev third : Event
third =
    lifecycle_event 3 "e2" "installation_paired" "i1" "k2"
      (pairing (key_of "k2" "i1") blob authorization) "r1" "e3"

abbrev decode : String → Option Event
decode s =
    if str_eq s "e1"
    then some first
    else if str_eq s "e2"
    then some second
    else if str_eq s "e3"
    then some third
    else none

-- A signature is the public key's own text, and a digest is the identity of the event.
abbrev pub ext : External
ext = record {
  decode = decode;
  canonical = λ (e : Event). e.columns.event_id;
  sha256 = λ s. s;
  b64decode = λ s. some raw;
  sha256_raw = λ s. "f";
  verifies = λ key signature e. str_eq key signature;
  verifies_checkpoint = λ key signature c. str_eq key signature;
  sign = λ private_key e. private_key;
  sign_checkpoint = λ private_key c. private_key;
  checkpoint_json = λ c s. s;
  key_state_json = λ keys. "state";
  local_instant = λ t. 0;
}

abbrev pub row1 : LedgerRow
row1 = signed_row ext 1 first "k1"

abbrev row2 : LedgerRow
row2 = signed_row ext 2 second "r1"

abbrev row3 : LedgerRow
row3 = signed_row ext 3 third "r1"

enrolled :
    insert_genesis ext (λ e. ok tt) [] machine blob (some (key_of "r1" "ir")) "e1" "k1"
    ≡ ok (row1 ∷ [])
unfolding insert_genesis
enrolled = refl

abbrev pub machine_now : Key
machine_now = certify 1 (some "e1") noon (chain_key (key_of "k1" "i1") none installation)

abbrev pub recovery_now : Key
recovery_now = certify 1 (some "e1") noon (chain_key (key_of "r1" "ir") none recovery)

abbrev lost : Key
lost = record machine_now { status = compromised; compromised_at = some noon }

abbrev paired_now : Key
paired_now = certify 3 (some "e3") noon (chain_key (key_of "k2" "i1") (some blob) installation)

abbrev entry1 : Entry
entry1 = record { digest = "e1"; keys = machine_now ∷ recovery_now ∷ [] }

abbrev entry2 : Entry
entry2 = record { digest = "e2"; keys = lost ∷ recovery_now ∷ [] }

abbrev entry3 : Entry
entry3 = record { digest = "e3"; keys = lost ∷ recovery_now ∷ paired_now ∷ [] }

accepted2 : verify_events ext "op" none (row1 ∷ row2 ∷ []) ≡ ok (some "store", entry1 ∷ entry2 ∷ [])
unfolding checks
accepted2 = refl

accepted3 :
    verify_events ext "op" none (row1 ∷ row2 ∷ row3 ∷ [])
    ≡ ok (some "store", entry1 ∷ entry2 ∷ entry3 ∷ [])
unfolding checks
accepted3 = refl

abbrev pin : PinnedHead
pin = record { sequence = pos 2; event_sha256 = "e2" }

lost_found : get_key "k1" (keys_after [] (entry1 ∷ entry2 ∷ [])) ≡ some lost
unfolding checks
lost_found = refl

rotated : later_rotations_ok ext (row1 ∷ row2 ∷ row3 ∷ []) (entry1 ∷ entry2 ∷ entry3 ∷ []) ≡ true
unfolding checks
rotated = refl

pinned : check_pin (entry1 ∷ entry2 ∷ entry3 ∷ []) (some pin) ≡ ok tt
unfolding checks
pinned = refl

inactive_for_ever_example :
    All (SignedByOther ext "op" (some "store") "k1") (row3 ∷ [])
    × (get_key "k1" (keys_after [] (entry1 ∷ entry2 ∷ entry3 ∷ [])) ≡ some lost)
inactive_for_ever_example =
    inactive_for_ever ext "op" none none (row1 ∷ row2 ∷ []) (row3 ∷ []) (some "store")
      (some "store") (entry1 ∷ entry2 ∷ []) (entry1 ∷ entry2 ∷ entry3 ∷ []) "k1" lost accepted2
      accepted3 lost_found refl

verify_events-OneActive_example :
    All (λ (x : Entry). OneActive x.keys) (entry1 ∷ entry2 ∷ entry3 ∷ [])
verify_events-OneActive_example =
    verify_events-OneActive ext "op" none (row1 ∷ row2 ∷ row3 ∷ []) (some "store")
      (entry1 ∷ entry2 ∷ entry3 ∷ []) accepted3 rotated

apart {ℓ} : {A : Type ℓ} (s t : String) → str_eq s t ≡ false → s ≡ t → A
apart s t differ same =
    let clash : true ≡ false = sym ((str_eq_iff s t).1 same) ∙ differ in cc clash

free3 : CollisionFree ext (history ext (row1 ∷ row2 ∷ row3 ∷ [])) (history ext (row1 ∷ row2 ∷ []))
free3 = (
  (apart _ _ refl, (apart _ _ refl, tt)),
  ((λ h. refl, (apart _ _ refl, tt)), ((apart _ _ refl, (λ h. refl, tt)), tt)),
)

pinned-history_example :
    (newer : List Event) × (history ext (row1 ∷ row2 ∷ row3 ∷ [])
      ≡ newer ++ history ext (row1 ∷ row2 ∷ []))
pinned-history_example =
    pinned-history ext "op" "op" none none (row1 ∷ row2 ∷ []) (row1 ∷ row2 ∷ row3 ∷ [])
      (some "store") (some "store") (entry1 ∷ entry2 ∷ []) (entry1 ∷ entry2 ∷ entry3 ∷ []) pin free3
      accepted2 refl accepted3 pinned

free33 : CollisionFree ext (history ext (row1 ∷ row2 ∷ [])) (history ext (row1 ∷ row2 ∷ []))
free33 = ((λ h. refl, (apart _ _ refl, tt)), ((apart _ _ refl, (λ h. refl, tt)), tt))

same_head-history_example : history ext (row1 ∷ row2 ∷ []) ≡ history ext (row1 ∷ row2 ∷ [])
same_head-history_example =
    same_head-history ext "op" "op" none none (row1 ∷ row2 ∷ []) (row1 ∷ row2 ∷ []) (some "store")
      (some "store") (entry1 ∷ entry2 ∷ []) (entry1 ∷ entry2 ∷ []) free33 accepted2 accepted2 refl

effect :
    apply_event ext "op"
      (some "store")
      3
      "e3"
      third
      recovery_now
      (keys_after [] (entry1 ∷ entry2 ∷ []))
      "installation_paired"
      (pairing (key_of "k2" "i1") blob authorization)
    ≡ ok (lost ∷ recovery_now ∷ paired_now ∷ [])
unfolding checks
effect = refl

recovery_found : get_key "r1" (keys_after [] (entry1 ∷ entry2 ∷ [])) ≡ some recovery_now
unfolding checks
recovery_found = refl

append-verified_example :
    (append_ledger_event ext
        (λ e. ok tt)
        (row1 ∷ row2 ∷ [])
        "installation_paired"
        "op"
        "i1"
        "k2"
        (pairing (key_of "k2" "i1") blob authorization)
        "r1"
        "r1"
        "e3"
        noon
      ≡ ok (row1 ∷ row2 ∷ row3 ∷ []))
    × (verify_events ext "op" none (row1 ∷ row2 ∷ row3 ∷ [])
        ≡ ok (some "store", entry1 ∷ entry2 ∷ entry3 ∷ []))
append-verified_example =
    append-verified ext "op" (λ e. ok tt) none (some "store") (row1 ∷ row2 ∷ [])
      (entry1 ∷ entry2 ∷ []) row2 "installation_paired" "i1" "k2"
      (pairing (key_of "k2" "i1") blob authorization) "r1" "r1" "e3" noon recovery_now
      (lost ∷ recovery_now ∷ paired_now ∷ []) accepted2 refl refl refl recovery_found refl refl
      effect

abbrev clock_text : ℕ → String
clock_text t = if t == noon_us then noon else "2026-01-01T01:00:00Z"

abbrev an_hour : ℕ
an_hour = 3_600

-- what `create_checkpoint` makes of the ledger at noon
abbrev checkpoint : Checkpoint
checkpoint =
    new_checkpoint ext "op" (some "store") (entry1 ∷ entry2 ∷ []) recovery_now "r1" none noon
      "2026-01-01T01:00:00Z"

abbrev supplied : Supplied
supplied = record { checkpoint = checkpoint; signature_b64 = "r1" }

created :
    create_checkpoint ext "op" clock_text
      (λ c. ok tt)
      (row1 ∷ row2 ∷ [])
      "r1"
      "r1"
      an_hour
      none
      noon_us
    ≡ ok supplied
unfolding checks
created = refl

noon_read : parse_timestamp ext noon ≡ some noon_us
unfolding checks
noon_read = refl

later_read :
    parse_timestamp ext (clock_text (noon_us + an_hour * 1_000_000))
    ≡ some (noon_us + an_hour * 1_000_000)
unfolding checks
later_read = refl

signed_by :
    (store : Option String) (out : List Entry) (k : Key)
    → verify_events ext "op" none (row1 ∷ row2 ∷ []) ≡ ok (store, out)
    → get_key "r1" (keys_after [] out) ≡ some k
    → ext.verifies_checkpoint k.certified.public_key_b64 supplied.signature_b64 supplied.checkpoint
      ≡ true
signed_by store out k h there =
    let same : (some "store", entry1 ∷ entry2 ∷ []) ≡ (store, out) =
      ok_injective (some "store", entry1 ∷ entry2 ∷ []) (store, out) (sym accepted2 ∙ h) in
    let one : get_key "r1" (keys_after [] (entry1 ∷ entry2 ∷ [])) ≡ some k =
      subst (λ (p : Option String × List Entry). get_key "r1" (keys_after [] p.1) ≡ some k)
        (sym same) there in
    let it : recovery_now ≡ k = some_injective recovery_now k (sym recovery_found ∙ one) in
    subst (λ (x : Key). str_eq x.certified.public_key_b64 "r1" ≡ true) it refl

created-accepted_example :
    (v : Verified) × (verify_authority_chain ext "op" none
        (row1 ∷ row2 ∷ [])
        (some supplied)
        none
        true
        (noon_us + 5)
      ≡ ok v)
created-accepted_example =
    created-accepted ext "op" clock_text (λ c. ok tt) (row1 ∷ row2 ∷ []) "r1" "r1" an_hour none
      noon_us (noon_us + 5) supplied created noon_read later_read signed_by refl (omega arith)
      (omega arith)

held :
    check_checkpoint ext "op"
      (some "store")
      (entry1 ∷ entry2 ∷ [])
      checkpoint
      "r1"
      true
      (noon_us + 5)
    ≡ ok entry2
unfolding checks
held = refl

check_checkpoint-Holds_example :
    CheckpointHolds ext "op"
      (some "store")
      (entry1 ∷ entry2 ∷ [])
      checkpoint
      "r1"
      (noon_us + 5)
      entry2
check_checkpoint-Holds_example =
    check_checkpoint-Holds ext "op" (some "store") (entry1 ∷ entry2 ∷ []) checkpoint "r1"
      (noon_us + 5) entry2 held
