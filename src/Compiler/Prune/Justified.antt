-- ===== src/Compiler/Prune/Justified.antt =====
-- compiler/spool.py: what one acknowledgement lets `prune_acknowledged_spools` delete.
use imprint.Base.{
  ℕ, String, ◌≡◌, refl, sym, ap, ◌∙◌, inl, inr, Bool, true, false, ◌&&◌, some, List, [], ◌∷◌, arith,
  str_eq, str_eq_iff, if◌then◌else◌, Bool-cases, Option-cases,
}
use imprint.Base.{inl, inr}
use mathlib.Core.List.{Memᴰ}
use mathlib.Core.Path.{subst}
use imprint.Time.{Stamp, parse_iso}
use imprint.Ontology.Json.{Json}
use imprint.Ontology.Fault.{Checked, ok, err, validation_error, key_error, type_error}
use imprint.Capture.Envelope.{Envelope, validate_capture_envelope}
use imprint.Compiler.Disk.{Place, same_place, SpoolFile, Ack, AckFile, Host, find_file}
use imprint.Compiler.Prune.{
  Ruling, is_invalid, was_pruned, retain, delete_both, is_old, source_of, same_source,
  compare_source, judge_source, judge,
}

pub some_injective {ℓ} : {A : Type ℓ} (a b : A) → some a ≡ some b → a ≡ b
some_injective a b h = ground arith

all_three : (a b c : Bool) → (a && b && c) ≡ true → (a ≡ true) × (b ≡ true) × (c ≡ true)
all_three a b c h = ground arith

module _ (host : Host) (node : String) (days now : ℕ) (acks : List AckFile) where
  -- an acknowledgement that stands on the disk
  abbrev pub Stored : Ack → Type 0
  Stored a = (p : AckFile) × Memᴰ p acks × (p.ack ≡ some a)

  -- the acknowledgement that allows the deletion of a spool file
  pub record Justified (f : SpoolFile) : Type 0 where
    pub ack : Ack
    pub stored : Stored ack
    pub proof_of_commit : ack.committed ≡ true
    pub ours : ack.node_id ≡ node
    pub place : same_place (source_of host node days now ack) f.place ≡ true
    pub time : Stamp
    pub acknowledged_at : parse_iso ack.acknowledged_at ≡ some time
    pub past_retention : is_old host node days now time ≡ true
    pub value : Json
    pub envelope : Envelope
    pub decoded : host.loads_bytes f.content ≡ some value
    pub valid : validate_capture_envelope host.sha256 host.json_bytes value ≡ ok envelope
    pub event_same : envelope.head.input_event_id ≡ ack.input_event_id
    pub payload_same : host.payload_sha256 value ≡ ack.payload_sha256
    pub bytes_same : host.file_sha256 f.content ≡ ack.source_file_sha256

  -- what the comparison with the source has found
  record Compared (a : Ack) (t : Stamp) (file : SpoolFile) (value : Json) (r : Checked Envelope)
      : Type 0 where
    envelope : Envelope
    valid : r ≡ ok envelope
    event_same : envelope.head.input_event_id ≡ a.input_event_id
    payload_same : host.payload_sha256 value ≡ a.payload_sha256
    bytes_same : host.file_sha256 file.content ≡ a.source_file_sha256
    past_retention : is_old host node days now t ≡ true

  abbrev pub is_delete : Ruling → Bool
  is_delete delete_both = true
  is_delete _ = false

  never {ℓ} : {A : Type ℓ} (y : Ruling) → is_delete y ≡ false → y ≡ delete_both → A
  never y k h = let clash : false ≡ true = sym k ∙ ap is_delete h in cc clash

  if_delete :
      (b : Bool) (x y : Ruling)
      → is_delete y ≡ false
      → (if b then x else y) ≡ delete_both
      → (b ≡ true) × (x ≡ delete_both)
  if_delete true x y k h = (refl, h)
  if_delete false x y k h = let clash : false ≡ true = sym k ∙ ap is_delete h in cc clash

  compare_source-Compared :
      (a : Ack) (t : Stamp) (file : SpoolFile) (value : Json) (r : Checked Envelope)
      → compare_source host node days now a t file value r ≡ delete_both
      → Compared a t file value r
  compare_source-Compared a t file value (err (validation_error m)) h = cc
  compare_source-Compared a t file value (err (key_error k)) h = cc
  compare_source-Compared a t file value (err type_error) h = cc
  compare_source-Compared a t file value (ok e) h =
      let test1 = str_eq e.head.input_event_id a.input_event_id in
      let test2 = str_eq (host.payload_sha256 value) a.payload_sha256 in
      let test3 = str_eq (host.file_sha256 file.content) a.source_file_sha256 in
      let (same, h1) = if_delete (test1 && test2 && test3) _ is_invalid refl h in
      let (s1, s2, s3) = all_three test1 test2 test3 same in
      let (old, _) = if_delete (is_old host node days now t) delete_both retain refl h1 in
      record {
        envelope = e;
        valid = refl;
        event_same = (str_eq_iff e.head.input_event_id a.input_event_id).0 s1;
        payload_same = (str_eq_iff (host.payload_sha256 value) a.payload_sha256).0 s2;
        bytes_same = (str_eq_iff (host.file_sha256 file.content) a.source_file_sha256).0 s3;
        past_retention = old;
      }

  decoded_source-Justified :
      (a : Ack) (t : Stamp) (file : SpoolFile)
      → Stored a
      → a.committed ≡ true
      → a.node_id ≡ node
      → parse_iso a.acknowledged_at ≡ some t
      → same_place (source_of host node days now a) file.place ≡ true
      → judge_source host node days now a t (some file) ≡ delete_both
      → Justified file
  decoded_source-Justified a t file stored committed ours read at h =
      elim (Option-cases (host.loads_bytes file.content)) [
        | inl e ↦ let clash : is_invalid ≡ delete_both = rw e at h in never is_invalid refl clash
        | inr (value, e) ↦
            let c = compare_source-Compared a t file value _ (rw e at h) in
            record {
              ack = a;
              stored = stored;
              proof_of_commit = committed;
              ours = ours;
              place = at;
              time = t;
              acknowledged_at = read;
              past_retention = c.past_retention;
              value = value;
              envelope = c.envelope;
              decoded = e;
              valid = c.valid;
              event_same = c.event_same;
              payload_same = c.payload_same;
              bytes_same = c.bytes_same;
            }
      ]

  find_file-place :
      (p : Place) (fs : List SpoolFile) (g : SpoolFile)
      → find_file p fs ≡ some g
      → same_place p g.place ≡ true
  find_file-place p [] g h = cc
  find_file-place p (f ∷ fs) g h = elim (Bool-cases (same_place p f.place)) [
    | inl e ↦
        subst (λ (x : SpoolFile). same_place p x.place ≡ true) (some_injective f g (rw e at h)) e
    | inr e ↦ find_file-place p fs g (rw e at h)
  ]

  pub judge-Justified :
      (a : Ack) (spool : List SpoolFile)
      → Stored a
      → judge host node days now (some a) spool ≡ delete_both
      → (g : SpoolFile) × (find_file (source_of host node days now a) spool ≡ some g) × Justified g
  unfolding judge
  judge-Justified a spool stored h =
      let test1 = str_eq a.ack_schema_version "1.0.0" in
      let (same, h1) =
        if_delete (test1 && a.committed && str_eq a.node_id node) _ is_invalid refl h in
      let (_, s2, s3) = all_three test1 a.committed (str_eq a.node_id node) same in
      elim (Option-cases (parse_iso a.acknowledged_at)) [
        | inl e ↦ let clash : is_invalid ≡ delete_both = rw e at h1 in never is_invalid refl clash
        | inr (t, e) ↦
            let (_, h2) =
              if_delete
                (same_source host node days now (host.place_of a.source_path)
                  (source_of host node days now a))
                (judge_source host node days now a t
                  (find_file (source_of host node days now a) spool))
                is_invalid refl (rw e at h1) in
            elim (Option-cases (find_file (source_of host node days now a) spool)) [
              | inl n ↦
                  let clash : was_pruned ≡ delete_both = rw n at h2 in never was_pruned refl clash
              | inr (g, f) ↦ (
                g,
                f,
                decoded_source-Justified a t g stored s2 ((str_eq_iff a.node_id node).0 s3) e
                    (find_file-place (source_of host node days now a) spool g f) (rw f at h2),
              )
            ]
      ]
