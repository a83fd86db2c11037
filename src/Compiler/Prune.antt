-- ===== src/Compiler/Prune.antt =====
-- compiler/spool.py: `prune_acknowledged_spools`. Links and other files that are not regular are left
-- out, a receipt has a time, and times are within the years that `astimezone` converts.
pub mod Justified
pub mod Proof
pub mod Within
use imprint.Base.{
  ℕ, zero, suc, ◌+◌, ◌-◌, ◌*◌, ◌/◌, ◌%◌, ◌≤◌, ◌<◌, String, ◌≡◌, refl, sym, ap, ◌∙◌, ◌≢◌, ◌↔◌, ◌⊎◌,
  inl, inr, Bool, true, false, not, ◌&&◌, ◌||◌, Option, none, some, List, [], ◌∷◌, ◌++◌, map,
  reverse, arith, ltb, leb, ◌==◌, str_eq, str_eq_iff, if◌then◌else◌, Bool-cases, Option-cases,
  tests, length, length-append, keep, all, any, All, mem, distinct, ℤ, pos, negsuc, pos_part,
  neg_part, sub_ℕ, negate_ℕ, negate, ltbℤ, eqbℤ, codes, codes_eq, has_text, is_digit, is_lower,
  text_lt,
}
use imprint.Base.{sort_by}
use imprint.Time.{Stamp, parse_iso, day_us}
use imprint.Ontology.Json.{Json}
use imprint.Ontology.Fault.{Checked, Fault, ok, err, validation_error, key_error, type_error}
use imprint.Capture.Envelope.{Envelope, validate_capture_envelope}
use imprint.Compiler.Disk.{
  Place, same_place, SpoolFile, Ack, AckFile, Receipt, Disk, Host, event_of, Ran, returned, raised,
  find_file, unlink_file, unlink_ack,
}

pub record PruneCounts : Type 0 where
  pub deleted : ℕ
  pub retained : ℕ
  pub already_pruned : ℕ
  pub acknowledgements_deleted : ℕ
  pub quarantine_deleted : ℕ
  pub invalid : ℕ

-- what one acknowledgement leads to
pub data Ruling : Type 0 where
  is_invalid was_pruned retain delete_both : Ruling
  -- an exception that the loop does not catch
  escapes : String → Ruling

abbrev safe_char : ℕ → Bool
safe_char c = is_lower c || is_digit c || (leb b'A' c && leb c b'Z') || c == b'-' || c == b'_'

-- the identity of a producer that may be pruned
unfoldable pub is_safe_node : String → Bool
is_safe_node s = not (length (codes s) == 0) && all safe_char (codes s)

module _ (host : Host) (node : String) (days now : ℕ) where
  abbrev instant : Stamp → ℕ
  instant t = if t.aware then t.instant else host.local_instant t

  -- at or before `now - timedelta(days=retention_days)`
  abbrev pub is_old : Stamp → Bool
  is_old t = leb (instant t + days * day_us) now

  abbrev same_source : Option Place → Place → Bool
  same_source none p = false
  same_source (some q) p = same_place q p

  -- the place of the source of an acknowledgement
  abbrev pub source_of : Ack → Place
  source_of a = record { node = node; event = event_of a.input_event_id }

  -- the source is read again and compared with the acknowledgement
  abbrev compare_source : Ack → Stamp → SpoolFile → Json → Checked Envelope → Ruling
  compare_source a t file value (err (validation_error m)) = escapes "ValidationError"
  compare_source a t file value (err (key_error k)) = is_invalid
  compare_source a t file value (err type_error) = is_invalid
  compare_source a t file value (ok e) =
      if str_eq e.head.input_event_id a.input_event_id
        && str_eq (host.payload_sha256 value) a.payload_sha256
        && str_eq (host.file_sha256 file.content) a.source_file_sha256
      then (if is_old t then delete_both else retain)
      else is_invalid

  abbrev decoded_source : Ack → Stamp → SpoolFile → Option Json → Ruling
  decoded_source a t file none = is_invalid
  decoded_source a t file (some value) =
      compare_source a t file value (validate_capture_envelope host.sha256 host.json_bytes value)

  abbrev judge_source : Ack → Stamp → Option SpoolFile → Ruling
  judge_source a t none = was_pruned
  judge_source a t (some file) = decoded_source a t file (host.loads_bytes file.content)

  abbrev judge_time : Ack → List SpoolFile → Option Stamp → Ruling
  judge_time a spool none = is_invalid
  judge_time a spool (some t) =
      if same_source (host.place_of a.source_path) (source_of a)
      then judge_source a t (find_file (source_of a) spool)
      else is_invalid

  unfoldable pub judge : Option Ack → List SpoolFile → Ruling
  judge none spool = is_invalid
  judge (some a) spool =
      if str_eq a.ack_schema_version "1.0.0" && a.committed && str_eq a.node_id node
      then judge_time a spool (parse_iso a.acknowledged_at)
      else is_invalid

  abbrev source_place : Option Ack → Place
  source_place none = record { node = node; event = [] }
  source_place (some a) = source_of a

  -- the counters and the files behind a ruling
  abbrev count : Ruling → PruneCounts → PruneCounts
  count is_invalid c = record c { invalid = suc c.invalid }
  count was_pruned c = record c {
    already_pruned = suc c.already_pruned;
    acknowledgements_deleted = suc c.acknowledgements_deleted;
  }
  count retain c = record c { retained = suc c.retained }
  count delete_both c = record c {
    deleted = suc c.deleted;
    acknowledgements_deleted = suc c.acknowledgements_deleted;
  }
  count (escapes e) c = c

  abbrev carry_out : Ruling → AckFile → Disk → Disk
  carry_out was_pruned f d = record d { acks = unlink_ack f.place d.acks }
  carry_out delete_both f d = record d {
    spool = unlink_file (source_place f.ack) d.spool;
    acks = unlink_ack f.place d.acks;
  }
  carry_out _ f d = d

  abbrev escaped : Ruling → Option String
  escaped (escapes e) = some e
  escaped _ = none

  -- the loop over the acknowledgements
  unfoldable pub prune_acks : List AckFile → PruneCounts → Disk → Ran PruneCounts
  prune_acks [] c d = returned c d
  prune_acks (f ∷ fs) c d = elim (escaped (judge f.ack d.spool)) [
    | none ↦ prune_acks fs (count (judge f.ack d.spool) c) (carry_out (judge f.ack d.spool) f d)
    | some e ↦ raised e d
  ]

  abbrev receipt_old : Receipt → Option Stamp → Bool
  receipt_old r none = false
  receipt_old r (some t) = is_old t

  abbrev is_read : Option Stamp → Bool
  is_read none = false
  is_read (some t) = true

  -- the loop over the quarantine receipts
  abbrev prune_receipts : PruneCounts → Disk → Ran PruneCounts
  prune_receipts c d =
      let old = λ (r : Receipt). receipt_old r (parse_iso r.recorded_at) in
      let bad = λ (r : Receipt). not (is_read (parse_iso r.recorded_at)) in
      returned
        (record c {
          quarantine_deleted = c.quarantine_deleted + length (keep old d.quarantine);
          invalid = c.invalid + length (keep bad d.quarantine);
        })
        (record d { quarantine = keep (λ r. not (old r)) d.quarantine })

  abbrev then_receipts : Ran PruneCounts → Ran PruneCounts
  then_receipts (returned c d) = prune_receipts c d
  then_receipts (raised e d) = raised e d

  abbrev zero_counts : PruneCounts
  zero_counts = record {
    deleted = 0;
    retained = 0;
    already_pruned = 0;
    acknowledgements_deleted = 0;
    quarantine_deleted = 0;
    invalid = 0;
  }

  unfoldable pub prune_acknowledged_spools : Disk → Ran PruneCounts
  prune_acknowledged_spools d =
      if not (leb 1 days) || not (is_safe_node node)
      then raised "SafetyError" d
      else then_receipts (
          prune_acks
            (sort_by (λ a b. host.path_lt a.place b.place)
              (keep (λ (a : AckFile). str_eq a.place.node node) d.acks))
            zero_counts d)
