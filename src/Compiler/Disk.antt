-- ===== src/Compiler/Disk.antt =====
-- compiler/spool.py: the files of an operator's root that the compiler reads and writes, the
-- acknowledgements and the quarantine receipts. Links, permissions, the lock and
-- acknowledgements with further fields are left out.
pub mod Places
use imprint.Base.{
  ℕ, String, Bool, true, false, ◌&&◌, ◌||◌, Option, none, some, List, [], ◌∷◌, str_eq,
  if◌then◌else◌, mem, codes, codes_eq,
}
use imprint.Time.{Stamp}
use imprint.Ontology.Urn.{split_on}
use imprint.Ontology.Json.{Json}
use imprint.Capture.Envelope.{Envelope}

-- NODE/EVENT.json, under `spool` or under `runtime/acknowledgements`; an event is its code points
pub record Place : Type 0 where
  pub node : String
  pub event : List ℕ

abbrev pub same_place : Place → Place → Bool
same_place a b = str_eq a.node b.node && codes_eq a.event b.event

-- a file of the spool, and its bytes
pub record SpoolFile : Type 0 where
  pub place : Place
  pub content : String

-- the object of an acknowledgement, with all its fields
pub record Ack : Type 0 where
  pub ack_schema_version : String
  pub input_event_id : String
  pub node_id : String
  pub payload_sha256 : String
  pub source_file_sha256 : String
  pub source_path : String
  pub committed : Bool
  pub compiler_result : String
  pub acknowledged_at : String

-- an acknowledgement, with `none` for a file that holds no such object
pub record AckFile : Type 0 where
  pub place : Place
  pub ack : Option Ack

pub record Receipt : Type 0 where
  pub receipt_id : String
  pub error_type : String
  pub recorded_at : String

pub record Disk : Type 0 where
  pub spool : List SpoolFile
  pub acks : List AckFile
  pub quarantine : List Receipt

-- how `publish_new_private` ends: with the file, with an exception before or after the file is in its
-- place, or with the `SafetyError` of a file that another process has put there
pub data Publication (A : Type 0) : Type 0 where
  published : Publication A
  failed : String → Publication A
  failed_after : String → Publication A
  raced : A → Publication A

pub record Host : Type 0 where
  -- `json.loads` of a text and of bytes, which looks for the encoding itself
  pub loads : String → Option Json
  pub loads_bytes : String → Option Json
  -- `read_text(encoding="utf-8")`, with none for `UnicodeDecodeError`
  pub decode_text : String → Option String
  -- `path.relative_to(root).as_posix()` of a spool file, and the place that a path names
  pub path_text : Place → String
  pub place_of : String → Option Place
  -- SHA-256 of a text, of the bytes of a file, and of the canonical JSON of an envelope
  pub sha256 : String → String
  pub file_sha256 : String → String
  pub payload_sha256 : Json → String
  pub json_bytes : Json → ℕ
  -- `canonical_bytes(value) + b"\n"`
  pub canonical_bytes : Json → String
  -- the order of paths, and the instant of a time without a zone
  pub path_lt : Place → Place → Bool
  pub local_instant : Stamp → ℕ
  -- the time of the clock as a text
  pub now_text : String
  -- how the publication of an acknowledgement ends, by its place, and that of a spool file's receipt
  pub ack_publication : Place → Publication (Option Ack)
  pub receipt_publication : Place → Publication Receipt

-- an envelope that was read, with the object that it was read from
pub record Read : Type 0 where
  pub value : Json
  pub envelope : Envelope

abbrev pub last_part : List (List ℕ) → List ℕ
last_part [] = []
last_part (p ∷ []) = p
last_part (p ∷ q ∷ ps) = last_part (q ∷ ps)

-- `input_event_id.rsplit(":", 1)[-1]`
abbrev pub event_of : String → List ℕ
event_of id = last_part (split_on b':' (codes id))

-- `_ack_path`, and the place of an envelope in the spool
abbrev pub home : Envelope → Place
home e = record { node = e.head.node_id; event = event_of e.head.input_event_id }

unfoldable pub find_ack : Place → List AckFile → Option AckFile
find_ack p [] = none
find_ack p (a ∷ as') = if same_place p a.place then some a else find_ack p as'

abbrev pub has_receipt : String → List Receipt → Bool
has_receipt id [] = false
has_receipt id (r ∷ rs) = str_eq id r.receipt_id || has_receipt id rs

-- what a function leaves: a value, or an exception by its name, and the files
pub data Ran (A : Type 0) : Type 0 where
  returned : A → Disk → Ran A
  raised : String → Disk → Ran A

abbrev pub disk_of : {A : Type 0} → Ran A → Disk
disk_of (returned a d) = d
disk_of (raised e d) = d

abbrev pub find_file : Place → List SpoolFile → Option SpoolFile
find_file p [] = none
find_file p (f ∷ fs) = if same_place p f.place then some f else find_file p fs

-- `unlink` of a spool file and of an acknowledgement
unfoldable pub unlink_file : Place → List SpoolFile → List SpoolFile
unlink_file p [] = []
unlink_file p (f ∷ fs) =
    let rest = unlink_file p fs in if same_place p f.place then fs else f ∷ rest

unfoldable pub unlink_ack : Place → List AckFile → List AckFile
unlink_ack p [] = []
unlink_ack p (a ∷ as') =
    let rest = unlink_ack p as' in if same_place p a.place then as' else a ∷ rest

module _ (host : Host) where
  -- the fields of an acknowledgement that the second writer compares
  unfoldable pub ack_matches : SpoolFile → Read → Ack → Bool
  ack_matches file r a =
      str_eq a.ack_schema_version "1.0.0"
      && str_eq a.input_event_id r.envelope.head.input_event_id
      && str_eq a.node_id r.envelope.head.node_id
      && str_eq a.payload_sha256 (host.payload_sha256 r.value)
      && str_eq a.source_file_sha256 (host.file_sha256 file.content)
      && str_eq a.source_path (host.path_text file.place)
      && a.committed

  abbrev pub ack_of : Option AckFile → Option Ack
  ack_of none = none
  ack_of (some f) = f.ack

  abbrev pub matching : SpoolFile → Read → Option Ack → Bool
  matching file r none = false
  matching file r (some a) = ack_matches file r a

  abbrev known_result : Option Ack → Bool
  known_result none = false
  known_result (some a) = mem a.compiler_result ("captured" ∷ "duplicate" ∷ [])

  -- an acknowledgement of a spool file stands on the disk
  unfoldable pub acknowledged : SpoolFile → Read → Disk → Bool
  acknowledged file r d = matching file r (ack_of (find_ack (home r.envelope) d.acks))

  unfoldable pub acknowledgement_committed : SpoolFile → Read → Disk → Bool
  unfolding acknowledged
  acknowledgement_committed file r d =
      acknowledged file r d && known_result (ack_of (find_ack (home r.envelope) d.acks))

  abbrev pub receipt_id : SpoolFile → String
  receipt_id file = host.sha256 (host.path_text file.place)

  abbrev pub new_receipt : SpoolFile → String → Receipt
  new_receipt file error_type = record {
    receipt_id = receipt_id file;
    error_type = error_type;
    recorded_at = host.now_text;
  }

  abbrev pub add_receipt : Receipt → Disk → Disk
  add_receipt r d = record d { quarantine = r ∷ d.quarantine }

  -- a `SafetyError` is forgiven where the receipt is there now; a file's name is its receipt's id
  abbrev pub publish_receipt : Publication Receipt → Receipt → Disk → Ran (Unit {0})
  publish_receipt published r d = returned tt (add_receipt r d)
  publish_receipt (failed e) r d = raised e d
  publish_receipt (failed_after e) r d =
      if str_eq e "SafetyError" then returned tt (add_receipt r d) else raised e (add_receipt r d)
  publish_receipt (raced other) r d =
      returned tt (add_receipt (record other { receipt_id = r.receipt_id }) d)

  -- `_quarantine_receipt`: a receipt that is there already stays
  unfoldable pub quarantine_receipt : SpoolFile → String → Disk → Ran (Unit {0})
  quarantine_receipt file error_type d =
      if has_receipt (receipt_id file) d.quarantine
      then returned tt d
      else publish_receipt (host.receipt_publication file.place) (new_receipt file error_type) d

  abbrev pub new_ack : SpoolFile → Read → String → Ack
  new_ack file r result = record {
    ack_schema_version = "1.0.0";
    input_event_id = r.envelope.head.input_event_id;
    node_id = r.envelope.head.node_id;
    payload_sha256 = host.payload_sha256 r.value;
    source_file_sha256 = host.file_sha256 file.content;
    source_path = host.path_text file.place;
    committed = true;
    compiler_result = result;
    acknowledged_at = host.now_text;
  }

  abbrev pub add_ack : Read → Option Ack → Disk → Disk
  add_ack r a d = record d { acks = record { place = home r.envelope; ack = a } ∷ d.acks }

  -- after a `SafetyError` the file that is there, if any, is compared
  abbrev pub publish_ack : Publication (Option Ack) → SpoolFile → Read → Ack → Disk → Ran (Unit {0})
  publish_ack published file r a d = returned tt (add_ack r (some a) d)
  publish_ack (failed e) file r a d =
      if str_eq e "SafetyError" then raised "ConflictError" d else raised e d
  publish_ack (failed_after e) file r a d =
      if str_eq e "SafetyError"
      then returned tt (add_ack r (some a) d)
      else raised e (add_ack r (some a) d)
  publish_ack (raced other) file r a d =
      if matching file r other
      then returned tt (add_ack r other d)
      else raised "ConflictError" (add_ack r other d)

  abbrev pub write_at : SpoolFile → Read → String → Disk → Option AckFile → Ran (Unit {0})
  write_at file r result d none =
      publish_ack (host.ack_publication (home r.envelope)) file r (new_ack file r result) d
  write_at file r result d (some f) =
      if matching file r f.ack then returned tt d else raised "ConflictError" d

  -- `_write_acknowledgement`
  unfoldable pub write_acknowledgement : SpoolFile → Read → String → Disk → Ran (Unit {0})
  write_acknowledgement file r result d =
      write_at file r result d (find_ack (home r.envelope) d.acks)
