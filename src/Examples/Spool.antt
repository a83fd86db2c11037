-- ===== src/Examples/Spool.antt =====
-- A spool with one envelope and one file that is no JSON, before and after its retention.
use imprint.Capture.Envelope.{envelope_checks}
use imprint.Base.{sort_by, insert_by}
use imprint.Time.{parse_iso}
use imprint.Compiler.Disk.{
  published, failed_after, find_ack, acknowledged, acknowledgement_committed, ack_matches,
  quarantine_receipt, write_acknowledgement, unlink_file, unlink_ack,
}
use imprint.Compiler.Prune.{prune_acknowledged_spools, prune_acks, judge, is_safe_node}
use imprint.Compiler.Spool.{collect, settle, settle_one, read_spool_file, prune_all}
use imprint.Base.{
  ℕ, String, ◌≡◌, refl, true, false, Option, none, some, [], ◌∷◌, str_eq, if◌then◌else◌, All, codes,
}
use imprint.Ontology.Json.{Json, str, arr, nil, obj, end}
use imprint.Compiler.Disk.{Place, SpoolFile, AckFile, Disk, Host, returned, raised, disk_of}
use imprint.Compiler.Spool.{
  captured, Store, Collected, Counts, compile_inputs, compile_spools, write_envelope,
}
use imprint.Compiler.Spool.Written.{Safe, write_envelope-Safe}
use imprint.Compiler.Spool.Deleted.{Accounted, compile_spools-Accounted}
use imprint.Compiler.Spool.Complete.{Answered, compile_inputs-Answered}
use imprint.Examples.Envelope.{zeros, envelope, envelope_with}

abbrev value : Json
value = envelope_with (str "explicit_cli")

abbrev home_place : Place
home_place = record { node = "laptop-1"; event = codes "0f8fad5b-d9cb-469f-a165-708677289501" }

abbrev parsed : String → Option Json
parsed s =
    if str_eq s "E"
    then some value
    else if str_eq s "{}"
    then some (obj end)
    else if str_eq s "T"
    then some (envelope_with (arr nil))
    else none

abbrev host : Host
host = record {
  loads = parsed;
  loads_bytes = parsed;
  decode_text = λ s. some s;
  path_text = λ p. p.node;
  place_of = λ s. if str_eq s "laptop-1" then some home_place else none;
  sha256 = λ s. if str_eq s "No, shorter." then zeros else s;
  file_sha256 = λ t. t;
  payload_sha256 = λ v. "payload";
  json_bytes = λ v. 1000;
  canonical_bytes = λ v. "E";
  path_lt = λ p q. false;
  local_instant = λ t. 0;
  now_text = "2026-01-01T00:00:00+00:00";
  ack_publication = λ p. published;
  receipt_publication = λ p. published;
}

abbrev good : SpoolFile
good = record { place = home_place; content = "E" }

abbrev broken : SpoolFile
broken = record { place = record { node = "laptop-2"; event = [] }; content = "{" }

abbrev before : Disk
before = record { spool = good ∷ broken ∷ []; acks = []; quarantine = [] }

abbrev ack_file : AckFile
ack_file = record {
  place = home_place;
  ack = some (record {
    ack_schema_version = "1.0.0";
    input_event_id = "urn:imprint:event:0f8fad5b-d9cb-469f-a165-708677289501";
    node_id = "laptop-1";
    payload_sha256 = "payload";
    source_file_sha256 = "E";
    source_path = "laptop-1";
    committed = true;
    compiler_result = "captured";
    acknowledged_at = "2026-01-01T00:00:00+00:00";
  });
}

abbrev after : Disk
after = record {
  spool = good ∷ broken ∷ [];
  acks = ack_file ∷ [];
  quarantine =
      record {
        receipt_id = "laptop-2";
        error_type = "JSONDecodeError";
        recorded_at = "2026-01-01T00:00:00+00:00";
      }
      ∷ [];
}

abbrev store : Store host
store inputs = some (captured ∷ [])

abbrev found : Collected × Counts
found = (
  record {
    inputs = (good, record { value = value; envelope = envelope }) ∷ [];
    producers = "laptop-1" ∷ [];
    quarantined = 1;
  },
  record { captured = 1; duplicate = 0; quarantined = 1 },
)

-- opens every step of a compilation, for a test
unfoldable spool_steps : Unit {0}
unfolding compile_inputs collect settle settle_one read_spool_file write_acknowledgement find_ack
    acknowledged acknowledgement_committed ack_matches quarantine_receipt envelope_checks sort_by
    insert_by compile_spools prune_all prune_acknowledged_spools prune_acks judge unlink_file
    unlink_ack is_safe_node parse_iso
spool_steps = tt

settled : compile_inputs host store before ≡ returned found after
unfolding spool_steps
settled = refl

compile_inputs-Answered_example : All (Answered host after) before.spool
compile_inputs-Answered_example = compile_inputs-Answered host store before after found settled

-- one microsecond before the retention of the envelope has passed, and when it has
abbrev limit : ℕ
limit = 63905500800000000

abbrev before_limit : ℕ
before_limit = 63905500799999999

kept : (disk_of (compile_spools host store true false 30 before_limit before)).spool ≡ before.spool
unfolding spool_steps
kept = refl

deleted : (disk_of (compile_spools host store true false 30 limit before)).spool ≡ broken ∷ []
unfolding spool_steps
deleted = refl

compile_spools-Accounted_example :
    Accounted host 30 limit
      (disk_of (compile_inputs host store before)).acks
      before.spool
      (disk_of (compile_spools host store true false 30 limit before)).spool
compile_spools-Accounted_example = compile_spools-Accounted host 30 limit store true false before

conflict :
    write_envelope host published value (record {
      spool = record { place = home_place; content = "{" } ∷ [];
      acks = [];
      quarantine = [];
    })
    ≡ raised "ConflictError" (record {
      spool = record { place = home_place; content = "{" } ∷ [];
      acks = [];
      quarantine = [];
    })
unfolding write_envelope envelope_checks
conflict = refl

abbrev empty : Disk
empty = record { spool = []; acks = []; quarantine = [] }

-- The file stays where the flush of the directory raises behind it.
left_behind :
    write_envelope host (failed_after "OSError") value empty
    ≡ raised "OSError" (record empty { spool = good ∷ [] })
unfolding write_envelope envelope_checks
left_behind = refl

write_envelope-Safe_example :
    Safe host published value after (write_envelope host published value after)
write_envelope-Safe_example = write_envelope-Safe host published value after

-- A source that is JSON and no envelope: the exception is not one that the prune counts.
abbrev no_envelope : Disk
no_envelope = record {
  spool = record { place = home_place; content = "{}" } ∷ [];
  acks = ack_file ∷ [];
  quarantine = [];
}

prune_raises :
    prune_acknowledged_spools host "laptop-1" 30 limit no_envelope
    ≡ raised "ValidationError" no_envelope
unfolding spool_steps
prune_raises = refl

-- One file with a list for its mechanism stops the compilation of the other.
abbrev with_list : Disk
with_list = record {
  spool = record { place = record { node = "laptop-2"; event = [] }; content = "T" } ∷ good ∷ [];
  acks = [];
  quarantine = [];
}

compile_raises :
    compile_spools host store true false 30 limit with_list ≡ raised "TypeError" with_list
unfolding spool_steps
compile_raises = refl
