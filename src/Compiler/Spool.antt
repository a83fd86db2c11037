-- ===== src/Compiler/Spool.antt =====
-- compiler/spool.py: `write_envelope` and `compile_spools`. The lock is one value, since another
-- writer is refused; its heartbeat is left out. `apply_capture_batch` of the store is a parameter.
-- An acknowledgement that is no JSON raises by the name of the one that conflicts.
pub mod Settled
pub mod Deleted
pub mod Answered
pub mod Complete
pub mod Written
use imprint.Base.{
  ℕ, zero, suc, ◌+◌, ◌-◌, ◌*◌, ◌/◌, ◌%◌, ◌≤◌, ◌<◌, String, ◌≡◌, refl, sym, ap, ◌∙◌, ◌≢◌, ◌↔◌, ◌⊎◌,
  inl, inr, Bool, true, false, not, ◌&&◌, ◌||◌, Option, none, some, List, [], ◌∷◌, ◌++◌, map,
  reverse, arith, ltb, leb, ◌==◌, str_eq, str_eq_iff, if◌then◌else◌, Bool-cases, Option-cases,
  tests, length, length-append, keep, all, any, All, mem, distinct, ℤ, pos, negsuc, pos_part,
  neg_part, sub_ℕ, negate_ℕ, negate, ltbℤ, eqbℤ, codes, codes_eq, has_text, is_digit, is_lower,
  text_lt,
}
use imprint.Base.{sort_by}
use imprint.Ontology.Json.{Json, null, bool, int, float, str, arr, obj}
use imprint.Ontology.Fault.{Checked, Fault, ok, err, validation_error, key_error, type_error}
use imprint.Capture.Envelope.{Envelope, validate_capture_envelope}
use imprint.Compiler.Disk.{
  Publication, published, failed, failed_after, raced, Place, SpoolFile, Disk, Host, Read, home,
  Ran, returned, raised, disk_of, find_file, quarantine_receipt, write_acknowledgement,
  acknowledgement_committed,
}
use imprint.Compiler.Prune.{PruneCounts, prune_acknowledged_spools}

abbrev pub fault_name : Fault → String
fault_name (validation_error m) = "ValidationError"
fault_name (key_error k) = "KeyError"
fault_name type_error = "TypeError"

-- what the compiler makes of a spool file
pub data Reading : Type 0 where
  -- the type of the exception that sends it to quarantine
  rejected : String → Reading
  -- the type of an exception that the loop does not catch
  escapes : String → Reading
  accepted : Read → Reading

-- one result of `apply_capture_batch`
pub data Applied : Type 0 where
  captured duplicate : Applied
  -- a `ValidationError` or a `ConflictError`
  refused : String → Applied

abbrev pub Input : Type 0
Input = SpoolFile × Read

pub record Collected : Type 0 where
  pub inputs : List Input
  pub producers : List String
  pub quarantined : ℕ

pub record Counts : Type 0 where
  pub captured : ℕ
  pub duplicate : ℕ
  pub quarantined : ℕ

abbrev pub then_ran : {A B : Type 0} → Ran A → (A → Disk → Ran B) → Ran B
then_ran (returned a d) next = next a d
then_ran (raised e d) next = raised e d

module _ (host : Host) where
  abbrev validated : Json → Checked Envelope → Reading
  validated value (ok e) = accepted (record { value = value; envelope = e })
  validated value (err (validation_error m)) = rejected "ValidationError"
  validated value (err (key_error k)) = escapes "KeyError"
  validated value (err type_error) = escapes "TypeError"

  -- a value that is no object is a `ValueError`
  abbrev as_object : Json → Reading
  as_object (obj fields) =
      validated (obj fields) (validate_capture_envelope host.sha256 host.json_bytes (obj fields))
  as_object _ = rejected "ValueError"

  abbrev decoded : Option Json → Reading
  decoded none = rejected "JSONDecodeError"
  decoded (some value) = as_object value

  abbrev read_content : Option String → Reading
  read_content none = rejected "UnicodeDecodeError"
  read_content (some text) = decoded (host.loads text)

  unfoldable pub read_spool_file : SpoolFile → Reading
  read_spool_file file = read_content (host.decode_text file.content)

  abbrev add_input : SpoolFile → Read → Disk → Collected → Collected
  add_input file r d c =
      let known = record c { producers = r.envelope.head.node_id ∷ c.producers } in
      if acknowledgement_committed host file r d
      then known
      else record known { inputs = (file, r) ∷ c.inputs }

  -- the first loop, with what it has collected so far
  unfoldable pub collect : List SpoolFile → Collected → Disk → Ran Collected
  collect [] c d = returned c d
  collect (f ∷ fs) c d = elim (read_spool_file f) [
    | rejected type ↦
        then_ran (quarantine_receipt host f type d)
          (λ u left. collect fs (record c { quarantined = suc c.quarantined }) left)
    | escapes type ↦ raised type d
    | accepted r ↦ collect fs (add_input f r d c) d
  ]

  abbrev result_text : Applied → String
  result_text captured = "captured"
  result_text duplicate = "duplicate"
  result_text (refused type) = type

  abbrev count : Applied → Counts → Counts
  count captured c = record c { captured = suc c.captured }
  count duplicate c = record c { duplicate = suc c.duplicate }
  count (refused type) c = record c { quarantined = suc c.quarantined }

  -- the file of one input behind its result
  unfoldable pub settle_one : Input → Applied → Disk → Ran (Unit {0})
  settle_one (f, r) captured d = write_acknowledgement host f r "captured" d
  settle_one (f, r) duplicate d = write_acknowledgement host f r "duplicate" d
  settle_one (f, r) (refused type) d = quarantine_receipt host f type d

  -- the second loop; `zip(..., strict=True)` raises where the lengths differ
  unfoldable pub settle : List Input → List Applied → Counts → Disk → Ran Counts
  settle [] [] c d = returned c d
  settle (i ∷ is) (a ∷ as') c d =
      then_ran (settle_one i a d) (λ u next. settle is as' (count a c) next)
  settle [] (a ∷ as') c d = raised "ValueError" d
  settle (i ∷ is) [] c d = raised "ValueError" d

  -- the order of `sorted(inputs)`
  abbrev input_lt : Input → Input → Bool
  input_lt (f, r) (g, s) =
      text_lt r.envelope.head.captured_at s.envelope.head.captured_at
      || (str_eq r.envelope.head.captured_at s.envelope.head.captured_at
          && (text_lt r.envelope.head.input_event_id s.envelope.head.input_event_id
              || (str_eq r.envelope.head.input_event_id s.envelope.head.input_event_id
                  && host.path_lt f.place g.place)))

  abbrev spool_order : List SpoolFile → List SpoolFile
  spool_order files = sort_by (λ a b. host.path_lt a.place b.place) files

  -- the batch of the store: its results, or the exception that it raises
  abbrev pub Store : Type 0
  Store = List (Json × String) → Option (List Applied)

  abbrev batch : List Input → List (Json × String)
  batch [] = []
  batch ((f, r) ∷ is) = (r.value, host.path_text f.place) ∷ batch is

  abbrev settle_batch : List Input → Option (List Applied) → Counts → Disk → Ran Counts
  settle_batch inputs none c d = raised "store" d
  settle_batch inputs (some results) c d = settle inputs results c d

  abbrev pub start : Collected
  start = record { inputs = []; producers = []; quarantined = 0 }

  -- both loops, and the batch between them
  unfoldable pub compile_inputs : Store → Disk → Ran (Collected × Counts)
  unfolding collect settle
  compile_inputs store d = then_ran (collect (spool_order d.spool) start d) (λ c d1.
      let ordered = sort_by input_lt c.inputs in
      then_ran
        (settle_batch ordered (store (batch ordered))
          (record { captured = 0; duplicate = 0; quarantined = c.quarantined }) d1)
        (λ counts d2. returned (c, counts) d2))

  abbrev pub once : List String → List String
  once [] = []
  once (x ∷ xs) = let rest = once xs in if mem x xs then rest else x ∷ rest

  -- the prune of each producer
  unfoldable pub prune_all : List String → ℕ → ℕ → Disk → Ran (Unit {0})
  prune_all [] days now d = returned tt d
  prune_all (n ∷ ns) days now d =
      then_ran (prune_acknowledged_spools host n days now d) (λ c d1. prune_all ns days now d1)

  -- the whole function, with whether the lock is held by another
  unfoldable pub compile_spools : Store → Bool → Bool → ℕ → ℕ → Disk → Ran Counts
  unfolding compile_inputs prune_all
  compile_spools store compiler_authorized held days now d =
      if not compiler_authorized || held
      then raised "SafetyError" d
      else then_ran (compile_inputs store d) (λ p d1.
        then_ran (prune_all (sort_by text_lt (once p.0.producers)) days now d1)
          (λ u d2. returned p.1 d2))

  abbrev add_file : Place → String → Disk → Disk
  add_file p bytes d = record d { spool = record { place = p; content = bytes } ∷ d.spool }

  -- the exception of the publication, if any, and the files that it leaves
  abbrev publish : Publication String → Place → String → Disk → Option String × Disk
  publish published p bytes d = (none, add_file p bytes d)
  publish (failed e) p bytes d = (some e, d)
  publish (failed_after e) p bytes d = (some e, add_file p bytes d)
  publish (raced other) p bytes d = (some "SafetyError", add_file p other d)

  abbrev same_bytes : Json → Option SpoolFile → Bool
  same_bytes value none = false
  same_bytes value (some f) = str_eq f.content (host.canonical_bytes value)

  -- a `SafetyError` is forgiven where the file holds the bytes now
  abbrev after_publish : Json → Place → Option String → Disk → Ran Place
  after_publish value p none d = returned p d
  after_publish value p (some e) d =
      if str_eq e "SafetyError" && same_bytes value (find_file p d.spool)
      then returned p d
      else raised e d

  abbrev write_at : Publication String → Json → Place → Disk → Option SpoolFile → Ran Place
  write_at publication value p d none =
      let (error, d1) = publish publication p (host.canonical_bytes value) d in
      after_publish value p error d1
  write_at publication value p d (some f) =
      if str_eq f.content (host.canonical_bytes value)
      then returned p d
      else raised "ConflictError" d

  abbrev write_valid : Publication String → Json → Disk → Checked Envelope → Ran Place
  write_valid publication value d (err fault) = raised (fault_name fault) d
  write_valid publication value d (ok e) =
      write_at publication value (home e) d (find_file (home e) d.spool)

  unfoldable pub write_envelope : Publication String → Json → Disk → Ran Place
  write_envelope publication value d =
      write_valid publication value d (validate_capture_envelope host.sha256 host.json_bytes value)
