-- ===== src/Capture.antt =====
-- capture/pipeline.py and capture/durability.py: the operator's words are spooled before anything is
-- derived from them. The detector, the envelope's builder, the spool and the proposer are parameters.
pub mod Durable
pub mod Schema
pub mod Envelope
use imprint.Base.{
  ℕ, zero, suc, ◌+◌, ◌-◌, ◌*◌, ◌/◌, ◌%◌, ◌≤◌, ◌<◌, String, ◌≡◌, refl, sym, ap, ◌∙◌, ◌≢◌, ◌↔◌, ◌⊎◌,
  inl, inr, Bool, true, false, not, ◌&&◌, ◌||◌, Option, none, some, List, [], ◌∷◌, ◌++◌, map,
  reverse, arith, ltb, leb, ◌==◌, str_eq, str_eq_iff, if◌then◌else◌, Bool-cases, Option-cases,
  tests, length, length-append, keep, all, any, All, mem, distinct, ℤ, pos, negsuc, pos_part,
  neg_part, sub_ℕ, negate_ℕ, negate, ltbℤ, eqbℤ, codes, codes_eq, has_text, is_digit, is_lower,
  text_lt,
}

-- what a call of a port gives: a value, or an exception with the name of its type
pub data Attempt {ℓ} (A : Type ℓ) : Type ℓ where
  returned : A → Attempt A
  raised : String → Attempt A

pub data Phase : Type 0 where
  not_started persisting persisted : Phase

-- the calls of the ports, the last first
pub data Event (Envelope : Type 0) : Type 0 where
  -- the spool's `persist`, by whether it returned or raised
  persist : Envelope → Event Envelope
  persist_raised : Envelope → Event Envelope
  propose : Envelope → Event Envelope
  log_failure : String → String → Event Envelope

pub record World (Envelope : Type 0) : Type 0 where
  pub phase : Phase
  pub events : List (Event Envelope)

abbrev pub stop_capture_is_durable : Phase → Bool
stop_capture_is_durable not_started = false
stop_capture_is_durable persisting = false
stop_capture_is_durable persisted = true

-- before a Stop hook captures
abbrev reset_stop_capture_phase : {Envelope : Type 0} → World Envelope → World Envelope
reset_stop_capture_phase w = record w { phase = not_started }

module _ (Text Envelope Receipt Proposal : Type 0) where
  pub record CaptureResult : Type 0 where
    pub is_feedback : Bool
    pub persisted : Bool
    pub envelope : Option Envelope
    pub receipt : Option Receipt
    pub proposal : Option Proposal
    pub derivation_error : Option String

  -- `CapturePersistenceError`, what a caller's logger raises, or what the builder of the envelope raises
  pub data Outcome : Type 0 where
    result : CaptureResult → Outcome
    persistence_error : Outcome
    -- what the failure logger raises
    logger_error : String → Outcome
    envelope_error : String → Outcome

  pub record Ports : Type 0 where
    pub is_feedback : Text → Bool
    pub build : Text → Attempt Envelope
    pub spool : Envelope → Attempt Receipt
    pub proposer : Option (Envelope → Attempt Proposal)
    -- the logger, by the stage and the type of the error; the type of what it raises, if it raises
    pub failure_logger : String → String → Option String

  -- the call of the logger, and how the function ends where the logger returns
  abbrev pub logged :
      Option String → String → String → Outcome → World Envelope → Outcome × World Envelope
  logged none stage name o w = (o, record w { events = log_failure stage name ∷ w.events })
  logged (some e) stage name o w =
      (logger_error e, record w { events = log_failure stage name ∷ w.events })

  abbrev pub kept_result : Envelope → Receipt → Option Proposal → Option String → Outcome
  kept_result e r p error = result (record {
    is_feedback = true;
    persisted = true;
    envelope = some e;
    receipt = some r;
    proposal = p;
    derivation_error = error;
  })

  abbrev pub with_proposal :
      (String → String → Option String)
      → Envelope
      → Receipt
      → Attempt Proposal
      → World Envelope
      → Outcome × World Envelope
  with_proposal logger e r (returned p) w = (kept_result e r (some p) none, w)
  with_proposal logger e r (raised name) w =
      logged (logger "proposal" name) "proposal" name (kept_result e r none (some name)) w

  abbrev pub derive_ :
      Ports
      → Option (Envelope → Attempt Proposal)
      → Envelope
      → Receipt
      → World Envelope
      → Outcome × World Envelope
  derive_ ports none e r w = (kept_result e r none none, w)
  derive_ ports (some proposer) e r w =
      with_proposal ports.failure_logger e r (proposer e)
        (record w { events = propose e ∷ w.events })

  unfoldable pub after_spool :
      Ports → Envelope → Attempt Receipt → World Envelope → Outcome × World Envelope
  after_spool ports e (returned r) w =
      derive_ ports ports.proposer e r
        (record { phase = Phase.persisted; events = persist e ∷ w.events })
  after_spool ports e (raised name) w =
      logged (ports.failure_logger "raw_spool" name) "raw_spool" name persistence_error
        (record w { events = persist_raised e ∷ w.events })

  abbrev pub store : Ports → Attempt Envelope → World Envelope → Outcome × World Envelope
  store ports (raised name) w = (envelope_error name, w)
  store ports (returned e) w = after_spool ports e (ports.spool e) (record w { phase = persisting })

  -- `CapturePipeline.capture`
  unfoldable pub capture : Ports → Text → World Envelope → Outcome × World Envelope
  unfolding after_spool
  capture ports text w = if ports.is_feedback text then store ports (ports.build text) w else (
    result (record {
      is_feedback = false;
      persisted = false;
      envelope = none;
      receipt = none;
      proposal = none;
      derivation_error = none;
    }),
    w,
  )
