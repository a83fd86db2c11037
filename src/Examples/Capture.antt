-- ===== src/Examples/Capture.antt =====
-- A capture whose proposer raises.
use imprint.Base.{ℕ, String, refl, true, some, [], none}
use imprint.Capture.{returned, raised, not_started, World, Ports, capture}
use imprint.Capture.Durable.{PersistFirst, capture-PersistFirst, Ends, capture-Ends}

abbrev ports : Ports String String ℕ String
ports = record {
  is_feedback = λ s. true;
  build = λ s. returned s;
  spool = λ e. returned 7;
  proposer = some (λ e. raised "TimeoutError");
  failure_logger = λ stage name. none;
}

abbrev start : World String
start = record { phase = not_started; events = [] }

capture-PersistFirst_example :
    PersistFirst (capture String String ℕ String ports "No, shorter." start).1.events
capture-PersistFirst_example =
    capture-PersistFirst String String ℕ String ports "No, shorter." start tt

capture-Ends_example :
    Ends String String ℕ String
      (λ stage name. none)
      (returned 7)
      "No, shorter."
      (capture String String ℕ String ports "No, shorter." start)
capture-Ends_example =
    capture-Ends String String ℕ String ports "No, shorter." start "No, shorter." refl refl
