-- ===== src/Capture/Durable.antt =====
-- `CapturePipeline.capture` of capture/pipeline.py: the order of its calls, and what it ends with.
use imprint.Base.{
  String, ◌≡◌, refl, inl, inr, true, false, Option, none, some, List, [], ◌∷◌, Bool-cases,
}
use imprint.Capture.{
  Attempt, returned, raised, persisting, persisted, Event, persist, persist_raised, propose,
  log_failure, World, stop_capture_is_durable, CaptureResult, Outcome, result, persistence_error,
  logger_error, Ports, kept_result, logged, with_proposal, derive_, after_spool, store, capture,
}

-- each proposal is asked for directly after the spool has taken its own envelope
abbrev pub PersistFirst : {Envelope : Type 0} → List (Event Envelope) → Type 0
PersistFirst [] = Unit
PersistFirst (propose e ∷ []) = ⊥
PersistFirst (propose e ∷ persist f ∷ es) = (e ≡ f) × PersistFirst es
PersistFirst (propose e ∷ persist_raised f ∷ es) = ⊥
PersistFirst (propose e ∷ propose f ∷ es) = ⊥
PersistFirst (propose e ∷ log_failure s n ∷ es) = ⊥
PersistFirst (persist e ∷ es) = PersistFirst es
PersistFirst (persist_raised e ∷ es) = PersistFirst es
PersistFirst (log_failure s n ∷ es) = PersistFirst es

module _ (Text Envelope Receipt Proposal : Type 0) where
  logged-PersistFirst :
      (l : Option String) (stage name : String) (o : Outcome Text Envelope Receipt Proposal)
      (w : World Envelope)
      → PersistFirst w.events
      → PersistFirst (logged Text Envelope Receipt Proposal l stage name o w).1.events
  logged-PersistFirst none stage name o w h = h
  logged-PersistFirst (some e) stage name o w h = h

  with_proposal-PersistFirst :
      (logger : String → String → Option String) (e : Envelope) (r : Receipt) (a : Attempt Proposal)
      (w : World Envelope)
      → PersistFirst w.events
      → PersistFirst (with_proposal Text Envelope Receipt Proposal logger e r a w).1.events
  with_proposal-PersistFirst logger e r (returned p) w h = h
  with_proposal-PersistFirst logger e r (raised name) w h =
      logged-PersistFirst (logger "proposal" name) "proposal" name _ w h

  after_spool-PersistFirst :
      (ports : Ports Text Envelope Receipt Proposal) (p : Option (Envelope → Attempt Proposal))
      (e : Envelope) (r : Receipt) (w : World Envelope)
      → PersistFirst w.events
      → PersistFirst
          (derive_ Text Envelope Receipt Proposal ports p e r
            (record { phase = persisted; events = persist e ∷ w.events })).1.events
  after_spool-PersistFirst ports none e r w h = h
  after_spool-PersistFirst ports (some p) e r w h =
      with_proposal-PersistFirst ports.failure_logger e r (p e) _ (refl, h)

  spooled-PersistFirst :
      (ports : Ports Text Envelope Receipt Proposal) (e : Envelope) (r : Attempt Receipt)
      (w : World Envelope)
      → PersistFirst w.events
      → PersistFirst (after_spool Text Envelope Receipt Proposal ports e r w).1.events
  unfolding after_spool
  spooled-PersistFirst ports e (returned r) w h =
      after_spool-PersistFirst ports ports.proposer e r w h
  spooled-PersistFirst ports e (raised name) w h =
      logged-PersistFirst (ports.failure_logger "raw_spool" name) "raw_spool" name _ _ h

  store-PersistFirst :
      (ports : Ports Text Envelope Receipt Proposal) (a : Attempt Envelope) (w : World Envelope)
      → PersistFirst w.events
      → PersistFirst (store Text Envelope Receipt Proposal ports a w).1.events
  store-PersistFirst ports (raised name) w h = h
  store-PersistFirst ports (returned e) w h =
      spooled-PersistFirst ports e (ports.spool e) (record w { phase = persisting }) h

  -- Every capture keeps this order: a proposal is asked for only directly after the spool has taken
  -- its own envelope without raising.
  pub capture-PersistFirst :
      (ports : Ports Text Envelope Receipt Proposal) (text : Text) (w : World Envelope)
      → PersistFirst w.events
      → PersistFirst (capture Text Envelope Receipt Proposal ports text w).1.events
  unfolding capture
  capture-PersistFirst ports text w h = elim (Bool-cases (ports.is_feedback text)) [
    | inl e ↦ rw e (store-PersistFirst ports (ports.build text) w h)
    | inr e ↦ rw e h
  ]

  -- what a capture of feedback ends with: a spooled envelope with its receipt, whatever the proposer
  -- does, the persistence error, or what the failure logger raises, with the phase to match
  pub data Ends (logger : String → String → Option String) (spooled : Attempt Receipt)
      (e : Envelope) : Outcome Text Envelope Receipt Proposal × World Envelope → Type 0 where
    kept :
        {o : CaptureResult Text Envelope Receipt Proposal} {w : World Envelope} (receipt : Receipt)
        → spooled ≡ returned receipt
        → o.persisted ≡ true
        → o.envelope ≡ some e
        → o.receipt ≡ some receipt
        → stop_capture_is_durable w.phase ≡ true
        → Ends logger spooled e (result o, w)
    lost :
        {w : World Envelope} (name : String)
        → spooled ≡ raised name
        → logger "raw_spool" name ≡ none
        → stop_capture_is_durable w.phase ≡ false
        → Ends logger spooled e (persistence_error, w)
    kept_unlogged :
        {w : World Envelope} (receipt : Receipt) (name error : String)
        → spooled ≡ returned receipt
        → logger "proposal" name ≡ some error
        → stop_capture_is_durable w.phase ≡ true
        → Ends logger spooled e (logger_error error, w)
    lost_unlogged :
        {w : World Envelope} (name error : String)
        → spooled ≡ raised name
        → logger "raw_spool" name ≡ some error
        → stop_capture_is_durable w.phase ≡ false
        → Ends logger spooled e (logger_error error, w)

  raised_proposal-Ends :
      (logger : String → String → Option String) (e : Envelope) (r : Receipt) (name : String)
      (l : Option String) (events : List (Event Envelope))
      → logger "proposal" name ≡ l
      → Ends logger (returned r) e (
          logged Text Envelope Receipt Proposal l "proposal" name
            (kept_result Text Envelope Receipt Proposal e r none (some name))
            (record { phase = persisted; events = events }))
  raised_proposal-Ends logger e r name none events h = kept r refl refl refl refl refl
  raised_proposal-Ends logger e r name (some x) events h = kept_unlogged r name x refl h refl

  with_proposal-Ends :
      (logger : String → String → Option String) (e : Envelope) (r : Receipt) (a : Attempt Proposal)
      (events : List (Event Envelope))
      → Ends logger (returned r) e (
          with_proposal Text Envelope Receipt Proposal logger e r a
            (record { phase = persisted; events = events }))
  with_proposal-Ends logger e r (returned p) events = kept r refl refl refl refl refl
  with_proposal-Ends logger e r (raised name) events =
      raised_proposal-Ends logger e r name (logger "proposal" name) events refl

  derive-Ends :
      (ports : Ports Text Envelope Receipt Proposal) (p : Option (Envelope → Attempt Proposal))
      (e : Envelope) (r : Receipt) (events : List (Event Envelope))
      → Ends ports.failure_logger (returned r) e (
          derive_ Text Envelope Receipt Proposal ports p e r
            (record { phase = persisted; events = events }))
  derive-Ends ports none e r events = kept r refl refl refl refl refl
  derive-Ends ports (some p) e r events =
      with_proposal-Ends ports.failure_logger e r (p e) (propose e ∷ events)

  lost-Ends :
      (logger : String → String → Option String) (e : Envelope) (name : String) (l : Option String)
      (events : List (Event Envelope))
      → logger "raw_spool" name ≡ l
      → Ends logger (raised name) e (
          logged Text Envelope Receipt Proposal l "raw_spool" name persistence_error
            (record { phase = persisting; events = events }))
  lost-Ends logger e name none events h = lost name refl h refl
  lost-Ends logger e name (some x) events h = lost_unlogged name x refl h refl

  after_spool-Ends :
      (ports : Ports Text Envelope Receipt Proposal) (e : Envelope) (r : Attempt Receipt)
      (events : List (Event Envelope))
      → Ends ports.failure_logger r e (
          after_spool Text Envelope Receipt Proposal ports e r
            (record { phase = persisting; events = events }))
  unfolding after_spool
  after_spool-Ends ports e (returned r) events =
      derive-Ends ports ports.proposer e r (persist e ∷ events)
  after_spool-Ends ports e (raised name) events =
      lost-Ends ports.failure_logger e name (ports.failure_logger "raw_spool" name)
        (persist_raised e ∷ events) refl

  -- A capture of feedback whose envelope is built ends in one of these ways. Where the spool gives a
  -- receipt, the phase is durable and the result holds the envelope and the receipt, whether the
  -- proposer is absent, gives a proposal or raises, unless the logger raises at the proposer's failure,
  -- which the capture then raises. Where the spool raises, the phase is not durable and the capture
  -- raises the persistence error, or what the logger raises.
  pub capture-Ends :
      (ports : Ports Text Envelope Receipt Proposal) (text : Text) (w : World Envelope)
      (e : Envelope)
      → ports.is_feedback text ≡ true
      → ports.build text ≡ returned e
      → Ends ports.failure_logger
          (ports.spool e)
          e
          (capture Text Envelope Receipt Proposal ports text w)
  unfolding capture
  capture-Ends ports text w e h b = rw (h, b) (after_spool-Ends ports e (ports.spool e) w.events)
