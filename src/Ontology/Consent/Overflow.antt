-- ===== src/Ontology/Consent/Overflow.antt =====
-- `consent_authorizes` of ontology/operator.py where the retention is long.
use imprint.Base.{
  pos, ℕ, ◌+◌, ◌*◌, ◌≤◌, String, ◌≡◌, refl, Bool, true, false, some, arith, ltb, pos,
}
use imprint.Time.{end_of_time, day_us, Stamp}
use imprint.Ontology.Consent.{
  Retention, Grant, Times, read_time, read_times, consent_ok, Horizon, unlimited, until,
  overflow_error, horizon, raises_overflow, within, both, covers, known_request, consent_authorizes,
}

horizon-overflow :
    (r : Retention) (start : Stamp) (n : ℕ)
    → r.mode ≡ "days"
    → r.days ≡ some (pos n)
    → end_of_time ≤ start.local + n * day_us
    → horizon r start ≡ overflow_error
unfolding horizon
horizon-overflow r start n m d h =
    let late : ltb (start.local + n * day_us) end_of_time ≡ false = ground (arith, h) in
    rw (m, d, late) refl

both-overflow :
    (b : Bool) (t : ℕ) (h : Horizon) → h ≡ overflow_error → both b (within t h) ≡ raises_overflow
both-overflow b t unlimited e = cc
both-overflow b t (until end) e = cc
both-overflow b t overflow_error e = refl

-- A valid grant whose retention, counted from the start of the grant, runs past year 9999 makes
-- `consent_authorizes` raise, for every registered source class, purpose and operation, at every time:
-- the addition of the days overflows, and the exception is not caught.
pub overlong-raises :
    (g : Grant) (source_class purpose operation at : String) (t : Times) (now : Stamp) (n : ℕ)
    → read_times g ≡ some t
    → read_time at ≡ some now
    → consent_ok g t ≡ true
    → known_request source_class purpose operation ≡ true
    → g.retention.mode ≡ "days"
    → g.retention.days ≡ some (pos n)
    → end_of_time ≤ t.start.local + n * day_us
    → consent_authorizes (some g) source_class purpose operation at ≡ raises_overflow
unfolding consent_authorizes
overlong-raises g source_class purpose operation at t now n e f k known m d h =
    rw (known, e, f, k)
      (both-overflow (covers g t source_class purpose operation now.instant) now.instant
        (horizon g.retention t.start) (horizon-overflow g.retention t.start n m d h))
