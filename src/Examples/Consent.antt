-- ===== src/Examples/Consent.antt =====
-- Grants that authorize, and one whose retention runs past year 9999.
use imprint.Base.{
  ℕ, ◌+◌, ◌*◌, String, ◌≡◌, refl, ◌↔◌, true, false, none, some, [], ◌∷◌, arith, pos, has_text,
}
use imprint.Time.{Stamp, parse_iso, day_us}
use imprint.Ontology.Urn.{is_urn}
use imprint.Ontology.Consent.{
  Grant, Times, read_time, read_times, consent_ok, is_namespace, retention_ok, known_request,
  horizon, covers, answer, raises_overflow, consent_authorizes,
}
use imprint.Ontology.Consent.Overflow.{overlong-raises}
use imprint.Ontology.Consent.Interval.{Authorized, authorizes_iff, authorizes-between}

abbrev owner : String
owner = "urn:imprint:operator:0f8fad5b-d9cb-469f-a165-70867728950e"

abbrev consent : Grant
consent = record {
  ontology_schema_version = "3.1.0";
  operator_id = owner;
  source_class = "conversation";
  purposes = "self_modeling" ∷ "retrieval" ∷ [];
  sensitivity = "standard";
  allowed_operations = "ingest" ∷ "store" ∷ [];
  retention = record { mode = "days"; days = some (pos 30); delete_on_revoke = true };
  effective_from = "2026-01-01T00:00:00Z";
  effective_to = some "2026-12-31T00:00:00Z";
  granted_by = owner;
  granted_at = "2026-01-01T00:00:00Z";
  revoked_at = none;
  revocation_reason = none;
  extensions = "vendor.note" ∷ [];
}

-- three million days, which do not fill the calendar and run past its end
abbrev overlong : Grant
overlong = record consent {
  retention = record { mode = "days"; days = some (pos 3_000_000); delete_on_revoke = true };
}

abbrev january : Stamp
january = record { instant = 739_617 * day_us; local = 739_616 * day_us; aware = true }

abbrev after : ℕ → Stamp
after n = record { instant = (739_617 + n) * day_us; local = (739_616 + n) * day_us; aware = true }

abbrev times : Times
times = record { start = january; end = some (after 364); granted = january; revoked = none }

read : read_times consent ≡ some times
unfolding read_times read_time parse_iso
read = refl

on_the_second : read_time "2026-01-02T00:00:00Z" ≡ some (after 1)
unfolding read_time parse_iso
on_the_second = refl

on_the_third : read_time "2026-01-03T00:00:00Z" ≡ some (after 2)
unfolding read_time parse_iso
on_the_third = refl

on_the_fourth : read_time "2026-01-04T00:00:00Z" ≡ some (after 3)
unfolding read_time parse_iso
on_the_fourth = refl

second_authorized :
    consent_authorizes (some consent) "conversation" "retrieval" "store" "2026-01-02T00:00:00Z"
    ≡ answer true
unfolding consent_authorizes read_times read_time parse_iso consent_ok is_urn retention_ok has_text
    is_namespace covers horizon
second_authorized = refl

fourth_authorized :
    consent_authorizes (some consent) "conversation" "retrieval" "store" "2026-01-04T00:00:00Z"
    ≡ answer true
unfolding consent_authorizes read_times read_time parse_iso consent_ok is_urn retention_ok has_text
    is_namespace covers horizon
fourth_authorized = refl

-- the thirty days are over
too_late :
    consent_authorizes (some consent) "conversation" "retrieval" "store" "2026-01-31T00:00:00Z"
    ≡ answer false
unfolding consent_authorizes read_times read_time parse_iso consent_ok is_urn retention_ok has_text
    is_namespace covers horizon
too_late = refl

authorizes_iff_example :
    consent_authorizes (some consent) "conversation" "retrieval" "store" "2026-01-02T00:00:00Z"
      ≡ answer true
    ↔ (known_request "conversation" "retrieval" "store" ≡ true)
      × Authorized consent "conversation" "retrieval" "store" "2026-01-02T00:00:00Z"
authorizes_iff_example =
    authorizes_iff consent "conversation" "retrieval" "store" "2026-01-02T00:00:00Z"

authorizes-between_example :
    consent_authorizes (some consent) "conversation" "retrieval" "store" "2026-01-03T00:00:00Z"
    ≡ answer true
authorizes-between_example =
    authorizes-between consent "conversation" "retrieval" "store" "2026-01-02T00:00:00Z"
      "2026-01-03T00:00:00Z" "2026-01-04T00:00:00Z" (after 1) (after 2) (after 3) on_the_second
      on_the_third on_the_fourth (omega arith) (omega arith) second_authorized fourth_authorized

overlong_ok : consent_ok overlong times ≡ true
unfolding consent_ok is_urn retention_ok has_text is_namespace
overlong_ok = refl

read_overlong : read_times overlong ≡ some times
unfolding read_times read_time parse_iso
read_overlong = refl

overlong-raises_example :
    consent_authorizes (some overlong) "conversation" "retrieval" "store" "2026-01-02T00:00:00Z"
    ≡ raises_overflow
overlong-raises_example =
    overlong-raises overlong "conversation" "retrieval" "store" "2026-01-02T00:00:00Z" times
      (after 1) 3_000_000 read_overlong on_the_second overlong_ok refl refl refl (omega arith)
