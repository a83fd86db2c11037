-- ===== src/Ontology/Consent.antt =====
-- ontology/operator.py: `_validate_consent` and `consent_authorizes`. A grant comes with its fields
-- of the right types; an extension is its key.
pub mod Interval
pub mod Overflow
use imprint.Base.{
  ℕ, zero, suc, ◌+◌, ◌-◌, ◌*◌, ◌/◌, ◌%◌, ◌≤◌, ◌<◌, String, ◌≡◌, refl, sym, ap, ◌∙◌, ◌≢◌, ◌↔◌, ◌⊎◌,
  inl, inr, Bool, true, false, not, ◌&&◌, ◌||◌, Option, none, some, List, [], ◌∷◌, ◌++◌, map,
  reverse, arith, ltb, leb, ◌==◌, str_eq, str_eq_iff, if◌then◌else◌, Bool-cases, Option-cases,
  tests, length, length-append, keep, all, any, All, mem, distinct, ℤ, pos, negsuc, pos_part,
  neg_part, sub_ℕ, negate_ℕ, negate, ltbℤ, eqbℤ, codes, codes_eq, has_text, is_digit, is_lower,
  text_lt, positive,
}
use imprint.Time.{Stamp, parse_iso, day_us, end_of_time}
use imprint.Ontology.Urn.{is_urn}

abbrev pub observation_source_classes : List String
observation_source_classes =
    "operator_explicit" ∷ "conversation" ∷ "transcript" ∷ "screenpipe" ∷ "financial_record"
    ∷ "behavioral_telemetry" ∷ "business_system" ∷ "customer_result" ∷ "external_connector"
    ∷ "approved_import" ∷ []

abbrev pub consent_purposes : List String
consent_purposes =
    "self_modeling" ∷ "behavioral_observation" ∷ "outcome_learning" ∷ "business_analysis"
    ∷ "retrieval" ∷ "export" ∷ []

abbrev pub consent_operations : List String
consent_operations = "ingest" ∷ "store" ∷ "derive" ∷ "retrieve" ∷ "export" ∷ []

pub record Retention : Type 0 where
  pub mode : String
  pub days : Option ℤ
  pub delete_on_revoke : Bool

pub record Grant : Type 0 where
  pub ontology_schema_version : String
  pub operator_id : String
  pub source_class : String
  pub purposes : List String
  pub sensitivity : String
  pub allowed_operations : List String
  pub retention : Retention
  pub effective_from : String
  pub effective_to : Option String
  pub granted_by : String
  pub granted_at : String
  pub revoked_at : Option String
  pub revocation_reason : Option String
  pub extensions : List String

-- the times of a grant
pub record Times : Type 0 where
  pub start : Stamp
  pub end : Option Stamp
  pub granted : Stamp
  pub revoked : Option Stamp

abbrev aware : Option Stamp → Option Stamp
aware none = none
aware (some t) = if t.aware then some t else none

-- `_time`
unfoldable pub read_time : String → Option Stamp
read_time s = aware (parse_iso s)

abbrev wrap : Option Stamp → Option (Option Stamp)
wrap none = none
wrap (some t) = some (some t)

-- `_time(..., nullable=True)`
abbrev pub read_nullable : Option String → Option (Option Stamp)
read_nullable none = some none
read_nullable (some s) = wrap (read_time s)

abbrev times :
    Option Stamp → Option (Option Stamp) → Option Stamp → Option (Option Stamp) → Option Times
times (some a) (some b) (some c) (some d) =
    some (record { start = a; end = b; granted = c; revoked = d })
times _ _ _ _ = none

unfoldable pub read_times : Grant → Option Times
read_times g =
    times (read_time g.effective_from) (read_nullable g.effective_to) (read_time g.granted_at)
      (read_nullable g.revoked_at)

abbrev namespace_from : Bool → Bool → List ℕ → Bool
namespace_from word dotted [] = word && dotted
namespace_from word dotted (c ∷ cs) =
    let inside = namespace_from true dotted cs in
    let behind = namespace_from false true cs in
    if is_lower c || is_digit c then inside else (c == 46 || c == 45) && word && behind

-- `_NAMESPACE`
unfoldable pub is_namespace : String → Bool
is_namespace s = namespace_from false false (codes s)

abbrev all_in : List String → List String → Bool
all_in xs names = all (λ x. mem x names) xs

abbrev some_of : List String → List String → Bool
some_of [] names = false
some_of (x ∷ xs) names = all_in (x ∷ xs) names

abbrev positive_days : Option ℤ → Bool
positive_days none = false
positive_days (some n) = positive n

abbrev is_absent {ℓ} : {A : Type ℓ} → Option A → Bool
is_absent none = true
is_absent (some a) = false

unfoldable pub retention_ok : Retention → Bool
retention_ok r =
    mem r.mode ("session" ∷ "days" ∷ "until_revoked" ∷ "indefinite" ∷ [])
    && (if str_eq r.mode "days" then positive_days r.days else is_absent r.days)

-- `not (end < start)`
abbrev pub not_before : Option Stamp → Stamp → Bool
not_before none start = true
not_before (some end) start = leb start.instant end.instant

abbrev reason_ok : Option String → Bool
reason_ok none = true
reason_ok (some s) = has_text s

abbrev same_presence : Option String → Option String → Bool
same_presence none none = true
same_presence (some a) (some b) = true
same_presence _ _ = false

-- the conditions of `_validate_consent`, once the times are read
unfoldable pub consent_ok : Grant → Times → Bool
consent_ok g t =
    str_eq g.ontology_schema_version "3.1.0"
    && is_urn (some "operator") g.operator_id
    && mem g.source_class observation_source_classes
    && some_of g.purposes consent_purposes
    && distinct g.purposes
    && mem g.sensitivity ("standard" ∷ "sensitive" ∷ "highly_sensitive" ∷ [])
    && some_of g.allowed_operations consent_operations
    && retention_ok g.retention
    && not_before t.end t.start
    && not_before t.revoked t.granted
    && is_urn (some "operator") g.granted_by
    && str_eq g.granted_by g.operator_id
    && reason_ok g.revocation_reason
    && same_presence g.revoked_at g.revocation_reason
    && all is_namespace g.extensions

abbrev pub before : ℕ → Option Stamp → Bool
before t none = true
before t (some end) = ltb t end.instant

-- `start + timedelta(days=days)`: an instant, or `OverflowError` where it is past year 9999
pub data Horizon : Type 0 where
  unlimited : Horizon
  until : ℕ → Horizon
  overflow_error : Horizon

abbrev horizon_days : Stamp → Option ℤ → Horizon
horizon_days start none = unlimited
horizon_days start (some n) =
    if ltb (start.local + pos_part n * day_us) end_of_time
    then until (start.instant + pos_part n * day_us)
    else overflow_error

unfoldable pub horizon : Retention → Stamp → Horizon
horizon r start = if str_eq r.mode "days" then horizon_days start r.days else unlimited

-- an answer, or the `OverflowError` that the source does not catch
pub data Answer : Type 0 where
  answer : Bool → Answer
  raises_overflow : Answer

abbrev pub within : ℕ → Horizon → Answer
within t unlimited = answer true
within t (until end) = answer (ltb t end)
within t overflow_error = raises_overflow

abbrev pub both : Bool → Answer → Answer
both b (answer c) = answer (b && c)
both b raises_overflow = raises_overflow

-- what the times and the grant's own lists say
unfoldable pub covers : Grant → Times → String → String → String → ℕ → Bool
covers g t source_class purpose operation at =
    str_eq g.source_class source_class
    && mem purpose g.purposes
    && mem operation g.allowed_operations
    && leb t.start.instant at
    && before at t.end
    && before at t.revoked

abbrev checked : Grant → String → String → String → Option Times → Option Stamp → Answer
checked g source_class purpose operation (some t) (some at) =
    if consent_ok g t
    then both (covers g t source_class purpose operation at.instant)
        (within at.instant (horizon g.retention t.start))
    else answer false
checked g source_class purpose operation _ _ = answer false

abbrev with_grant : Option Grant → String → String → String → String → Answer
with_grant none source_class purpose operation at = answer false
with_grant (some g) source_class purpose operation at =
    checked g source_class purpose operation (read_times g) (read_time at)

abbrev pub known_request : String → String → String → Bool
known_request source_class purpose operation =
    mem source_class observation_source_classes
    && mem purpose consent_purposes
    && mem operation consent_operations

unfoldable pub consent_authorizes : Option Grant → String → String → String → String → Answer
consent_authorizes grant source_class purpose operation at =
    if known_request source_class purpose operation
    then with_grant grant source_class purpose operation at
    else answer false
