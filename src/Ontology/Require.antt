-- ===== src/Ontology/Require.antt =====
-- The field checks that the contracts share (ontology/contracts.py).
pub mod Reads
use imprint.Base.{
  String, Bool, false, Option, none, some, List, [], ◌∷◌, leb, all, mem, pos, has_text,
  if◌then◌else◌, true, ◌&&◌, distinct,
}
use imprint.Ontology.Urn.{is_urn, require_urn}
use imprint.Time.{Stamp, parse_iso}
use imprint.Ontology.Fault.{
  Checked, ok, err, ◌>>=◌, ◌>>◌, demand, refuse_if, validation_error, type_error,
}
use imprint.Ontology.Json.{
  Json, null, int, float, str, Fields, keys, in_unit, in_set, Items, arr, cons, obj, nil, item,
}

-- `require_exact_fields`: no key is unknown and none is missing
unfoldable pub require_exact_fields : Fields → List String → String → Checked (Unit {0})
require_exact_fields value expected field = do
  demand (all (λ k. mem k expected) (keys value)) "unknown fields"
  demand (all (λ k. mem k (keys value)) expected) "missing fields"

unfoldable pub require_text : Json → String → Checked String
require_text (str s) field = do demand (has_text s) field; ok s
require_text _ field = err (validation_error field)

-- `require_text` where `None` may stand, and where the source skips the check at `None`
unfoldable pub require_text_or_none : Json → String → Checked (Option String)
unfolding require_text
require_text_or_none null field = ok none
require_text_or_none value field = do s ← require_text value field; ok (some s)

abbrev aware_text : Option Stamp → String → String → Checked String
aware_text none value field = err (validation_error field)
aware_text (some t) value field = do demand t.aware "timezone"; ok value

-- an RFC3339 timestamp with a time zone
unfoldable pub require_time : Json → String → Checked String
require_time (str s) field = aware_text (parse_iso s) s field
require_time _ field = err (validation_error field)

unfoldable pub require_confidence : Json → String → Checked Json
require_confidence (int (pos n)) field = do demand (leb n 1) field; ok (int (pos n))
require_confidence (float x) field = do demand (in_unit x) field; ok (float x)
require_confidence _ field = err (validation_error field)

abbrev pub hashable : Json → Bool
hashable (arr v) = false
hashable (obj v) = false
hashable _ = true

abbrev pub all_hashable : Items → Bool
all_hashable nil = true
all_hashable (cons v vs) = hashable v && all_hashable vs

unfoldable pub texts : Items → Checked (List String)
texts nil = ok []
texts (cons (str s) vs) = do ss ← texts vs; ok (s ∷ ss)
texts (cons _ vs) = err (validation_error "members must be texts")

-- A list without repetition whose members are all URNs of the kind asked for. `set` raises at a
-- member that is not hashable; the other refusals are one here.
unfoldable pub require_urns : Json → Option String → String → Checked (List String)
unfolding texts
require_urns (arr items) kind field =
    if all_hashable items
    then (do
      ss ← texts items
      demand (distinct ss) field
      demand (all (is_urn kind) ss) field
      ok ss)
    else err type_error
require_urns _ kind field = err (validation_error field)

abbrev supplied_statuses : List String
supplied_statuses = "supplied" ∷ "later_added" ∷ []

abbrev reason_statuses : List String
reason_statuses = "absent" ∷ "pending" ∷ supplied_statuses

abbrev reason_fits : Json → Bool → String → Checked (Unit {0})
reason_fits null supplied prefix = refuse_if supplied "reason cannot be null"
reason_fits reason supplied prefix = do
  require_text reason prefix
  demand supplied "reason and status disagree"

-- `validate_reason`: a reason stands exactly where its status says so
unfoldable pub validate_reason : Json → Json → String → Checked (Unit {0})
unfolding require_text
validate_reason reason status prefix = do
  allowed ← in_set status reason_statuses
  demand allowed "reason_status is invalid"
  supplied ← in_set status supplied_statuses
  reason_fits reason supplied prefix

-- a member of a closed set of texts
unfoldable pub member : Json → List String → String → Checked String
member (str s) names message = do demand (mem s names) message; ok s
member (arr v) names message = err type_error
member (obj v) names message = err type_error
member _ names message = err (validation_error message)

-- a URN where `None` may stand
unfoldable pub require_urn_or_none : Json → String → Checked (Option String)
require_urn_or_none null field = ok none
require_urn_or_none value field = do u ← require_urn value none field; ok (some u)

-- The same checks of the value at a key, `check(value[key], ...)`.
module _ (key : String) (value : Fields) where
  unfoldable pub member_at : List String → String → Checked String
  member_at names message = do v ← item key value; member v names message

  unfoldable pub text_at : String → Checked String
  text_at field = do v ← item key value; require_text v field

  unfoldable pub text_or_none_at : String → Checked (Option String)
  text_or_none_at field = do v ← item key value; require_text_or_none v field

  unfoldable pub urn_at : Option String → String → Checked String
  urn_at kind field = do v ← item key value; require_urn v kind field

  unfoldable pub urn_or_none_at : String → Checked (Option String)
  urn_or_none_at field = do v ← item key value; require_urn_or_none v field

  unfoldable pub urns_at : Option String → String → Checked (List String)
  urns_at kind field = do v ← item key value; require_urns v kind field

  unfoldable pub time_at : String → Checked String
  time_at field = do v ← item key value; require_time v field

-- opens every check, for a test
unfoldable pub checks : Unit {0}
unfolding is_urn require_urn has_text parse_iso require_exact_fields require_text
    require_text_or_none require_urns require_urn_or_none require_time require_confidence
    validate_reason member member_at text_at text_or_none_at urn_at urn_or_none_at urns_at time_at
checks = tt
