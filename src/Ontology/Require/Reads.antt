-- ===== src/Ontology/Require/Reads.antt =====
-- What the field checks accept, for the proofs about the contracts.
use imprint.Base.{String, ◌≡◌, ap, ◌∙◌, true, Option, some, List, arith, mem, has_text}
use imprint.Ontology.Fault.{ok, >>=-eq-ok}
use imprint.Ontology.Json.{Json, null, str, Fields, item, find}
use imprint.Ontology.Urn.{is_urn, require_urn-ok}
use imprint.Ontology.Require.{require_text, member, member_at, text_at, urn_at}

item-ok :
    (key : String) (value : Fields) {v : Json} → item key value ≡ ok v → find key value ≡ some v
item-ok key value h = ground arith

member-ok :
    (v : Json) (names : List String) (message : String) {s : String}
    → member v names message ≡ ok s
    → (v ≡ str s) × (mem s names ≡ true)
unfolding member
member-ok (str s) names message h = ground arith
member-ok null names message h = cc
member-ok _ names message h = cc

require_text-ok :
    (v : Json) (field : String) {s : String}
    → require_text v field ≡ ok s
    → (v ≡ str s) × (has_text s ≡ true)
unfolding require_text
require_text-ok (str s) field h = ground arith
require_text-ok null field h = cc
require_text-ok _ field h = cc

module _ (key : String) (value : Fields) where
  pub member_at-ok :
      (names : List String) (message : String) (s : String)
      → member_at key value names message ≡ ok s
      → (find key value ≡ some (str s)) × (mem s names ≡ true)
  unfolding member_at
  member_at-ok names message s h =
      let (v, e, f) = >>=-eq-ok (item key value) _ h in
      let (g, m) = member-ok v names message f in (item-ok key value e ∙ ap some g, m)

  pub text_at-ok :
      (field : String) (s : String)
      → text_at key value field ≡ ok s
      → (find key value ≡ some (str s)) × (has_text s ≡ true)
  unfolding text_at
  text_at-ok field s h =
      let (v, e, f) = >>=-eq-ok (item key value) _ h in
      let (g, m) = require_text-ok v field f in (item-ok key value e ∙ ap some g, m)

  pub urn_at-ok :
      (kind : Option String) (field : String) (s : String)
      → urn_at key value kind field ≡ ok s
      → (find key value ≡ some (str s)) × (is_urn kind s ≡ true)
  unfolding urn_at
  urn_at-ok kind field s h =
      let (v, e, f) = >>=-eq-ok (item key value) _ h in
      let (g, m) = require_urn-ok v kind field f in (item-ok key value e ∙ ap some g, m)
