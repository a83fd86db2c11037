-- ===== src/Examples/References.antt =====
-- A cue of a store with one observation and one piece of evidence.
use imprint.Base.{◌≡◌, refl, none, some, [], ◌∷◌, str_eq, if◌then◌else◌, All}
use imprint.Ontology.Fault.{ok}
use imprint.Ontology.References.{
  Lookup, cue, nodes, payload_references, validate_payload_references,
}
use imprint.Ontology.References.Resolved.{references, Owned, AllOwned, references-Owned}

abbrev store : Lookup
store id =
    if str_eq id "e"
    then some ("Evidence", "op")
    else if str_eq id "o"
    then some ("Observation", "op")
    else none

cue_accepted : validate_payload_references "op" store store ("e" ∷ []) (cue ("e" ∷ []) "o") ≡ ok tt
unfolding validate_payload_references payload_references nodes
cue_accepted = refl

references-Owned_example :
    All (Owned "op" store store (some ("Evidence" ∷ []))) ("e" ∷ [])
    × AllOwned "op" store store (references (cue ("e" ∷ []) "o"))
references-Owned_example =
    references-Owned "op" store store ("e" ∷ []) (cue ("e" ∷ []) "o") cue_accepted
