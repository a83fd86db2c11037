-- ===== src/Examples/Rotation.antt =====
-- A ledger in which two recovery keys of one installation sign a rotation each.
use imprint.Base.{String, ◌≡◌, refl, Option, none, some, List, [], ◌∷◌, str_eq, if◌then◌else◌}
use imprint.Ontology.Fault.{ok}
use imprint.Authority.Chain.{
  certificate, rotation, Event, LedgerRow, Key, recovery, installation, retired,
}
use imprint.Authority.Chain.Append.{signed_row}
use imprint.Authority.Chain.Verify.{Entry, verify_events}
use imprint.Authority.Chain.Apply.Single.{representatives}
use imprint.Authority.Chain.Keys.{certify, chain_key}
use imprint.Authority.Chain.Heads.{checks}
use imprint.Authority.Chain.{External}
use imprint.Examples.Chain.{
  key_of, blob, noon, first, lifecycle_event, ext as other, row1, machine_now, recovery_now,
}

abbrev second : Event
second =
    lifecycle_event 2 "e1" "key_rotated" "ir" "k2" (rotation (key_of "k2" "ir") blob "r1") "r1" "e2"

abbrev third : Event
third =
    lifecycle_event 3 "e2" "recovery_created" "ir" "r2" (certificate (key_of "r2" "ir")) "k1" "e3"

abbrev fourth : Event
fourth =
    lifecycle_event 4 "e3" "key_rotated" "ir" "k3" (rotation (key_of "k3" "ir") blob "r2") "r2" "e4"

abbrev decode : String → Option Event
decode s =
    if str_eq s "e1"
    then some first
    else if str_eq s "e2"
    then some second
    else if str_eq s "e3"
    then some third
    else if str_eq s "e4"
    then some fourth
    else none

abbrev ext : External
ext = record other { decode = decode }

abbrev rows : List LedgerRow
rows =
    row1
    ∷ signed_row ext 2 second "r1"
    ∷ signed_row ext 3 third "k1"
    ∷ signed_row ext 4 fourth "r2"
    ∷ []

abbrev retired_now : Key → Key
retired_now k = record k { status = retired }

abbrev k2 : Key
k2 = certify 2 (some "e2") noon (chain_key (key_of "k2" "ir") (some blob) installation)

abbrev r2 : Key
r2 = certify 3 (some "e3") noon (chain_key (key_of "r2" "ir") none recovery)

abbrev k3 : Key
k3 = certify 4 (some "e4") noon (chain_key (key_of "k3" "ir") (some blob) installation)

abbrev last_entry : Entry
last_entry = record {
  digest = "e4";
  keys = machine_now ∷ retired_now recovery_now ∷ k2 ∷ retired_now r2 ∷ k3 ∷ [];
}

abbrev entries : List Entry
entries =
    record { digest = "e1"; keys = machine_now ∷ recovery_now ∷ [] }
    ∷ record { digest = "e2"; keys = machine_now ∷ retired_now recovery_now ∷ k2 ∷ [] }
    ∷ record { digest = "e3"; keys = machine_now ∷ retired_now recovery_now ∷ k2 ∷ r2 ∷ [] }
    ∷ last_entry
    ∷ []

accepted : verify_events ext "op" none rows ≡ ok (some "store", entries)
unfolding checks
accepted = refl

two_active : representatives "ir" last_entry.keys ≡ 2
two_active = refl
