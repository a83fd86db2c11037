-- ===== src/Examples/Time.antt =====
-- Times that the program reads and refuses.
use imprint.Base.{◌≡◌, refl, true, none, some}
use imprint.Time.{epoch, parse_iso}

epoch_lem : parse_iso "1970-01-01T00:00:00Z" ≡ some epoch
unfolding parse_iso
epoch_lem = refl

leap_day :
    parse_iso "2024-02-29T23:59:59.500+01:30"
    ≡ some
        (record { instant = 63_844_928_999_500_000; local = 63_844_847_999_500_000; aware = true })
unfolding parse_iso
leap_day = refl

refused :
    (parse_iso "2023-02-29" ≡ none)
    × (parse_iso "2023-01-01T24:00" ≡ none)
    × (parse_iso "2023-01-01T" ≡ none)
unfolding parse_iso
refused = (refl, refl, refl)
