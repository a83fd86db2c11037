-- ===== src/Time.antt =====
-- `datetime.fromisoformat` after `replace("Z", "+00:00")`, as the program reads every time: the
-- format YYYY-MM-DD[*HH[:MM[:SS[.fff[fff]]]][+HH:MM[:SS[.ffffff]]]] of Python's documentation,
-- over the code points of a text.
use imprint.Base.{
  ℕ, zero, suc, ◌+◌, ◌-◌, ◌*◌, ◌/◌, ◌%◌, String, Bool, true, false, not, ◌&&◌, ◌||◌, Option, none,
  some, List, [], ◌∷◌, ◌++◌, ltb, leb, ◌==◌, if◌then◌else◌, is_digit, codes, length,
}

-- Microseconds since the day before year 1, in UTC where an offset is given, so that an offset
-- of less than a day never makes it negative; and whether the text had an offset.
pub record Stamp : Type 0 where
  pub instant : ℕ
  -- the local time, from the first of January of year 1
  pub local : ℕ
  pub aware : Bool

infixl 5 ◌>>=◌ ◌>>◌
abbrev ◌>>=◌ {ℓ κ} : {A : Type ℓ} {B : Type κ} → Option A → (A → Option B) → Option B
none >>= f = none
some a >>= f = f a

abbrev ◌>>◌ {ℓ} : {B : Type ℓ} → Option (Unit {0}) → Option B → Option B
m >> k = m >>= λ _. k

abbrev require : Bool → Option (Unit {0})
require true = some tt
require false = none

abbrev Input : Type 0
Input = List ℕ

-- exactly `n` decimal digits
digits : ℕ → ℕ → Input → Option (ℕ × Input)
digits zero acc s = some (acc, s)
digits (suc n) acc [] = none
digits (suc n) acc (c ∷ s) =
    let rest = digits n (acc * 10 + (c - 48)) s in if is_digit c then rest else none

symbol : ℕ → Input → Option Input
symbol c [] = none
symbol c (d ∷ s) = if c == d then some s else none

is_leap : ℕ → Bool
is_leap y = (y % 4 == 0 && not (y % 100 == 0)) || y % 400 == 0

days_in_month : ℕ → ℕ → ℕ
unfolding is_leap
days_in_month y m =
    if m == 2
    then (if is_leap y then 29 else 28)
    else if m == 4 || m == 6 || m == 9 || m == 11
    then 30
    else 31

days_before_month : ℕ → ℕ → ℕ
unfolding days_in_month
days_before_month y zero = 0
days_before_month y (suc m) = days_before_month y m + (if m == 0 then 0 else days_in_month y m)

-- the days before the first of January of a year, from year 1 on
days_before_year : ℕ → ℕ
days_before_year y = (y - 1) * 365 + (y - 1) / 4 - (y - 1) / 100 + (y - 1) / 400

-- the day's number, counted from 0 at 0001-01-01
date : Input → Option (ℕ × Input)
unfolding digits symbol days_in_month days_before_month days_before_year
date s = do
  (y, s1) ← digits 4 0 s
  s2 ← symbol b'-' s1
  (m, s3) ← digits 2 0 s2
  s4 ← symbol b'-' s3
  (d, s5) ← digits 2 0 s4
  require (leb 1 y && leb 1 m && leb m 12 && leb 1 d && leb d (days_in_month y m))
  some (days_before_year y + days_before_month y m + (d - 1), s5)

-- the leading digits
span_digits : Input → Input × Input
span_digits [] = ([], [])
span_digits (c ∷ s) =
    let (ds, rest) = span_digits s in if is_digit c then (c ∷ ds, rest) else ([], c ∷ s)

-- `.fff` or `.ffffff`, in microseconds
fraction : Bool → Input → Option (ℕ × Input)
unfolding digits span_digits
fraction three s = do
  let (ds, rest) = span_digits s
  (value, _) ← digits (length ds) 0 ds
  if length ds == 6
      then some (value, rest)
      else if length ds == 3 && three
      then some (value * 1000, rest)
      else none

abbrev part : ℕ → (Input → Option (ℕ × Input)) → Input → Option (ℕ × Input)
part c f [] = some (0, [])
part c f (d ∷ s) = if c == d then f s else some (0, d ∷ s)

-- the seconds and what follows them
seconds : Bool → Input → Option (ℕ × Input)
unfolding digits fraction
seconds three s = do
  (ss, s1) ← digits 2 0 s
  require (ltb ss 60)
  (us, s2) ← part b'.' (fraction three) s1
  some (ss * 1_000_000 + us, s2)

-- the minutes and what follows them
minutes : Bool → Input → Option (ℕ × Input)
unfolding digits seconds
minutes three s = do
  (mm, s1) ← digits 2 0 s
  require (ltb mm 60)
  (us, s2) ← part b':' (seconds three) s1
  some (mm * 60_000_000 + us, s2)

-- the time of day, in microseconds
clock : Input → Option (ℕ × Input)
unfolding digits minutes
clock s = do
  (hh, s1) ← digits 2 0 s
  require (ltb hh 24)
  (us, s2) ← part b':' (minutes true) s1
  some (hh * 3_600_000_000 + us, s2)

-- the offset behind its sign, in microseconds
offset : Input → Option ℕ
unfolding digits symbol minutes
offset s = do
  (hh, s1) ← digits 2 0 s
  require (ltb hh 24)
  s2 ← symbol b':' s1
  (us, s3) ← minutes false s2
  if length s3 == 0 then some (hh * 3_600_000_000 + us) else none

-- the local times from `datetime.max` on
abbrev pub end_of_time : ℕ
end_of_time = 3_652_059 * 86_400_000_000

abbrev pub day_us : ℕ
day_us = 86_400_000_000

-- `local` counts from 0001-01-01 in local time
zoned : ℕ → Input → Option Stamp
unfolding offset
zoned local [] = some (record { instant = local + day_us; local = local; aware = false })
zoned local (c ∷ s) = do
  shift ← offset s
  if c == b'+'
      then some (record { instant = local + day_us - shift; local = local; aware = true })
      else if c == b'-'
      then some (record { instant = local + day_us + shift; local = local; aware = true })
      else none

from_iso : Input → Option Stamp
unfolding date clock zoned
from_iso s = do
  (day, s1) ← date s
  elim s1 [
    | [] ↦ some (record { instant = day * day_us + day_us; local = day * day_us; aware = false })
    | separator ∷ s2 ↦ do (us, s3) ← clock s2; zoned (day * day_us + us) s3
  ]

-- `value.replace("Z", "+00:00")`
replace_z : Input → Input
replace_z [] = []
replace_z (c ∷ s) = (if c == b'Z' then codes "+00:00" else c ∷ []) ++ replace_z s

unfoldable pub parse_iso : String → Option Stamp
unfolding replace_z from_iso
parse_iso value = from_iso (replace_z (codes value))

-- the codes before a final `Z`, where there is one
before_z : Input → Option Input
before_z [] = none
before_z (c ∷ []) = if c == b'Z' then some [] else none
before_z (c ∷ d ∷ s) = do rest ← before_z (d ∷ s); some (c ∷ rest)

-- `datetime.fromisoformat(value[:-1] + "+00:00")` for a value that ends in `Z`
unfoldable pub parse_utc : String → Option Stamp
unfolding before_z from_iso
parse_utc value = do s ← before_z (codes value); from_iso (s ++ codes "+00:00")

-- the instant 1970-01-01T00:00:00Z
abbrev pub epoch : Stamp
epoch = record {
  instant = 719_163 * 86_400_000_000;
  local = 719_162 * 86_400_000_000;
  aware = true;
}
