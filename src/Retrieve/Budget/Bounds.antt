-- ===== src/Retrieve/Budget/Bounds.antt =====
-- `_section_limits` and the filling of the sections in retrieve/engine.py: the bytes that they
-- spend.
use Prim.Native.String.{len}
use imprint.Base.{
  ℕ, ◌+◌, ◌-◌, ◌≤◌, ◌<◌, String, ◌≡◌, refl, ◌∙◌, inl, inr, List, [], ◌∷◌, ◌++◌, arith, leb,
  Bool-cases, leb→le,
}
use imprint.Retrieve.Models.{Section, RetrievalRecord}
use imprint.Retrieve.Budget.{section_limits, Selected, fill, fill_sections, section_order}

-- the rendered bytes of a selection
abbrev pub bytes : List Selected → ℕ
bytes [] = 0
bytes (s ∷ ss) = len s.rendered + bytes ss

pub bytes-append : (xs ys : List Selected) → bytes (xs ++ ys) ≡ bytes xs + bytes ys
bytes-append [] ys = omega arith
bytes-append (x ∷ xs) ys = omega (arith, bytes-append xs ys)

abbrev pub counted : List (Section × ℕ) → ℕ
counted [] = 0
counted ((s, n) ∷ counts) = n + counted counts

abbrev pub total_limit : (Section → ℕ) → List Section → ℕ
total_limit limits [] = 0
total_limit limits (s ∷ ss) = limits s + total_limit limits ss

-- The limits of the three sections add up to the total.
pub section_limits-sum : (total : ℕ) → total_limit (section_limits total) section_order ≡ total
unfolding section_limits
section_limits-sum total = ground arith

module _ (render : RetrievalRecord → String) where
  abbrev pub select : RetrievalRecord → Selected
  select r = record { record_id = r.record_id; rendered = render r }

  -- A selection in the order of its candidates, in which each record that is left out is longer
  -- than the bytes left at the end.
  pub data IsGreedy (left : ℕ) : List RetrievalRecord → List Selected → Type 0 where
    done : IsGreedy left [] []
    pick :
        {rs : List RetrievalRecord} {ps : List Selected} (r : RetrievalRecord)
        → IsGreedy left rs ps
        → IsGreedy left (r ∷ rs) (select r ∷ ps)
    skip :
        {rs : List RetrievalRecord} {ps : List Selected} (r : RetrievalRecord)
        → left < len (render r)
        → IsGreedy left rs ps
        → IsGreedy left (r ∷ rs) ps

  pub fill-bytes :
      (available used : ℕ) (items : List RetrievalRecord)
      → let (picked, total) = fill render available used items in total ≡ used + bytes picked
  unfolding fill
  fill-bytes available used [] = omega arith
  fill-bytes available used (r ∷ rs) = elim (Bool-cases (leb (used + len (render r)) available)) [
    | inl e ↦ rw e (omega (arith, fill-bytes available (used + len (render r)) rs))
    | inr e ↦ rw e (fill-bytes available used rs)
  ]

  pub fill-le :
      (available used : ℕ) (items : List RetrievalRecord)
      → used ≤ available
      → (fill render available used items).1 ≤ available
  unfolding fill
  fill-le available used [] h = h
  fill-le available used (r ∷ rs) h = elim (Bool-cases (leb (used + len (render r)) available)) [
    | inl e ↦ rw e (fill-le available (used + len (render r)) rs (leb→le _ _ e))
    | inr e ↦ rw e (fill-le available used rs h)
  ]

  fill-IsGreedy_from :
      (available used : ℕ) (items : List RetrievalRecord)
      → used ≤ available
      → let (picked, total) = fill render available used items in
        IsGreedy (available - total) items picked
  unfolding fill
  fill-IsGreedy_from available used [] h = done
  fill-IsGreedy_from available used (r ∷ rs) h =
      elim (Bool-cases (leb (used + len (render r)) available)) [
        | inl e ↦
            rw e (pick r (fill-IsGreedy_from available (used + len (render r)) rs (leb→le _ _ e)))
        | inr e ↦ rw e (
            skip r (ground (arith, e, fill-bytes available used rs))
              (fill-IsGreedy_from available used rs h))
      ]

  -- A filled section counts the bytes of what it picked, stays within what is available, keeps the
  -- order, and leaves a record out only if that is longer than the bytes that remain at the end.
  pub fill-IsGreedy :
      (available : ℕ) (items : List RetrievalRecord)
      → let (picked, total) = fill render available 0 items in
        (total ≡ bytes picked) × (total ≤ available) × IsGreedy (available - total) items picked
  fill-IsGreedy available items = (
    fill-bytes available 0 items ∙ omega arith,
    fill-le available 0 items (omega arith),
    fill-IsGreedy_from available 0 items (omega arith),
  )

  -- The sections together report the bytes of what was picked, and stay within their limits and
  -- what they were given.
  pub fill_sections-le :
      (limits : Section → ℕ) (by_section : Section → List RetrievalRecord) (carry : ℕ)
      (ss : List Section)
      → let (picked, counts) = fill_sections render limits by_section carry ss in
        (bytes picked ≡ counted counts) × (bytes picked ≤ carry + total_limit limits ss)
  unfolding fill_sections
  fill_sections-le limits by_section carry [] = (refl, omega arith)
  fill_sections-le limits by_section carry (s ∷ ss) =
      let available = limits s + carry in
      let (picked, total) = fill render available 0 (by_section s) in
      let (rest, counts) = fill_sections render limits by_section (available - total) ss in
      let spent = fill-IsGreedy available (by_section s) in
      let later = fill_sections-le limits by_section (available - total) ss in
      (
        omega (arith, bytes-append picked rest, spent.0, later.0),
        omega (arith, bytes-append picked rest, spent.0, spent.1, later.1),
      )
