-- ===== src/Retrieve/Budget.antt =====
-- The section budgets of retrieve/engine.py: `_section_limits`, and the loop of `retrieve` that
-- fills the sections in their order and hands on what one leaves unused.
pub mod Bounds
use Prim.Native.String.{len}
use imprint.Base.{
  ℕ, ◌+◌, ◌-◌, ◌*◌, ◌/◌, ◌%◌, String, Bool, List, [], ◌∷◌, ◌++◌, ltb, leb, if◌then◌else◌,
}
use imprint.Retrieve.Models.{Section, core, general, domain, RetrievalRecord}

-- the 1:2:1 split, the remainder in the downward order of the sections
unfoldable pub section_limits : ℕ → Section → ℕ
section_limits total core = total / 4 + (if ltb 0 (total % 4) then 1 else 0)
section_limits total general = total / 4 * 2 + (if ltb 1 (total % 4) then 1 else 0)
section_limits total domain = total / 4 + (if ltb 2 (total % 4) then 1 else 0)

-- a selected record's id and its rendered bytes
pub record Selected : Type 0 where
  pub record_id : String
  pub rendered : String

module _ (render : RetrievalRecord → String) where
  abbrev pub fits : ℕ → ℕ → RetrievalRecord → Bool
  fits available used item = leb (used + len (render item)) available

  -- the inner loop: what is selected, and the bytes used
  unfoldable pub fill : ℕ → ℕ → List RetrievalRecord → List Selected × ℕ
  fill available used [] = ([], used)
  fill available used (item ∷ rest) =
      let rendered = render item in
      let ok = leb (used + len rendered) available in
      let (picked, bytes) = fill available (if ok then used + len rendered else used) rest in
      (
        if ok then record { record_id = item.record_id; rendered = rendered } ∷ picked else picked,
        bytes,
      )

  -- the outer loop, from what the sections before it left
  unfoldable pub fill_sections :
      (Section → ℕ)
      → (Section → List RetrievalRecord)
      → ℕ
      → List Section
      → List Selected × List (Section × ℕ)
  unfolding fill
  fill_sections limits by_section carry [] = ([], [])
  fill_sections limits by_section carry (s ∷ ss) =
      let available = limits s + carry in
      let (picked, bytes) = fill available 0 (by_section s) in
      let (rest, counts) = fill_sections limits by_section (available - bytes) ss in
      (picked ++ rest, (s, bytes) ∷ counts)

abbrev pub section_order : List Section
section_order = core ∷ general ∷ domain ∷ []
