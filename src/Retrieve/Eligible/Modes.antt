-- ===== src/Retrieve/Eligible/Modes.antt =====
-- `eligible` of retrieve/engine.py in its two authority modes.
use imprint.Base.{String, true, Option, ◌≡◌, arith, refl}
use imprint.Retrieve.Models.{RetrievalRecord}
use imprint.Retrieve.Eligible.Gates.{
  known_mode, status_allowed, tier_allowed, self_model_is_ratified,
}
use imprint.Retrieve.Eligible.{eligible}

module _ (r : RetrievalRecord) where
  status_mono : status_allowed "authoritative" r ≡ true → status_allowed "analytical" r ≡ true
  unfolding status_allowed
  status_mono h = ground arith

  tier_mono : tier_allowed "authoritative" r ≡ true → tier_allowed "analytical" r ≡ true
  unfolding tier_allowed
  tier_mono h = ground arith

  self_model_analytical : self_model_is_ratified "analytical" r ≡ true
  unfolding self_model_is_ratified
  self_model_analytical = ground arith

  known_analytical : known_mode "analytical" ≡ true
  unfolding known_mode
  known_analytical = refl

  -- What is eligible in the authoritative mode is eligible in the analytical mode.
  pub eligible_mono :
      (sel : Option String)
      → eligible r sel "authoritative" ≡ true
      → eligible r sel "analytical" ≡ true
  unfolding eligible
  eligible_mono sel h =
      ground (arith, status_mono, tier_mono, self_model_analytical, known_analytical)
