-- ===== src/Retrieve/Eligible.antt =====
-- `eligible` of retrieve/engine.py: the gate that every candidate passes before it is ranked.
pub mod Gates
pub mod Policy
pub mod Modes
use imprint.Base.{String, Bool, Option, ◌&&◌}
use imprint.Retrieve.Models.{RetrievalRecord}
use Gates

-- The early returns of the source in their order: a record is eligible if it passes every gate.
unfoldable pub eligible : RetrievalRecord → Option String → String → Bool
eligible record' selected_domain authority_mode =
    Gates.is_live record'
    && Gates.has_evidence record'
    && Gates.known_mode authority_mode
    && Gates.status_allowed authority_mode record'
    && Gates.tier_allowed authority_mode record'
    && Gates.judgment_is_captured record'
    && Gates.captured_has_case record'
    && Gates.knowledge_is_ratified record'
    && Gates.floor_is_selected record'
    && Gates.inferred_is_candidate record'
    && Gates.observed_is_extracted record'
    && Gates.self_model_is_ratified authority_mode record'
    && Gates.domain_is_selected selected_domain record'
    && Gates.domain_stays_in_section record'
