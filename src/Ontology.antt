-- ===== src/Ontology.antt =====
-- The ontology contracts (src/imprint/ontology, src/imprint/urn.py): values as JSON gives them, and
-- the validators that accept or refuse them.
pub mod Json
pub mod Fault
pub mod Urn
pub mod Require
pub mod Provenance
pub mod Consent
pub mod Judgment
pub mod World
pub mod Registry
pub mod Relation
pub mod References
