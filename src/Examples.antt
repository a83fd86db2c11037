-- ===== src/Examples.antt =====
-- The theorems at concrete inputs, and tests of the definitions.
mod Retrieve
mod Receipts
mod Provenance
mod Judgment
mod Relation
mod Consent
mod References
mod Authority
mod Chain
mod Rotation
mod Capture
mod Envelope
mod Spool
mod Domains
mod Health
mod Time
