-- ===== src/Authority.antt =====
-- Command authority (src/imprint/authority): challenges, prepared mutations, and the single use of
-- an approval.
pub mod Error
pub mod Request
pub mod Challenge
pub mod Ledger
pub mod Prepared
pub mod Chain
