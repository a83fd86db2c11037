-- ===== src/Retrieve.antt =====
-- The retrieval boundary (src/imprint/retrieve): eligibility, ranking, budgets and the engine.
pub mod Models
pub mod Eligible
pub mod Tokenizer
pub mod Rank
pub mod Render
pub mod Budget
pub mod Engine
pub mod Receipts
