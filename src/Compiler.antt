-- ===== src/Compiler.antt =====
-- The compiler's spool (src/imprint/compiler/spool.py).
pub mod Disk
pub mod Spool
pub mod Prune
