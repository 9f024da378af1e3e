-- ===== src/Opt.antt =====
-- src/backend/opt.c: the optimizer. Each pass is a child module, and its proofs stand below it.
pub mod Common
pub mod Fold
pub mod Dce
pub mod Alias
pub mod Strength
pub mod DeadBlocks
pub mod Run
