-- ===== src/Regalloc.antt =====
-- src/backend/regalloc.c: the register pools of the targets, the live intervals of a function's
-- registers, and the linear scan that gives each a machine register or none.
pub mod Targets
pub mod Intervals
pub mod Scan
pub mod Run
