-- ===== src/Backend.antt =====
-- src/backend/backend.c and src/targets/x86_64/isel.c: the choice of a target, the stack frame and the copies.
pub mod Dispatch
pub mod Frame
pub mod Moves
