-- ===== src/Tests.antt =====
-- The sample functions, the tests of the passes on them, and the theorems at concrete inputs.
mod Samples
mod Runs
mod Passes
mod Alloc
mod Building
mod Layouts
mod Calls
mod Texts
mod Frames
mod Copies
