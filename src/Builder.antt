-- ===== src/Builder.antt =====
-- src/ir/ir_builder.c: the sizes and the layout of types, and the builder.
pub mod Layout
pub mod State
pub mod Arith
pub mod Memory
pub mod Control
pub mod Alias
pub mod Ssa
pub mod Call
pub mod Named
