-- ===== src/Parse.antt =====
-- src/ir/ir_parse.c: the parser of the text form.
pub mod State
pub mod Names
pub mod Types
pub mod Operand
pub mod Instrs
pub mod Others
pub mod Run
pub mod Halts
pub mod Literal
pub mod Symbols
