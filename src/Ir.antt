-- ===== src/Ir.antt =====
-- include/ir.h and src/ir/ir.c: the data that the parser, the builder, the optimizer and the code
-- generators share, and the functions that build a module.
-- An instruction's `args`, `kinds` and `nargs` are one list of tagged operands, which holds the first
-- `nargs` slots (16 at most); a slot past it reads as ARG_NONE. An `IRType *` is its address, since
-- the passes compare types by address; 0 is NULL. A list carries its own length, so the fields
-- `ninstrs`, `nblocks`, `nfuncs` and `cap` have no counterpart.
mod Ops
pub mod Meaning
pub mod Regs
pub mod Rewrite
pub mod Build
pub mod FpTable
pub use Ops.*
use Prim.Native.String.{String}
use mini_asm.Base.{ℕ, Bool, List, [], ◌∷◌, ◌++◌, Option, none, length, ◌==◌, ◌&&◌, false}
use mini_asm.Base.Int.{ℤ, negsuc, eq_ℤ}

-- One slot of `args` with its tag in `kinds` (IRArgKind).
pub data Operand : Type 0 where
  absent vreg imm label_arg fp_imm : ℤ → Operand

-- `kinds[a] == kinds[b] && args[a] == args[b]`.
abbrev pub operand_eq : Operand → Operand → Bool
operand_eq (absent a) (absent b) = eq_ℤ a b
operand_eq (vreg a) (vreg b) = eq_ℤ a b
operand_eq (imm a) (imm b) = eq_ℤ a b
operand_eq (label_arg a) (label_arg b) = eq_ℤ a b
operand_eq (fp_imm a) (fp_imm b) = eq_ℤ a b
operand_eq _ _ = false

-- IRInstr. `dst` is -1 where there is none.
pub record Instr : Type 0 where
  pub op : Opcode
  pub type : ℕ
  pub dst : ℤ
  pub args : List Operand
  pub pred : ℕ
  pub callee : Option String
  pub label : Option String
  pub label2 : Option String

-- IRBlock.
pub record Block : Type 0 where
  pub name : String
  pub instrs : List Instr
  pub nvregs : ℤ

-- IRFunc.
pub record Func : Type 0 where
  pub name : String
  pub ret : ℕ
  pub params : List ℕ
  pub nparams : ℕ
  pub blocks : List Block
  pub nvregs : ℤ
  pub nlocals : ℤ
  pub vararg : Bool
  pub va_list_off : ℤ
  pub vararg_save_off : ℤ

-- IRString.
pub record StringLit : Type 0 where
  pub label : ℕ
  pub bytes : List ℕ

-- IRModule.
pub record Module : Type 0 where
  pub funcs : List Func
  pub strings : List StringLit

-- `args[i]`, with ARG_NONE past the end.
abbrev pub arg_at : List Operand → ℕ → Operand
arg_at [] i = absent (negsuc 0)
arg_at (a ∷ as') ℕ.zero = a
arg_at (a ∷ as') (ℕ.suc i) = arg_at as' i
