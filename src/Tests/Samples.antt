-- ===== src/Tests/Samples.antt =====
-- Functions in the form of include/ir.h on which the tests run.
use Prim.Native.String.{String}
use mini_asm.Base.{ℕ, zero, suc, List, [], ◌∷◌, none, some, false, ◌<◌, arith}
use mini_asm.Base.Int.{ℤ, pos, negsuc, IsInt, to_i64, u64_mod}
use mini_asm.Ir.{
  Opcode, op_add, op_mul, op_alloca, op_store, op_load, op_ret, op_br, op_cbr, op_phi, Operand,
  vreg, imm, Instr, Block, Func,
}
use mini_asm.Ir.Meaning.{Regs}

abbrev pub no_dst : ℤ
no_dst = negsuc 0

abbrev pub instr : Opcode → ℤ → List Operand → Instr
instr o d as' = record {
  op = o;
  type = 1;
  dst = d;
  args = as';
  pred = 0;
  callee = none;
  label = none;
  label2 = none;
}

abbrev pub block : String → List Instr → Block
block n is = record { name = n; instrs = is; nvregs = pos 0 }

abbrev pub func : List Block → Func
func bs = record {
  name = "f";
  ret = 0;
  params = 1 ∷ [];
  nparams = 1;
  blocks = bs;
  nvregs = pos 0;
  nlocals = pos 0;
  vararg = false;
  va_list_off = pos 0;
  vararg_save_off = pos 0;
}

abbrev pub reg : ℕ → Operand
reg v = vreg (pos v)

abbrev pub num : ℕ → Operand
num c = imm (pos c)

-- A phi of the blocks `entry` and `loop`.
abbrev pub phi : ℕ → Operand → Operand → Instr
phi d a b = record {
  op = op_phi;
  type = 1;
  dst = pos d;
  args = a ∷ b ∷ [];
  pred = 0;
  callee = none;
  label = some "entry";
  label2 = some "loop";
}

-- Two equal products, a sum with 0, a value stored and read back, and its return.
abbrev pub arith_instrs : List Instr
arith_instrs =
    instr op_mul (pos 1) (reg 0 ∷ num 8 ∷ [])
    ∷ instr op_add (pos 2) (reg 1 ∷ num 0 ∷ [])
    ∷ instr op_mul (pos 3) (reg 0 ∷ num 8 ∷ [])
    ∷ instr op_alloca (pos 4) []
    ∷ instr op_store no_dst (reg 2 ∷ reg 4 ∷ [])
    ∷ instr op_load (pos 5) (reg 4 ∷ [])
    ∷ instr op_ret no_dst (reg 5 ∷ [])
    ∷ []

abbrev pub arith_func : Func
arith_func = func (block "entry" arith_instrs ∷ [])

-- Registers that solve the equations of `arith_func`.
abbrev pub sample_regs : Regs
sample_regs (pos zero) = 5
sample_regs _ = 40

abbrev pub slot_zero : Operand → ℕ
slot_zero o = 0

abbrev pub rest_zero : Opcode → ℕ → ℕ → List ℕ → ℕ
rest_zero op type pred vs = 0

pub sample_regs-fits : (v : ℤ) → sample_regs v < u64_mod
sample_regs-fits (pos zero) = omega arith
sample_regs-fits (pos (suc n)) = omega arith
sample_regs-fits (negsuc n) = omega arith

pub sample_regs-IsInt : (v : ℤ) → IsInt (to_i64 (sample_regs v))
sample_regs-IsInt (pos zero) = ground arith
sample_regs-IsInt (pos (suc n)) = ground arith
sample_regs-IsInt (negsuc n) = ground arith

-- A sum of constants whose register is read once, and a sum that nothing reads.
abbrev pub const_func : Func
const_func = func (
    block "entry" (
      instr op_add (pos 1) (num 2 ∷ num 3 ∷ [])
      ∷ instr op_mul (pos 2) (reg 1 ∷ num 4 ∷ [])
      ∷ instr op_add (pos 3) (reg 1 ∷ num 1 ∷ [])
      ∷ instr op_ret no_dst (reg 2 ∷ [])
      ∷ [])
    ∷ [])

abbrev pub folded_func : Func
folded_func = func (
    block "entry" (
      instr op_add (pos 1) (num 2 ∷ num 3 ∷ [])
      ∷ instr op_mul (pos 2) (num 5 ∷ num 4 ∷ [])
      ∷ instr op_add (pos 3) (num 5 ∷ num 1 ∷ [])
      ∷ instr op_ret no_dst (num 20 ∷ [])
      ∷ [])
    ∷ [])

-- `const_func` without the sum that nothing reads.
abbrev pub swept_func : Func
swept_func = func (
    block "entry" (
      instr op_add (pos 1) (num 2 ∷ num 3 ∷ [])
      ∷ instr op_mul (pos 2) (reg 1 ∷ num 4 ∷ [])
      ∷ instr op_ret no_dst (reg 2 ∷ [])
      ∷ [])
    ∷ [])

abbrev pub jump : String → Instr
jump l = record (instr op_br no_dst []) { label = some l }

abbrev pub entry_block : Block
entry_block = block "entry" (jump "exit" ∷ [])

abbrev pub branch_block : Block
branch_block =
    block "entry"
      (record (instr op_cbr no_dst (num 1 ∷ [])) { label = some "exit"; label2 = some "dead" } ∷ [])

abbrev pub dead_block : Block
dead_block = block "dead" (instr op_ret no_dst (num 1 ∷ []) ∷ [])

abbrev pub exit_block : Block
exit_block = block "exit" (instr op_ret no_dst (num 0 ∷ []) ∷ [])

-- The block that defines a constant sum stands after the one that reads it.
abbrev pub late_func : Func
late_func = func (
    block "entry" (jump "def" ∷ [])
    ∷ block "use" (instr op_ret no_dst (reg 1 ∷ []) ∷ [])
    ∷ block "def" (instr op_add (pos 1) (num 0 ∷ num 5 ∷ []) ∷ jump "use" ∷ [])
    ∷ [])
