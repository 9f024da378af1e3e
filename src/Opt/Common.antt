-- ===== src/Opt/Common.antt =====
-- src/backend/opt.c, "Shared helpers": the largest virtual register and the instructions with a
-- side effect.
pub mod Bound
use mathlib.Core.List.{foldl}
use mini_asm.Base.{Bool, true, false, List}
use mini_asm.Base.Int.{ℤ, pos, max_ℤ}
use mini_asm.Ir.{
  Opcode, op_store, op_call, op_br, op_cbr, op_ret, op_unreachable, Operand, vreg, Instr, Block,
  Func,
}

-- `if(in->kinds[a]==ARG_VREG && in->args[a] > maxv) maxv = in->args[a]`.
unfoldable pub maxv_arg : ℤ → Operand → ℤ
maxv_arg m (vreg v) = max_ℤ m v
maxv_arg m _ = m

unfoldable pub maxv_instr : ℤ → Instr → ℤ
maxv_instr m i = foldl maxv_arg (max_ℤ m i.dst) i.args

unfoldable pub maxv_block : ℤ → Block → ℤ
maxv_block m b = foldl maxv_instr m b.instrs

unfoldable pub func_maxv : Func → ℤ
unfolding maxv_block maxv_instr maxv_arg
func_maxv f = foldl maxv_block (pos 0) f.blocks

unfoldable pub has_side_effect : Opcode → Bool
has_side_effect op_store = true
has_side_effect op_call = true
has_side_effect op_br = true
has_side_effect op_cbr = true
has_side_effect op_ret = true
has_side_effect op_unreachable = true
has_side_effect _ = false
