-- ===== src/Backend/Frame.antt =====
-- src/targets/x86_64/isel.c: the frame of a function. Below the frame pointer stand the slots of the registers, the
-- areas for variable arguments, and the objects of the allocas; an offset is the distance downwards. The loops of
-- count_maxv are those of func_maxv. A `&~7` and a `&~15` clear the low bits of a number that is not
-- negative.
pub mod Apart
use mini_asm.Base.{
  ℕ, zero, suc, ◌+◌, ◌-◌, ◌*◌, ◌%◌, List, [], ◌∷◌, Bool, true, false, ltb, if◌then◌else◌,
}
use mini_asm.Base.Int.{ℤ, pos, negsuc, max_ℤ, pos_part, u32_mod}
use mini_asm.Ir.{op_alloca, op_eq, Instr, Block, Func, arg_at}
use mini_asm.Builder.State.{slot_number}
use mini_asm.Opt.Common.{func_maxv}

unfoldable pub vreg_off : ℕ → ℤ
vreg_off v = negsuc (8 * (v + 1) - 1)

unfoldable pub count_maxv : Func → ℤ
unfolding func_maxv
count_maxv f =
    if ltb 0 f.nparams then max_ℤ (func_maxv f) (pos (1000 + f.nparams - 1)) else func_maxv f

-- `sz=(sz+7)&~7`, where a size that is not positive is 4.
abbrev pub rounded : ℤ → ℕ
rounded (pos zero) = 8
rounded (pos (suc n)) = suc n + 7 - (suc n + 7) % 8
rounded (negsuc n) = 8

abbrev pub object_size : Instr → ℕ
object_size i = rounded (slot_number (arg_at i.args 0))

-- The cursor after an instruction, and the instruction with its offset in `pred`.
unfoldable pub assign_instr : ℕ → Instr → ℕ × Instr
assign_instr cursor i =
    if op_eq i.op op_alloca
    then (cursor + object_size i, record i { pred = (cursor + object_size i) % u32_mod })
    else (cursor, i)

unfoldable pub assign_instrs : ℕ → List Instr → ℕ × List Instr
unfolding assign_instr
assign_instrs cursor [] = (cursor, [])
assign_instrs cursor (i ∷ is) =
    let p = assign_instr cursor i in let q = assign_instrs p.0 is in (q.0, p.1 ∷ q.1)

unfoldable pub assign_blocks : ℕ → List Block → ℕ × List Block
unfolding assign_instrs
assign_blocks cursor [] = (cursor, [])
assign_blocks cursor (b ∷ bs) =
    let p = assign_instrs cursor b.instrs in
    let q = assign_blocks p.0 bs in (q.0, record b { instrs = p.1 } ∷ q.1)

-- The va_list and the save area of a function with variable arguments.
abbrev pub va_area : Func → ℕ
va_area f = if f.vararg then 72 else 0

abbrev reserve_va : Func → ℕ → Func
reserve_va f base =
    if f.vararg
    then record f { va_list_off = pos (base + 24); vararg_save_off = pos (base + 24 + 48) }
    else f

unfoldable pub assign_allocas : Func → ℕ → Func × ℕ
unfolding assign_blocks
assign_allocas f base =
    let r = assign_blocks (base + va_area f) f.blocks in
    (record (reserve_va f base) { blocks = r.1 }, r.0)

-- `(maxv+1)*8`.
unfoldable pub vreg_bytes : Func → ℕ
unfolding count_maxv
vreg_bytes f = (pos_part (count_maxv f) + 1) * 8

-- `(total+15)&~15`.
unfoldable pub frame_size : ℕ → ℕ
frame_size total = total + 15 - (total + 15) % 16
