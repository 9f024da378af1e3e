-- ===== src/Tests/Frames.antt =====
-- Stack frames and the choice of a target at concrete inputs.
use Prim.Native.String.{String}
use mini_asm.Base.{◌≡◌, refl, [], ◌∷◌, some, true}
use mini_asm.Base.Int.{pos}
use mini_asm.Ir.{op_alloca, op_add, op_ret, Func, Module}
use mini_asm.Opt.Run.{ir_optimize}
use mini_asm.Opt.Common.{func_maxv}
use mini_asm.Backend.Frame.{
  count_maxv, assign_instr, assign_instrs, assign_blocks, assign_allocas, vreg_bytes, frame_size,
}
use mini_asm.Backend.Frame.Apart.{object_then, instr_objects, objects}
use mini_asm.Backend.Dispatch.{Emitter, Emitters, backend_lookup, emit_for, target_emit_dispatch}
use mini_asm.Backend.Dispatch.Table.{table, emit_named, target_emit_dispatch_lem}
use mini_asm.Tests.Samples.{no_dst, instr, block, func, reg, num}

-- Two objects of 20 and 4 bytes.
abbrev slots_func : Func
slots_func = func (
    block "entry" (
      instr op_alloca (pos 1) (num 20 ∷ [])
      ∷ instr op_add (pos 2) (reg 1 ∷ num 1 ∷ [])
      ∷ instr op_alloca (pos 3) (num 0 ∷ [])
      ∷ instr op_ret no_dst (reg 2 ∷ [])
      ∷ [])
    ∷ [])

abbrev vararg_func : Func
vararg_func = record slots_func { vararg = true }

slots_test :
    objects (assign_allocas vararg_func (vreg_bytes vararg_func)).0.blocks
    ≡ (8104, 24) ∷ (8112, 8) ∷ []
unfolding assign_allocas assign_blocks assign_instrs assign_instr vreg_bytes count_maxv func_maxv
    instr_objects object_then
slots_test = refl

frame_test : frame_size (assign_allocas vararg_func (vreg_bytes vararg_func)).1 ≡ 8112
unfolding assign_allocas assign_blocks assign_instrs assign_instr vreg_bytes count_maxv func_maxv
    frame_size
frame_test = refl

abbrev prints : String → Emitter
prints s m t = (pos 0, s)

abbrev printers : Emitters
printers = record {
  x86_emit = prints "x86";
  x86_64_emit = prints "x86_64";
  arm_emit = prints "arm";
  arm64_emit = prints "arm64";
  riscv_emit = prints "riscv";
}

abbrev slots_module : Module
slots_module = record { funcs = slots_func ∷ []; strings = [] }

riscv_test : emit_for printers slots_module (backend_lookup (some "riscv")) ≡ (pos 0, "riscv")
unfolding emit_for backend_lookup
riscv_test = refl

no_target_test : emit_for printers slots_module (backend_lookup (some "mips")) ≡ (pos 1, "")
unfolding emit_for backend_lookup
no_target_test = refl

target_emit_dispatch_lem_example :
    (once : Module) × (twice : Module) × (ir_optimize (pos 2) slots_module ≡ some once)
    × (ir_optimize (pos 2) once ≡ some twice)
    × (target_emit_dispatch printers (pos 2) slots_module (backend_lookup (some "riscv"))
        ≡ some (emit_named (table printers) "riscv" twice))
target_emit_dispatch_lem_example = target_emit_dispatch_lem printers (pos 2) slots_module "riscv"
