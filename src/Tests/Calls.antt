-- ===== src/Tests/Calls.antt =====
-- A history of the builder's calls, and the theorems on the builder at it.
use mathlib.Core.Option
use mini_asm.Base.{
  ◌⊎◌, ℕ, zero, suc, ◌≡◌, ◌≢◌, ◌↔◌, refl, List, [], ◌∷◌, none, some, true, false, length,
  length-replicate, arith,
}
use mini_asm.Base.Int.{pos}
use mini_asm.Ir.Build.{ir_module_new, ir_func_new, ir_block_new, ir_emit}
use mini_asm.Ir.FpTable.{fp_table_new}
use mini_asm.Builder.Layout.{ty_i32}
use mini_asm.Builder.State.{
  IrValue, reg_val, int_val, Cell, unknown_cell, IrBuilder, current, ir_arg, ir_builder_new,
  ir_builder_func, ir_builder_block, ir_set_insert, emit, edit, new_vreg_val, emit_def, set_arg,
}
use mini_asm.Builder.Alias.{
  to_vreg, to_imm, cell_of, resolve_vreg, resolve_from, ir_value_define, ir_value_placeholder,
  ir_builder_finalize, alias_grow, grow_cap,
}
use mini_asm.Builder.Alias.Leads.{Leads, stays, ends, hops, IsSettled, resolve_vreg_iff}
use mini_asm.Builder.Alias.Finalize.{
  AllArgs, Settles, IsFinal, current_blocks, ir_builder_finalize_lem,
}
use mini_asm.Builder.Alias.Define.{ir_value_define_lem}
use mini_asm.Builder.Arith.{TypeStore, emit2, ir_add}
use mini_asm.Builder.Control.{ir_ret}
use mini_asm.Builder.Call.{
  Call, call_func, call_block, call_set_insert, call_placeholder, call_add, call_define, call_ret,
  call_gep, call_gep_field, call_br, call_gep, call_gep_field, call_br, perform, perform_all, emits,
  reads_null,
}
use mini_asm.Builder.Ssa.{IsSsa}
use mini_asm.Builder.Ssa.Runs.{perform-crashes, perform_all-IsSsa}

abbrev types : TypeStore
types = record { shape = λ t. ty_i32; offsets = λ t. []; void_type = 1; i1_type = 2; i32_type = 3 }

-- A placeholder that is used before it is defined as a constant.
abbrev calls : List Call
calls =
    call_func "f" 3
    ∷ call_block 0 "entry"
    ∷ call_set_insert (0, 0)
    ∷ call_placeholder 3
    ∷ call_add 3 (some (reg_val 0 3)) (some (int_val (pos 2) 3))
    ∷ call_ret (some (reg_val 1 3))
    ∷ call_define (some (reg_val 0 3)) (some (int_val (pos 5) 3))
    ∷ []

abbrev start : IrBuilder
start = ir_builder_new ir_module_new fp_table_new

ran : (b : IrBuilder) × (perform_all types calls start ≡ some b)
unfolding perform_all perform ir_builder_new ir_module_new ir_builder_func ir_builder_block
    ir_func_new ir_block_new ir_set_insert ir_value_placeholder alias_grow grow_cap ir_add emit2
    emit_def emit edit ir_emit new_vreg_val set_arg ir_ret ir_value_define
ran = (_, refl)

perform_all-IsSsa_example : IsSsa ran.0
perform_all-IsSsa_example = perform_all-IsSsa types calls ir_module_new fp_table_new ran.0 ran.1

perform-crashes_example : (perform types (call_ret none) start ≡ none) ↔ (
    (reads_null types (call_ret none) ≡ true)
    ⊎ ((emits types (call_ret none) ≡ true) × (current start ≡ none)))
perform-crashes_example = perform-crashes types (call_ret none) start

-- A placeholder that is defined as register 1.
abbrev cells : List Cell
cells = record { known = true; to = pos 1; const = pos 0; is_fp = false } ∷ unknown_cell ∷ []

cells-IsSettled : IsSettled cells (pos 0)
cells-IsSettled = (to_vreg (pos 1), 1, omega arith, hops refl refl (stays refl))

resolve_vreg_iff_example :
    (resolve_vreg cells (pos 0) ≡ to_vreg (pos 1))
    ↔ ((n : ℕ) × Leads cells (pos 0) (to_vreg (pos 1)) n)
resolve_vreg_iff_example = resolve_vreg_iff cells (pos 0) (to_vreg (pos 1)) cells-IsSettled

ran-Settles : AllArgs (Settles ran.0.aliases) (current_blocks ran.0)
unfolding ran
ran-Settles = (
  (
    ((to_imm (pos 5), 0, omega arith, ends refl refl), (tt, tt)),
    (((to_vreg (pos 1), 0, omega arith, stays refl), tt), tt),
  ),
  tt,
)

ir_builder_finalize_lem_example :
    AllArgs (IsFinal ran.0.aliases) (current_blocks (ir_builder_finalize ran.0))
    × (ir_builder_finalize (ir_builder_finalize ran.0) ≡ ir_builder_finalize ran.0)
ir_builder_finalize_lem_example = ir_builder_finalize_lem ran.0 ran-Settles

aliases-length : length start.aliases ≢ 0
unfolding ir_builder_new
aliases-length e = omega (arith, e, length-replicate {A = Cell} 1024 unknown_cell)

ir_value_define_lem_example :
    (b' : IrBuilder) × (ir_value_define (some (reg_val 0 3)) (some (int_val (pos 5) 3)) start
      ≡ some (tt, b'))
    × (resolve_vreg b'.aliases (pos 0) ≡ to_imm (pos 5))
    × ((w : ℕ) → w ≢ 0 → cell_of b'.aliases (pos w) ≡ cell_of start.aliases (pos w))
ir_value_define_lem_example =
    ir_value_define_lem (reg_val 0 3) (int_val (pos 5) 3) start aliases-length

-- A chain of 33 links is followed for 32 of them only.
links : ℕ → ℕ → List Cell
links zero i = []
links (suc n) i =
    record { known = true; to = pos (suc i); const = pos 0; is_fp = false } ∷ links n (suc i)

long_chain_test : resolve_vreg (links 33 0) (pos 0) ≡ to_vreg (pos 32)
unfolding resolve_vreg resolve_from links
long_chain_test = refl

-- The register of the first parameter is the 1001st that the builder hands out.
arg_test :
    Option.map (λ (p : IrValue × IrBuilder). p.0) (new_vreg_val (record start { next_vreg = 1000 }))
    ≡ some (ir_arg 0)
unfolding new_vreg_val ir_arg
arg_test = refl

-- A field of a NULL struct, a step from a NULL type, and a branch to a NULL block are read through NULL.
null_test :
    (reads_null types (call_gep_field 0 none 0) ≡ true)
    × (reads_null types (call_gep 0 none none) ≡ true)
    × (reads_null types (call_br none) ≡ true)
    × (reads_null types (call_gep_field 1 none 0) ≡ false)
null_test = (refl, refl, refl, refl)
