-- ===== src/Builder/Alias.antt =====
-- src/ir/ir_builder.c: placeholders. `ir_value_placeholder` hands a register out, `ir_value_define` records what
-- it stands for, and `ir_builder_finalize` puts that into the operands of the current function. The arrays
-- double while they are too short; the fuel is one more than the register.
pub mod Leads
pub mod Finalize
pub mod Define
use mini_asm.Base.{
  ℕ, zero, suc, ◌+◌, ◌*◌, ◌-◌, List, [], ◌∷◌, ◌++◌, Option, none, some, Bool, true, false, length,
  get_elem?, get_or, set, update_at, replicate, leb, if◌then◌else◌,
}
use mini_asm.Base.Int.{ℤ, pos, negsuc, to_int, to_i64, to_u64, ltb_ℤ}
use mini_asm.Ir.{Operand, vreg, imm, fp_imm, Instr, Block, Func}
use mini_asm.Ir.FpTable.{FpTable, ir_fpimm_add}
use mini_asm.Builder.State.{
  IrValue, reg_val, int_val, fp_val, value_vreg, Cell, unknown_cell, IrBuilder, Build, ◌>>=◌, ◌>>◌,
  ret,
}

-- `while(newcap <= v) newcap *= 2`.
unfoldable pub grow_cap : ℕ → ℕ → ℕ → ℕ
grow_cap zero cap v = cap
grow_cap (suc fuel) cap v = elim (leb cap v) [ true ↦ grow_cap fuel (cap * 2) v | false ↦ cap ]

unfoldable pub alias_grow : ℕ → List Cell → List Cell
unfolding grow_cap
alias_grow v cs = cs ++ replicate (grow_cap (suc v) (length cs) v - length cs) unknown_cell

unfoldable pub ir_value_placeholder : ℕ → Build IrValue
unfolding alias_grow
ir_value_placeholder t b = some (
  reg_val b.next_vreg t,
  record b { next_vreg = b.next_vreg + 1; aliases = alias_grow b.next_vreg b.aliases },
)

-- What `ir_value_define` writes; `alias_const` keeps its value where the other is a register.
unfoldable pub defined_cell : Cell → IrValue → Cell
defined_cell c (reg_val v t) = record c { known = true; to = pos v; is_fp = false }
defined_cell c (int_val i t) = record { known = true; to = negsuc 0; const = i; is_fp = false }
defined_cell c (fp_val d t) = record { known = true; to = negsuc 0; const = to_i64 d; is_fp = true }

pub define_reg : ℕ → IrValue → List Cell → List Cell
unfolding alias_grow defined_cell
define_reg v a cs = update_at (alias_grow v cs) v (λ c. defined_cell c a)

unfoldable pub ir_value_define : Option IrValue → Option IrValue → Build (Unit {0})
unfolding define_reg
ir_value_define (some p) (some a) b =
    some (tt, record b { aliases = define_reg (value_vreg p) a b.aliases })
ir_value_define none (some a) b = some (tt, b)
ir_value_define _ none b = some (tt, b)

-- What `resolve_vreg` stores through its pointers.
pub data Resolved : Type 0 where
  to_vreg to_imm to_fp : ℤ → Resolved

-- The cell of a register, with an unknown one where `v < 0` or `v >= b->alias_cap`.
abbrev pub cell_of : List Cell → ℤ → Cell
cell_of cs (pos v) = get_or cs v unknown_cell
cell_of cs (negsuc v) = unknown_cell

abbrev pub constant_of : Cell → Resolved
constant_of c = if c.is_fp then to_fp c.const else to_imm c.const

-- The loop, over the hops left.
unfoldable pub resolve_from : ℕ → List Cell → ℤ → Resolved
resolve_from zero cs v = to_vreg v
resolve_from (suc hops) cs v = elim ((cell_of cs v).known) [
  | false ↦ to_vreg v
  | true ↦ elim (ltb_ℤ ((cell_of cs v).to) (pos 0)) [
    | true ↦ constant_of (cell_of cs v)
    | false ↦ resolve_from hops cs ((cell_of cs v).to)
  ]
]

unfoldable pub resolve_vreg : List Cell → ℤ → Resolved
unfolding resolve_from
resolve_vreg cs v = resolve_from 32 cs v

-- One operand that is a register, with the table that a floating-point constant enters.
unfoldable pub put_resolved : FpTable → Resolved → FpTable × Operand
unfolding ir_fpimm_add
put_resolved t (to_vreg v) = (t, vreg v)
put_resolved t (to_imm c) = (t, imm (to_int c))
put_resolved t (to_fp c) =
    ((ir_fpimm_add t (to_u64 c)).0, fp_imm (pos (ir_fpimm_add t (to_u64 c)).1))

unfoldable pub finalize_arg : List Cell → FpTable → Operand → FpTable × Operand
unfolding resolve_vreg put_resolved
finalize_arg cs t (vreg v) = put_resolved t (resolve_vreg cs v)
finalize_arg cs t o = (t, o)

unfoldable pub finalize_args : List Cell → FpTable → List Operand → FpTable × List Operand
unfolding finalize_arg
finalize_args cs t [] = (t, [])
finalize_args cs t (o ∷ os) =
    let p = finalize_arg cs t o in let q = finalize_args cs p.0 os in (q.0, p.1 ∷ q.1)

unfoldable pub finalize_instrs : List Cell → FpTable → List Instr → FpTable × List Instr
unfolding finalize_args
finalize_instrs cs t [] = (t, [])
finalize_instrs cs t (i ∷ is) =
    let p = finalize_args cs t i.args in
    let q = finalize_instrs cs p.0 is in (q.0, record i { args = p.1 } ∷ q.1)

unfoldable pub finalize_blocks : List Cell → FpTable → List Block → FpTable × List Block
unfolding finalize_instrs
finalize_blocks cs t [] = (t, [])
finalize_blocks cs t (b ∷ bs) =
    let p = finalize_instrs cs t b.instrs in
    let q = finalize_blocks cs p.0 bs in (q.0, record b { instrs = p.1 } ∷ q.1)

-- The blocks of the function with an index.
abbrev pub blocks_at : List Func → ℕ → List Block
blocks_at fs f = elim (get_elem? fs f) [ none ↦ [] | some fn ↦ fn.blocks ]

unfoldable pub finalize_func : ℕ → IrBuilder → IrBuilder
unfolding finalize_blocks
finalize_func f b =
    let r = finalize_blocks b.aliases b.fp (blocks_at b.m.funcs f) in
    record b {
      fp = r.0;
      m = record b.m { funcs = update_at b.m.funcs f (λ (fn : Func). record fn { blocks = r.1 }) };
    }

unfoldable pub ir_builder_finalize : IrBuilder → IrBuilder
unfolding finalize_func
ir_builder_finalize b = elim b.cur_func [ none ↦ b | some f ↦ finalize_func f b ]
