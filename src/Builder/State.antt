-- ===== src/Builder/State.antt =====
-- src/ir/ir_builder.c: the builder's values and state, its life cycle, and the steps that every operation is
-- made of.
-- A block is its place, the function's index in the module and the block's index in the function, so
-- that an address stays good when `ir_func_new` moves the functions. The module and the table of
-- floating-point immediates belong to the state. The three arrays `alias_*` are one list of cells, whose
-- length is `alias_cap`. `next_vreg` and a value's register are not negative.
use Prim.Native.String.{String}
use mini_asm.Base.{
  ℕ, ◌+◌, List, map, Option, none, some, Bool, false, length, get_elem?, set, update_at, replicate,
}
use mini_asm.Base.Int.{ℤ, pos, negsuc, to_int}
use mini_asm.Ir.{Opcode, Operand, absent, vreg, imm, fp_imm, Instr, Block, Func, Module, arg_at}
use mini_asm.Ir.Build.{ir_func_new, ir_block_new, ir_emit}
use mini_asm.Ir.FpTable.{FpTable, ir_fpimm_add}

-- IRValue: `is_const` is 0, 1 and 2 in this order. A double is its bit pattern.
pub data IrValue : Type 0 where
  reg_val : (v : ℕ) (type : ℕ) → IrValue
  int_val : (i : ℤ) (type : ℕ) → IrValue
  fp_val : (bits : ℕ) (type : ℕ) → IrValue

-- `v->type`.
abbrev pub value_type : IrValue → ℕ
value_type (reg_val v t) = t
value_type (int_val i t) = t
value_type (fp_val d t) = t

-- `v->vreg`, which `calloc` leaves 0 in a constant.
abbrev pub value_vreg : IrValue → ℕ
value_vreg (reg_val v t) = v
value_vreg (int_val i t) = 0
value_vreg (fp_val d t) = 0

pub ir_const_i : ℕ → ℤ → IrValue
ir_const_i t v = int_val v t

pub ir_const_f : ℕ → ℕ → IrValue
ir_const_f t d = fp_val d t

-- The entry of the arrays `alias_known`, `alias_vreg`, `alias_const` and `alias_is_fp` for one register.
pub record Cell : Type 0 where
  pub known : Bool
  pub to : ℤ
  pub const : ℤ
  pub is_fp : Bool

-- `alias_const` is not initialized; 0 stands for what it holds.
abbrev pub unknown_cell : Cell
unknown_cell = record { known = false; to = negsuc 0; const = pos 0; is_fp = false }

-- IRBuilder.
pub record IrBuilder : Type 0 where
  pub m : Module
  pub fp : FpTable
  pub cur_func : Option ℕ
  pub cur_block : Option (ℕ × ℕ)
  pub next_vreg : ℕ
  pub aliases : List Cell

-- `none` is a crash on NULL.
abbrev pub Build : Type 0 → Type 0
Build A = IrBuilder → Option (A × IrBuilder)

infixl 5 ◌>>=◌ ◌>>◌
abbrev pub ◌>>=◌ : {A B : Type 0} → Build A → (A → Build B) → Build B
◌>>=◌ m f b = elim (m b) [ none ↦ none | some (a, b') ↦ f a b' ]

abbrev pub ◌>>◌ : {B : Type 0} → Build (Unit {0}) → Build B → Build B
m >> k = m >>= λ _. k

abbrev pub ret : {A : Type 0} → A → Build A
ret a b = some (a, b)

-- A pointer that is read: NULL crashes.
abbrev pub read : {A : Type 0} → Option A → Build A
read none b = none
read (some a) b = some (a, b)

unfoldable pub ir_builder_new : Module → FpTable → IrBuilder
ir_builder_new m t = record {
  m = m;
  fp = t;
  cur_func = none;
  cur_block = none;
  next_vreg = 0;
  aliases = replicate 1024 unknown_cell;
}

unfoldable pub ir_arg : ℕ → IrValue
ir_arg i = reg_val (1000 + i) 0

-- The loop writes all fields of a cell but `alias_const`.
abbrev pub reset_cell : Cell → Cell
reset_cell c = record c { known = false; to = negsuc 0; is_fp = false }

unfoldable pub ir_builder_func : String → ℕ → Build ℕ
unfolding ir_func_new
ir_builder_func n r b = some (
  length b.m.funcs,
  record b {
    m = ir_func_new b.m n r;
    cur_func = some (length b.m.funcs);
    next_vreg = 0;
    aliases = map reset_cell b.aliases;
  },
)

unfoldable pub ir_builder_params : ℕ → List ℕ → ℕ → Build (Unit {0})
ir_builder_params f ts n b = some (
  tt,
  record b {
    m = record b.m {
      funcs = update_at b.m.funcs f (λ (fn : Func). record fn { nparams = n; params = ts });
    };
  },
)

-- The number of blocks of a function.
abbrev pub nblocks : Module → ℕ → ℕ
nblocks m f = elim (get_elem? m.funcs f) [ none ↦ 0 | some fn ↦ length (fn.blocks) ]

unfoldable pub ir_builder_block : ℕ → String → Build (ℕ × ℕ)
unfolding ir_block_new
ir_builder_block f n b = some (
  (f, nblocks b.m f),
  record b { m = record b.m { funcs = update_at b.m.funcs f (λ (fn : Func). ir_block_new fn n) } },
)

unfoldable pub ir_set_insert : ℕ × ℕ → Build (Unit {0})
ir_set_insert p b = some (tt, record b { cur_block = some p })

-- The block at a place.
abbrev pub block_at : Module → ℕ × ℕ → Option Block
block_at m p = elim (get_elem? m.funcs p.0) [ none ↦ none | some f ↦ get_elem? (f.blocks) p.1 ]

abbrev pub put_block : Module → ℕ × ℕ → Block → Module
put_block m p blk = record m {
  funcs = update_at m.funcs p.0 (λ (fn : Func). record fn { blocks = set fn.blocks p.1 blk });
}

-- `b->cur_block` with its place.
abbrev pub current : IrBuilder → Option ((ℕ × ℕ) × Block)
current b = elim b.cur_block [
  | none ↦ none
  | some p ↦ elim (block_at b.m p) [ none ↦ none | some blk ↦ some (p, blk) ]
]

-- `ir_emit(b->cur_block, …)`.
unfoldable pub emit : Opcode → ℕ → ℤ → ℤ → ℤ → ℤ → ℕ → Build ℕ
unfolding ir_emit
emit o t a0 a1 a2 a3 n b = elim (current b) [
  | none ↦ none
  | some (p, blk) ↦ some (
    (ir_emit blk o t a0 a1 a2 a3 n).1,
    record b { m = put_block b.m p (ir_emit blk o t a0 a1 a2 a3 n).0 },
  )
]

-- A write to `b->cur_block->instrs[ix]`.
unfoldable pub edit : ℕ → (Instr → Instr) → Build (Unit {0})
edit ix g b = elim (current b) [
  | none ↦ none
  | some (p, blk) ↦
      some
        (tt, record b { m = put_block b.m p (record blk { instrs = update_at (blk.instrs) ix g }) })
]

unfoldable pub new_vreg_val : Build IrValue
new_vreg_val b = some (reg_val b.next_vreg 0, record b { next_vreg = b.next_vreg + 1 })

-- `ir_emit`, `new_vreg_val` and `e->dst = d->vreg`.
unfoldable pub emit_def : Opcode → ℕ → ℤ → ℤ → ℤ → ℤ → ℕ → Build (ℕ × IrValue)
unfolding emit new_vreg_val edit
emit_def o t a0 a1 a2 a3 n = do
  ix ← emit o t a0 a1 a2 a3 n
  d ← new_vreg_val
  edit ix (λ (e : Instr). record e { dst = pos (value_vreg d) })
  ret (ix, d)

-- The number in a slot, which stays when the tag becomes ARG_NONE.
abbrev pub slot_number : Operand → ℤ
slot_number (absent z) = z
slot_number (vreg z) = z
slot_number (imm z) = z
slot_number (Operand.label_arg z) = z
slot_number (fp_imm z) = z

abbrev pub put_operand : ℕ → Operand → Instr → Instr
put_operand i o e = record e { args = set e.args i o }

unfoldable pub add_imm : ℕ → Build ℕ
unfolding ir_fpimm_add
add_imm d b = some ((ir_fpimm_add b.fp d).1, record b { fp = (ir_fpimm_add b.fp d).0 })

unfoldable pub set_arg : ℕ → ℕ → Option IrValue → Build (Unit {0})
unfolding edit add_imm
set_arg ix i none = edit ix (λ e. put_operand i (absent (slot_number (arg_at (e.args) i))) e)
set_arg ix i (some (reg_val v t)) = edit ix (put_operand i (vreg (pos v)))
set_arg ix i (some (int_val z t)) = edit ix (put_operand i (imm (to_int z)))
set_arg ix i (some (fp_val d t)) = add_imm d >>= λ k. edit ix (put_operand i (fp_imm (pos k)))
