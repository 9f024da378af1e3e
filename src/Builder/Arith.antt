-- ===== src/Builder/Arith.antt =====
-- src/ir/ir_builder.c: the operations that append an instruction to the current block.
-- An `IRType *` is its address; what the code reads through it, and the addresses of the types that
-- `ir_type_void`, `ir_type_i1` and `ir_type_i32` return, are a record. A block that a branch names is its name.
use mini_asm.Base.{ℕ, zero, suc, ◌-◌, List, Option, none, some, length}
use mini_asm.Base.Int.{pos}
use mini_asm.Ir.{
  Opcode, Instr, op_add, op_sub, op_mul, op_sdiv, op_udiv, op_srem, op_urem, op_and, op_or, op_xor,
  op_shl, op_lshr, op_ashr, op_fadd, op_fsub, op_fmul, op_fdiv, op_fneg, op_neg, op_not, op_icmp,
  op_fcmp,
}
use mini_asm.Builder.Layout.{
  IrType, ty_void, ty_i1, ty_i8, ty_i16, ty_i32, ty_i64, ty_f32, ty_f64, ty_ptr, ty_func, ty_array,
  ty_struct,
}
use mini_asm.Builder.State.{IrValue, Build, ◌>>=◌, ◌>>◌, ret, current, edit, emit_def, set_arg}

pub record TypeStore : Type 0 where
  pub shape : ℕ → IrType
  pub offsets : ℕ → List ℕ
  pub void_type : ℕ
  pub i1_type : ℕ
  pub i32_type : ℕ

-- What the address of a type leads to; NULL is 0.
abbrev pub pointee : TypeStore → ℕ → Option IrType
pointee ts zero = none
pointee ts (suc t) = some (ts.shape (suc t))

-- The enumerator of IRTypeKind.
abbrev pub kind_code : IrType → ℕ
kind_code ty_void = 0
kind_code ty_i1 = 1
kind_code ty_i8 = 2
kind_code ty_i16 = 3
kind_code ty_i32 = 4
kind_code ty_i64 = 5
kind_code ty_f32 = 6
kind_code ty_f64 = 7
kind_code ty_ptr = 8
kind_code (ty_array s) = 9
kind_code (ty_struct s a) = 10
kind_code ty_func = 11

-- `b->cur_block->ninstrs - 1`.
unfoldable pub last_ix : Build ℕ
last_ix b = elim (current b) [ none ↦ none | some (p, blk) ↦ some (length (blk.instrs) - 1, b) ]

unfoldable pub emit1 : Opcode → ℕ → Option IrValue → Build IrValue
unfolding emit_def set_arg
emit1 o t a = do p ← emit_def o t (pos 0) (pos 0) (pos 0) (pos 0) 1; set_arg p.0 0 a; ret p.1

unfoldable pub emit2 : Opcode → ℕ → Option IrValue → Option IrValue → Build IrValue
unfolding emit_def set_arg
emit2 o t a c = do
  p ← emit_def o t (pos 0) (pos 0) (pos 0) (pos 0) 2
  set_arg p.0 0 a
  set_arg p.0 1 c
  ret p.1

unfoldable pub ir_add : ℕ → Option IrValue → Option IrValue → Build IrValue
unfolding emit2
ir_add t x y = emit2 op_add t x y

unfoldable pub ir_sub : ℕ → Option IrValue → Option IrValue → Build IrValue
unfolding emit2
ir_sub t x y = emit2 op_sub t x y

unfoldable pub ir_mul : ℕ → Option IrValue → Option IrValue → Build IrValue
unfolding emit2
ir_mul t x y = emit2 op_mul t x y

unfoldable pub ir_sdiv : ℕ → Option IrValue → Option IrValue → Build IrValue
unfolding emit2
ir_sdiv t x y = emit2 op_sdiv t x y

unfoldable pub ir_udiv : ℕ → Option IrValue → Option IrValue → Build IrValue
unfolding emit2
ir_udiv t x y = emit2 op_udiv t x y

unfoldable pub ir_srem : ℕ → Option IrValue → Option IrValue → Build IrValue
unfolding emit2
ir_srem t x y = emit2 op_srem t x y

unfoldable pub ir_urem : ℕ → Option IrValue → Option IrValue → Build IrValue
unfolding emit2
ir_urem t x y = emit2 op_urem t x y

unfoldable pub ir_and : ℕ → Option IrValue → Option IrValue → Build IrValue
unfolding emit2
ir_and t x y = emit2 op_and t x y

unfoldable pub ir_or : ℕ → Option IrValue → Option IrValue → Build IrValue
unfolding emit2
ir_or t x y = emit2 op_or t x y

unfoldable pub ir_xor : ℕ → Option IrValue → Option IrValue → Build IrValue
unfolding emit2
ir_xor t x y = emit2 op_xor t x y

unfoldable pub ir_shl : ℕ → Option IrValue → Option IrValue → Build IrValue
unfolding emit2
ir_shl t x y = emit2 op_shl t x y

unfoldable pub ir_lshr : ℕ → Option IrValue → Option IrValue → Build IrValue
unfolding emit2
ir_lshr t x y = emit2 op_lshr t x y

unfoldable pub ir_ashr : ℕ → Option IrValue → Option IrValue → Build IrValue
unfolding emit2
ir_ashr t x y = emit2 op_ashr t x y

unfoldable pub ir_fadd : ℕ → Option IrValue → Option IrValue → Build IrValue
unfolding emit2
ir_fadd t x y = emit2 op_fadd t x y

unfoldable pub ir_fsub : ℕ → Option IrValue → Option IrValue → Build IrValue
unfolding emit2
ir_fsub t x y = emit2 op_fsub t x y

unfoldable pub ir_fmul : ℕ → Option IrValue → Option IrValue → Build IrValue
unfolding emit2
ir_fmul t x y = emit2 op_fmul t x y

unfoldable pub ir_fdiv : ℕ → Option IrValue → Option IrValue → Build IrValue
unfolding emit2
ir_fdiv t x y = emit2 op_fdiv t x y

unfoldable pub ir_neg : ℕ → Option IrValue → Build IrValue
unfolding emit1
ir_neg t x = emit1 op_neg t x

unfoldable pub ir_not : ℕ → Option IrValue → Build IrValue
unfolding emit1
ir_not t x = emit1 op_not t x

unfoldable pub ir_fneg : ℕ → Option IrValue → Build IrValue
unfolding emit1
ir_fneg t x = emit1 op_fneg t x

abbrev pub put_pred : ℕ → Instr → Instr
put_pred n e = record e { pred = n }

unfoldable pub ir_icmp : TypeStore → ℕ → Option IrValue → Option IrValue → Build IrValue
unfolding emit2 last_ix edit
ir_icmp ts p x y = do r ← emit2 op_icmp ts.i1_type x y; ix ← last_ix; edit ix (put_pred p); ret r

unfoldable pub ir_fcmp : ℕ → ℕ → Option IrValue → Option IrValue → Build IrValue
unfolding emit2 last_ix edit
ir_fcmp t p x y = do r ← emit2 op_fcmp t x y; ix ← last_ix; edit ix (put_pred p); ret r
