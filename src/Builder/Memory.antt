-- ===== src/Builder/Memory.antt =====
-- src/ir/ir_builder.c: memory, strings, conversions and variable arguments.
use mini_asm.Base.{ℕ, List, [], ◌∷◌, Option, none, some, Bool, true, false, length, get_or, ltb}
use mini_asm.Base.Int.{ℤ, pos, negsuc, to_int}
use mini_asm.Ir.{
  Opcode, imm, Instr, op_load, op_store, op_memcpy, op_gep, op_gep_field, op_alloca, op_zext,
  op_sext, op_trunc, op_str, op_sitofp, op_uitofp, op_fptosi, op_fptoui, op_fpext, op_fptrunc,
  op_va_start, op_va_arg, op_va_end,
}
use mini_asm.Ir.Build.{ir_add_string}
use mini_asm.Builder.Layout.{
  IrType, ty_i8, ty_i16, ty_i32, ty_i64, ty_f32, ty_f64, ty_ptr, ty_array, ty_struct,
}
use mini_asm.Builder.State.{
  IrValue, reg_val, Build, ◌>>=◌, ◌>>◌, ret, read, emit, edit, emit_def, put_operand, set_arg,
}
use mini_asm.Builder.Arith.{TypeStore, pointee, kind_code, last_ix, emit1, emit2, put_pred}

abbrev minus_one : ℤ
minus_one = negsuc 0

unfoldable pub ir_alloca : ℕ → ℕ → Build IrValue
unfolding emit_def edit
ir_alloca t bytes = do
  p ← emit_def op_alloca t (to_int (pos bytes)) (pos 0) (pos 0) (pos 0) 1
  edit p.0 (put_operand 0 (imm (to_int (pos bytes))))
  ret p.1

unfoldable pub ir_memcpy : Option IrValue → Option IrValue → ℕ → Build (Unit {0})
unfolding emit set_arg edit
ir_memcpy dst src size = do
  ix ← emit op_memcpy 0 (pos 0) (pos 0) (to_int (pos size)) (pos 0) 3
  set_arg ix 0 dst
  set_arg ix 1 src
  edit ix (put_operand 2 (imm (to_int (pos size))))

-- The size of a struct or an array.
abbrev pub aggregate_size : IrType → Option ℕ
aggregate_size (ty_struct size align) = some size
aggregate_size (ty_array size) = some size
aggregate_size _ = none

-- `t && (t->kind == TY_STRUCT || t->kind == TY_ARRAY)`, with the size.
abbrev pub copied_size : TypeStore → ℕ → Option ℕ
copied_size ts ℕ.zero = none
copied_size ts (ℕ.suc t) = aggregate_size (ts.shape (ℕ.suc t))

unfoldable pub ir_load : TypeStore → ℕ → Option IrValue → Build IrValue
unfolding emit1 ir_alloca ir_memcpy
ir_load ts t ptr = elim (copied_size ts t) [
  | some sz ↦ ir_alloca t sz >>= λ tmp. ir_memcpy (some tmp) ptr sz >> ret tmp
  | none ↦ emit1 op_load t ptr
]

unfoldable pub store_scalar : ℕ → Option IrValue → Option IrValue → Build (Unit {0})
unfolding emit set_arg
store_scalar t val ptr = do
  ix ← emit op_store t (pos 0) (pos 0) (pos 0) (pos 0) 2
  set_arg ix 0 val
  set_arg ix 1 ptr

unfoldable pub ir_store : TypeStore → ℕ → Option IrValue → Option IrValue → Build (Unit {0})
unfolding ir_memcpy store_scalar
ir_store ts t val ptr = elim (copied_size ts t) [
  | some sz ↦ ir_memcpy ptr val sz
  | none ↦ store_scalar t val ptr
]

-- The switch of `ir_gep` and of `ir_alloca_type`.
unfoldable pub elem_size : IrType → ℕ
elem_size ty_i8 = 1
elem_size ty_i16 = 2
elem_size ty_i32 = 4
elem_size ty_f32 = 4
elem_size ty_i64 = 8
elem_size ty_f64 = 8
elem_size ty_ptr = 8
elem_size (ty_struct size align) = size
elem_size (ty_array size) = size
elem_size _ = 4

-- `e->pred` and `e->type`.
abbrev pub put_elem : ℕ → ℕ → Instr → Instr
put_elem n t e = record e { pred = n; type = t }

unfoldable pub ir_gep : TypeStore → ℕ → Option IrValue → Option IrValue → Build IrValue
unfolding emit2 last_ix edit elem_size
ir_gep ts elem_type base idx = do
  r ← emit2 op_gep ts.i32_type base idx
  ix ← last_ix
  elem ← read (pointee ts elem_type)
  edit ix (put_elem (elem_size elem) elem_type)
  ret r

-- `base->is_const==0 ? base->vreg : 0`.
abbrev pub base_reg : IrValue → ℤ
base_reg (reg_val v t) = pos v
base_reg _ = pos 0

-- `st->kind != TY_STRUCT || fld >= st->u.struct_.nfields`, negated.
abbrev pub has_field : TypeStore → ℕ → ℕ → Bool
has_field ts st fld = elim (ts.shape st) [
  | ty_struct size align ↦ ltb fld (length (ts.offsets st))
  | _ ↦ false
]

unfoldable pub field_address : TypeStore → ℕ → Option IrValue → ℕ → Build (Option IrValue)
unfolding emit_def set_arg edit
field_address ts st base fld = do
  x ← read base
  p ← emit_def op_gep_field ts.i32_type (base_reg x) minus_one minus_one minus_one 1
  set_arg p.0 0 base
  edit p.0 (put_elem (get_or (ts.offsets st) fld 0) st)
  ret (some p.1)

-- Without the field, the base is returned, which may be NULL.
unfoldable pub ir_gep_field : TypeStore → ℕ → Option IrValue → ℕ → Build (Option IrValue)
unfolding field_address
ir_gep_field ts st base fld = do
  shape ← read (pointee ts st)
  elim (has_field ts st fld) [ true ↦ field_address ts st base fld | false ↦ ret base ]

unfoldable pub ir_alloca_type : TypeStore → ℕ → Build IrValue
unfolding ir_alloca elem_size
ir_alloca_type ts t = read (pointee ts t) >>= λ shape. ir_alloca t (elem_size shape)

-- `ir_add_string(b->m, bytes, len)`.
unfoldable pub add_string : List ℕ → Build ℕ
unfolding ir_add_string
add_string bytes b =
    some ((ir_add_string b.m bytes).1, record b { m = (ir_add_string b.m bytes).0 })

-- The index of a string is an `int`.
unfoldable pub ir_str : TypeStore → List ℕ → Build IrValue
unfolding add_string emit_def edit
ir_str ts bytes = do
  idx ← add_string bytes
  p ← emit_def op_str ts.i32_type (pos idx) minus_one minus_one minus_one 1
  edit p.0 (put_operand 0 (imm (pos idx)))
  ret p.1

-- The bytes before the first 0, which `strlen` counts.
abbrev pub c_bytes : List ℕ → List ℕ
c_bytes [] = []
c_bytes (ℕ.zero ∷ cs) = []
c_bytes (ℕ.suc c ∷ cs) = ℕ.suc c ∷ c_bytes cs

unfoldable pub ir_str_cstr : TypeStore → List ℕ → Build IrValue
unfolding ir_str
ir_str_cstr ts s = ir_str ts (c_bytes s)

unfoldable pub emit_conv : TypeStore → Opcode → ℕ → ℕ → Option IrValue → Build IrValue
unfolding emit_def set_arg edit
emit_conv ts o from to x = do
  p ← emit_def o to (pos 0) (pos 0) (pos 0) (pos 0) 1
  set_arg p.0 0 x
  shape ← read (pointee ts from)
  edit p.0 (put_pred (kind_code shape))
  ret p.1

unfoldable pub ir_zext : TypeStore → ℕ → ℕ → Option IrValue → Build IrValue
unfolding emit_conv
ir_zext ts from to x = emit_conv ts op_zext from to x

unfoldable pub ir_sext : TypeStore → ℕ → ℕ → Option IrValue → Build IrValue
unfolding emit_conv
ir_sext ts from to x = emit_conv ts op_sext from to x

unfoldable pub ir_trunc : TypeStore → ℕ → ℕ → Option IrValue → Build IrValue
unfolding emit_conv
ir_trunc ts from to x = emit_conv ts op_trunc from to x

unfoldable pub ir_sitofp : TypeStore → ℕ → ℕ → Option IrValue → Build IrValue
unfolding emit_conv
ir_sitofp ts from to x = emit_conv ts op_sitofp from to x

unfoldable pub ir_uitofp : TypeStore → ℕ → ℕ → Option IrValue → Build IrValue
unfolding emit_conv
ir_uitofp ts from to x = emit_conv ts op_uitofp from to x

unfoldable pub ir_fptosi : TypeStore → ℕ → ℕ → Option IrValue → Build IrValue
unfolding emit_conv
ir_fptosi ts from to x = emit_conv ts op_fptosi from to x

unfoldable pub ir_fptoui : TypeStore → ℕ → ℕ → Option IrValue → Build IrValue
unfolding emit_conv
ir_fptoui ts from to x = emit_conv ts op_fptoui from to x

unfoldable pub ir_fpext : TypeStore → ℕ → ℕ → Option IrValue → Build IrValue
unfolding emit_conv
ir_fpext ts from to x = emit_conv ts op_fpext from to x

unfoldable pub ir_fptrunc : TypeStore → ℕ → ℕ → Option IrValue → Build IrValue
unfolding emit_conv
ir_fptrunc ts from to x = emit_conv ts op_fptrunc from to x

unfoldable pub ir_va_start : TypeStore → Build IrValue
unfolding emit_def
ir_va_start ts = do
  p ← emit_def op_va_start ts.i32_type minus_one minus_one minus_one minus_one 0
  ret p.1

unfoldable pub ir_va_arg : ℕ → Option IrValue → Build IrValue
unfolding emit_def set_arg
ir_va_arg t ap = do
  p ← emit_def op_va_arg t (pos 0) minus_one minus_one minus_one 1
  set_arg p.0 0 ap
  ret p.1

unfoldable pub ir_va_end : TypeStore → Option IrValue → Build (Unit {0})
unfolding emit set_arg
ir_va_end ts ap = do
  ix ← emit op_va_end ts.void_type (pos 0) minus_one minus_one minus_one 1
  set_arg ix 0 ap
