-- ===== src/Parse/Others.antt =====
-- src/ir/ir_parse.c: the other branches of `parse` for instructions: strings, variable arguments, conversions,
-- addresses and the plain one- and two-operand forms.
use Prim.Native.String.{String}
use text.Mathlib.Text.{◌==◌ as str_eq}
use mini_asm.Base.{ℕ, List, [], Option, none, some, length, get_or, set, ltb, ◌==◌, if◌then◌else◌}
use mini_asm.Base.Int.{ℤ, pos, negsuc}
use mini_asm.Ir.{
  Opcode, Operand, imm, Instr, arg_at, op_str, op_va_start, op_va_arg, op_va_end, op_gep,
  op_gep_field,
}
use mini_asm.Ir.Build.{ir_add_string}
use mini_asm.Builder.Layout.{IrType, ty_array, ty_struct}
use mini_asm.Builder.State.{slot_number}
use mini_asm.Builder.Arith.{kind_code}
use mini_asm.Parse.State.{
  Parse, ok, out_of_bounds, fault, ◌>>=◌, ◌>>◌, ret, TypeCell, void_addr, i32_addr, peekc, word,
  filled, emit, edit,
}
use mini_asm.Parse.Types.{type_at, lookup_ty, lookup_word, elem_bytes}
use mini_asm.Parse.Operand.{no_args, parse_operand, retag, emit_op, read_string_literal}
use mini_asm.Parse.Instrs.{put_dst, put_pred, emit_only}

abbrev minus_one : ℤ
minus_one = negsuc 0

-- The literal at the front of the file; the bytes that follow a first byte that is no quote stay unread.
unfoldable pub take_literal : Parse (List ℕ)
unfolding read_string_literal
take_literal p = ok (
  elim ((read_string_literal p.input).0) [ none ↦ [] | some bytes ↦ bytes ],
  record p { input = (read_string_literal p.input).1 },
)

unfoldable pub add_string : List ℕ → Parse ℕ
unfolding ir_add_string
add_string bytes p = ok ((ir_add_string p.m bytes).1, record p { m = (ir_add_string p.m bytes).0 })

abbrev str_instr : ℕ → ℤ → Instr → Instr
str_instr idx d e = record e { dst = d; args = set e.args 0 (imm (pos idx)) }

unfoldable pub emit_str : ℤ → Parse (Unit {0})
unfolding take_literal add_string emit edit
emit_str d = do
  bytes ← take_literal
  idx ← add_string bytes
  ix ← emit op_str i32_addr (pos idx) minus_one minus_one minus_one 1
  edit ix (str_instr idx d)

unfoldable pub str_of : ℤ → Option ℕ → Parse (Unit {0})
unfolding emit_str
str_of d none = ret tt
str_of d (some c) = if c == b'"' then emit_str d else ret tt

unfoldable pub parse_str : ℤ → Parse (Unit {0})
unfolding peekc str_of
parse_str d = peekc >>= str_of d

unfoldable pub parse_va_start : ℤ → Parse (Unit {0})
unfolding emit edit
parse_va_start d = do
  ix ← emit op_va_start i32_addr minus_one minus_one minus_one minus_one 0
  edit ix (put_dst d)

-- `kinds[0] = tmp.kinds[0]`.
abbrev put_kind : Operand → Instr → Instr
put_kind t e = record e { args = set e.args 0 (retag t (arg_at e.args 0)) }

-- `(et->kind==TY_STRUCT && fld < nfields) ? offsets[fld] : 0`.
unfoldable pub field_offset : TypeCell → ℤ → Parse ℕ
field_offset c (pos i) = ret (if ltb i (length c.offsets) then get_or c.offsets i 0 else 0)
field_offset c (negsuc i) = fault out_of_bounds

unfoldable pub offset_in : TypeCell → IrType → ℤ → Parse ℕ
unfolding field_offset
offset_in c (ty_struct size align) fld = field_offset c fld
offset_in c _ fld = ret 0

-- `tmp.kinds[1]==ARG_IMM ? tmp.args[1] : 0`.
abbrev field_index : Operand → ℤ
field_index (imm z) = z
field_index _ = pos 0

abbrev put_elem : ℕ → ℕ → Instr → Instr
put_elem n t e = record e { pred = n; type = t }

-- The size of an element: for an array, of its element.
unfoldable pub elem_step : TypeCell → Parse ℕ
unfolding type_at elem_bytes
elem_step c = elim (c.shape) [
  | ty_array size ↦ type_at (c.elem_type) >>= λ el. ret (elem_bytes (el.shape))
  | _ ↦ ret (elem_bytes (c.shape))
]

unfoldable pub gep_field : ℕ → ℤ → List Operand → TypeCell → Parse (Unit {0})
unfolding offset_in emit_op edit
gep_field et d tmp c = do
  off ← offset_in c c.shape (field_index (arg_at tmp 1))
  ix ← emit_op op_gep_field i32_addr (some tmp) d 1
  edit ix (put_elem off et)

unfoldable pub gep_elem : ℕ → ℤ → List Operand → TypeCell → Parse (Unit {0})
unfolding elem_step emit_op edit
gep_elem et d tmp c = do
  n ← elem_step c
  ix ← emit_op op_gep i32_addr (some tmp) d 2
  edit ix (put_elem n et)

-- A word that is not "field" is passed over all the same.
unfoldable pub gep_of : ℕ → ℤ → List Operand → TypeCell → Option String → Parse (Unit {0})
unfolding gep_field gep_elem
gep_of et d tmp c none = gep_elem et d tmp c
gep_of et d tmp c (some w) = if str_eq w "field" then gep_field et d tmp c else gep_elem et d tmp c

module _ (strtod : String → ℕ) where
  unfoldable pub parse_va_arg : ℤ → Parse (Unit {0})
  unfolding parse_operand word lookup_ty emit edit
  parse_va_arg d = do
    tmp ← parse_operand strtod 0 no_args
    t ← lookup_word 32
    ix ← emit op_va_arg t (slot_number (arg_at tmp 0)) minus_one minus_one minus_one 1
    edit ix (put_kind (arg_at tmp 0))
    edit ix (put_dst d)

  unfoldable pub parse_va_end : Parse (Unit {0})
  unfolding parse_operand emit edit
  parse_va_end = do
    tmp ← parse_operand strtod 0 no_args
    ix ← emit op_va_end void_addr (slot_number (arg_at tmp 0)) minus_one minus_one minus_one 1
    edit ix (put_kind (arg_at tmp 0))

  unfoldable pub parse_conv : Opcode → ℤ → Parse (Unit {0})
  unfolding word parse_operand lookup_ty emit_op type_at edit
  parse_conv o d = do
    st ← word 32
    tmp ← parse_operand strtod 0 no_args
    to ← word 8
    t ← lookup_word 32
    ix ← emit_op o t (some tmp) d 1
    from ← filled st >>= lookup_ty
    c ← type_at from
    edit ix (put_pred (kind_code c.shape))

  unfoldable pub parse_gep : ℤ → Parse (Unit {0})
  unfolding word lookup_ty parse_operand type_at gep_of
  parse_gep d = do
    et ← lookup_word 32
    tmp ← parse_operand strtod 0 no_args
    tmp2 ← parse_operand strtod 1 tmp
    c ← type_at et
    maybe ← word 32
    gep_of et d tmp2 c maybe

  -- `neg`, `not` and `fneg`.
  unfoldable pub parse_unary : Opcode → ℤ → Parse (Unit {0})
  unfolding word lookup_ty parse_operand emit_op
  parse_unary o d = do
    t ← lookup_word 32
    tmp ← parse_operand strtod 0 no_args
    emit_only o t (some tmp) d 1

  -- `zext`, `sext` and `trunc`; the source type is passed over.
  unfoldable pub parse_ext : Opcode → ℤ → Parse (Unit {0})
  unfolding word lookup_ty parse_operand emit_op
  parse_ext o d = do
    dt ← word 32
    st ← word 32
    t ← filled dt >>= lookup_ty
    tmp ← parse_operand strtod 0 no_args
    emit_only o t (some tmp) d 1

  unfoldable pub parse_binary : Opcode → ℤ → Parse (Unit {0})
  unfolding word lookup_ty parse_operand emit_op
  parse_binary o d = do
    t ← lookup_word 32
    tmp ← parse_operand strtod 0 no_args
    tmp2 ← parse_operand strtod 1 tmp
    emit_only o t (some tmp2) d 2
