-- ===== src/Parse/Halts/Instrs.antt =====
-- src/ir/ir_parse.c: every branch for an instruction halts.
use Prim.Native.String.{String}
use mini_asm.Base.{ℕ, ◌≤◌, List, Bool, true, false, Option, none, some, arith}
use mini_asm.Base.Int.{ℤ, pos, negsuc}
use mini_asm.Base.Text.{text_length}
use mini_asm.Ir.{Opcode, Operand}
use mini_asm.Builder.Layout.{IrType, ty_array, ty_struct}
use mini_asm.Parse.State.{◌>>=◌, ret, TypeCell}
use mini_asm.Parse.Types.{type_at, elem_bytes}
use mini_asm.Parse.Operand.{read_chars, read_string_literal}
use mini_asm.Parse.Instrs.{
  ret_value, ret_of, parse_ret, parse_call, parse_cmp, put_labels, parse_br, parse_cbr, parse_phi,
  alloca_size, parse_alloca, copy_aggregate, load_from, parse_load, store_to, parse_store,
}
use mini_asm.Parse.Others.{
  take_literal, add_string, emit_str, str_of, parse_str, parse_va_start, parse_va_arg, parse_va_end,
  field_offset, offset_in, elem_step, gep_field, gep_elem, gep_of, parse_conv, parse_gep,
  parse_unary, parse_ext, parse_binary,
}
use mini_asm.Parse.Halts.{Halts, ret-Halts}
use mini_asm.Parse.Halts.Operands.{
  parts, emit_op-Halts, emit_only-Halts, parse_operand-Halts, args_of-Halts,
}

read_chars-le : (e : Bool) (s : String) → text_length (read_chars e s).1 ≤ text_length s
unfolding read_chars
read_chars-le false String.[] = omega arith
read_chars-le true String.[] = omega arith
read_chars-le true (String.◌∷◌ c s) = omega (arith, read_chars-le false s)
read_chars-le false (String.◌∷◌ c s) = ground (arith, read_chars-le true s, read_chars-le false s)

read_string_literal-le : (s : String) → text_length (read_string_literal s).1 ≤ text_length s
unfolding read_string_literal
read_string_literal-le String.[] = omega arith
read_string_literal-le (String.◌∷◌ c s) = ground (arith, read_chars-le false s)

put_labels-Halts : (ix : ℕ) (l1 l2 : Option String) → Halts (put_labels ix l1 l2)
unfolding put_labels
put_labels-Halts ix l1 l2 = search parts depth 12

pub parse_br-Halts : Halts parse_br
unfolding parse_br
parse_br-Halts = search (parts, emit_op-Halts) depth 12

alloca_size-Halts : (t : ℕ) (q : Option ℕ) → Halts (alloca_size t q)
unfolding alloca_size
alloca_size-Halts t q = search parts depth 12

pub parse_alloca-Halts : (d : ℤ) → Halts (parse_alloca d)
unfolding parse_alloca
parse_alloca-Halts d = search (parts, alloca_size-Halts, emit_only-Halts) depth 12

copy-Halts : (x y : Operand) (n : ℕ) → Halts (copy_aggregate x y n)
unfolding copy_aggregate
copy-Halts x y n = search parts depth 12

load_from-Halts : (t : ℕ) (d : ℤ) (tmp : List Operand) (c : TypeCell) → Halts (load_from t d tmp c)
unfolding load_from
load_from-Halts t d tmp c = search (parts, emit_only-Halts, copy-Halts) depth 12

store_to-Halts : (t : ℕ) (tmp : List Operand) (c : TypeCell) → Halts (store_to t tmp c)
unfolding store_to
store_to-Halts t tmp c = search (parts, emit_only-Halts, copy-Halts) depth 12

take_literal-Halts : Halts take_literal
unfolding take_literal
take_literal-Halts p = read_string_literal-le p.input

add_string-Halts : (bytes : List ℕ) → Halts (add_string bytes)
unfolding add_string
add_string-Halts bytes p = omega arith

emit_str-Halts : (d : ℤ) → Halts (emit_str d)
unfolding emit_str
emit_str-Halts d = search (parts, take_literal-Halts, add_string-Halts) depth 12

str_of-Halts : (d : ℤ) (q : Option ℕ) → Halts (str_of d q)
unfolding str_of
str_of-Halts d none = ret-Halts tt
str_of-Halts d (some c) = search (parts, emit_str-Halts)

pub parse_str-Halts : (d : ℤ) → Halts (parse_str d)
unfolding parse_str
parse_str-Halts d = search (parts, str_of-Halts)

pub parse_va_start-Halts : (d : ℤ) → Halts (parse_va_start d)
unfolding parse_va_start
parse_va_start-Halts d = search parts depth 12

field_offset-Halts : (c : TypeCell) (z : ℤ) → Halts (field_offset c z)
unfolding field_offset
field_offset-Halts c (pos i) = search parts
field_offset-Halts c (negsuc i) = λ p e. cc

offset_in-Halts : (c : TypeCell) (t : IrType) (z : ℤ) → Halts (offset_in c t z)
unfolding offset_in
offset_in-Halts c (ty_struct size align) z = field_offset-Halts c z
offset_in-Halts c _ z = ret-Halts {A = ℕ} 0

elem_step-Halts : (c : TypeCell) → Halts (elem_step c)
unfolding elem_step
elem_step-Halts c = by_shape c.shape
  where
    by_shape :
        (k : IrType)
        → Halts (elim k [
          | ty_array size ↦ type_at (c.elem_type) >>= λ el. ret (elem_bytes (el.shape))
          | _ ↦ ret (elem_bytes (c.shape))
        ])
    by_shape (ty_array size) = search parts
    by_shape _ = ret-Halts (elem_bytes (c.shape))

gep_field-Halts : (t : ℕ) (d : ℤ) (tmp : List Operand) (c : TypeCell) → Halts (gep_field t d tmp c)
unfolding gep_field
gep_field-Halts t d tmp c = search (parts, offset_in-Halts, emit_op-Halts) depth 12

gep_elem-Halts : (t : ℕ) (d : ℤ) (tmp : List Operand) (c : TypeCell) → Halts (gep_elem t d tmp c)
unfolding gep_elem
gep_elem-Halts t d tmp c = search (parts, elem_step-Halts, emit_op-Halts) depth 12

gep_of-Halts :
    (t : ℕ) (d : ℤ) (tmp : List Operand) (c : TypeCell) (w : Option String)
    → Halts (gep_of t d tmp c w)
unfolding gep_of
gep_of-Halts t d tmp c none = gep_elem-Halts t d tmp c
gep_of-Halts t d tmp c (some w) = search (parts, gep_field-Halts, gep_elem-Halts)

module _ (strtod : String → ℕ) where
  ret_value-Halts : (w : String) → Halts (ret_value strtod w)
  unfolding ret_value
  ret_value-Halts w = search (parts, parse_operand-Halts, emit_only-Halts) depth 12

  ret_of-Halts : (w : Option String) → Halts (ret_of strtod w)
  unfolding ret_of
  ret_of-Halts none = search emit_only-Halts
  ret_of-Halts (some w) = search (parts, ret_value-Halts, emit_only-Halts)

  pub parse_ret-Halts : Halts (parse_ret strtod)
  unfolding parse_ret
  parse_ret-Halts = search (parts, ret_of-Halts)

  pub parse_call-Halts : (d : ℤ) → Halts (parse_call strtod d)
  unfolding parse_call
  parse_call-Halts d = search (parts, args_of-Halts) depth 20

  pub parse_cmp-Halts : (o : Opcode) (d : ℤ) → Halts (parse_cmp strtod o d)
  unfolding parse_cmp
  parse_cmp-Halts o d = search (parts, parse_operand-Halts, emit_op-Halts) depth 20

  pub parse_cbr-Halts : Halts (parse_cbr strtod)
  unfolding parse_cbr
  parse_cbr-Halts = search (parts, parse_operand-Halts, emit_op-Halts, put_labels-Halts) depth 20

  pub parse_phi-Halts : (d : ℤ) → Halts (parse_phi strtod d)
  unfolding parse_phi
  parse_phi-Halts d = search (parts, parse_operand-Halts, emit_op-Halts, put_labels-Halts) depth 20

  pub parse_load-Halts : (d : ℤ) → Halts (parse_load strtod d)
  unfolding parse_load
  parse_load-Halts d = search (parts, parse_operand-Halts, load_from-Halts) depth 20

  pub parse_store-Halts : Halts (parse_store strtod)
  unfolding parse_store
  parse_store-Halts = search (parts, parse_operand-Halts, store_to-Halts) depth 20

  pub parse_va_arg-Halts : (d : ℤ) → Halts (parse_va_arg strtod d)
  unfolding parse_va_arg
  parse_va_arg-Halts d = search (parts, parse_operand-Halts) depth 20

  pub parse_va_end-Halts : Halts (parse_va_end strtod)
  unfolding parse_va_end
  parse_va_end-Halts = search (parts, parse_operand-Halts) depth 20

  pub parse_conv-Halts : (o : Opcode) (d : ℤ) → Halts (parse_conv strtod o d)
  unfolding parse_conv
  parse_conv-Halts o d = search (parts, parse_operand-Halts, emit_op-Halts) depth 20

  pub parse_gep-Halts : (d : ℤ) → Halts (parse_gep strtod d)
  unfolding parse_gep
  parse_gep-Halts d = search (parts, parse_operand-Halts, gep_of-Halts) depth 20

  pub parse_unary-Halts : (o : Opcode) (d : ℤ) → Halts (parse_unary strtod o d)
  unfolding parse_unary
  parse_unary-Halts o d = search (parts, parse_operand-Halts, emit_only-Halts) depth 20

  pub parse_ext-Halts : (o : Opcode) (d : ℤ) → Halts (parse_ext strtod o d)
  unfolding parse_ext
  parse_ext-Halts o d = search (parts, parse_operand-Halts, emit_only-Halts) depth 20

  pub parse_binary-Halts : (o : Opcode) (d : ℤ) → Halts (parse_binary strtod o d)
  unfolding parse_binary
  parse_binary-Halts o d = search (parts, parse_operand-Halts, emit_only-Halts) depth 20
