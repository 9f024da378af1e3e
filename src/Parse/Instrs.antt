-- ===== src/Parse/Instrs.antt =====
-- src/ir/ir_parse.c: the branches of `parse` for the instructions, after the result and the opcode. A buffer is used
-- where the code uses it, so a file that ends early faults there.
use Prim.Native.String.{String}
use text.Mathlib.Text.{◌==◌ as str_eq}
use mini_asm.Base.{
  ℕ, zero, suc, List, [], ◌∷◌, Option, none, some, Bool, true, false, set, ltb, leb, ◌==◌,
  if◌then◌else◌,
}
use mini_asm.Base.Int.{ℤ, pos, negsuc, to_int}
use mini_asm.Base.Text.{is_digit}
use mini_asm.Base.Numerals.{strtoll}
use mini_asm.Ir.{
  Opcode, Operand, vreg, imm, Instr, arg_at, op_fcmp, op_ret, op_call, op_br, op_cbr, op_phi,
  op_alloca, op_load, op_store, op_memcpy, op_eq,
}
use mini_asm.Builder.Layout.{IrType, ty_i8, ty_i16, ty_i32, ty_i64, ty_ptr, ty_array, ty_struct}
use mini_asm.Parse.State.{
  Parse, out_of_fuel, fault, ◌>>=◌, ◌>>◌, ret, TypeCell, void_addr, peekc, word, filled, fgetc,
  emit, edit,
}
use mini_asm.Parse.Names.{lookup_pred}
use mini_asm.Parse.Types.{type_at, is_aggregate_ty, agg_size, lookup_ty, lookup_word, fuel_here}
use mini_asm.Parse.Operand.{no_args, parse_operand, emit_op}

abbrev minus_one : ℤ
minus_one = negsuc 0

abbrev pub put_dst : ℤ → Instr → Instr
put_dst d e = record e { dst = d }

-- `emit_op` as a statement.
unfoldable pub emit_only : Opcode → ℕ → Option (List Operand) → ℤ → ℕ → Parse (Unit {0})
unfolding emit_op
emit_only o t tmp d n = emit_op o t tmp d n >>= λ ix. ret tt

-- `args[i]` and `kinds[i]` are copied.
abbrev copy_all : List Operand → List Operand → List Operand
copy_all [] cs = []
copy_all (o ∷ os) [] = o ∷ os
copy_all (o ∷ os) (c ∷ cs) = c ∷ copy_all os cs

abbrev call_instr : List Operand → String → ℤ → Instr → Instr
call_instr tmp callee d e = record e { args = copy_all e.args tmp; callee = some callee; dst = d }

abbrev pub put_pred : ℕ → Instr → Instr
put_pred n e = record e { pred = n }

abbrev put_label : String → Instr → Instr
put_label l e = record e { label = some l }

abbrev put_label2 : String → Instr → Instr
put_label2 l e = record e { label2 = some l }

unfoldable pub parse_br : Parse (Unit {0})
unfolding word emit_op edit
parse_br = do
  l ← word 64
  ix ← emit_op op_br void_addr none minus_one 0
  name ← filled l
  edit ix (put_label name)

unfoldable pub put_labels : ℕ → Option String → Option String → Parse (Unit {0})
unfolding edit
put_labels ix l1 l2 = do
  n1 ← filled l1
  edit ix (put_label n1)
  n2 ← filled l2
  edit ix (put_label2 n2)

-- The bytes of a type without a count.
unfoldable pub alloca_bytes : IrType → ℤ
alloca_bytes ty_i8 = pos 1
alloca_bytes ty_i16 = pos 2
alloca_bytes ty_i32 = pos 4
alloca_bytes ty_i64 = pos 8
alloca_bytes ty_ptr = pos 8
alloca_bytes (ty_struct size align) = to_int (pos size)
alloca_bytes (ty_array size) = to_int (pos size)
alloca_bytes _ = pos 4

abbrev starts_count : Option ℕ → Bool
starts_count none = false
starts_count (some c) = is_digit c

unfoldable pub alloca_size : ℕ → Option ℕ → Parse ℤ
unfolding word strtoll type_at alloca_bytes
alloca_size t q =
    if starts_count q
    then (word 32 >>= filled >>= λ nb. ret (to_int (strtoll nb)))
    else (type_at t >>= λ c. ret (alloca_bytes (c.shape)))

unfoldable pub parse_alloca : ℤ → Parse (Unit {0})
unfolding word lookup_ty peekc alloca_size emit_op
parse_alloca d = do
  t ← lookup_word 32
  q ← peekc
  n ← alloca_size t q
  emit_only op_alloca t (some (set no_args 0 (imm n))) d 1

-- The three operands of a copy.
abbrev put_copy : Operand → Operand → ℤ → Instr → Instr
put_copy dst src n e = record e { args = dst ∷ src ∷ imm n ∷ [] }

unfoldable pub copy_aggregate : Operand → Operand → ℕ → Parse (Unit {0})
unfolding emit edit
copy_aggregate dst src sz = do
  ix ← emit op_memcpy 0 (pos 0) (pos 0) (to_int (pos sz)) (pos 0) 3
  edit ix (put_copy dst src (to_int (pos sz)))

unfoldable pub load_from : ℕ → ℤ → List Operand → TypeCell → Parse (Unit {0})
unfolding emit_op copy_aggregate
load_from t d tmp c =
    if is_aggregate_ty c.shape
    then (emit_only op_alloca t (some (set no_args 0 (imm (to_int (pos (agg_size c.shape)))))) d 1
        >> copy_aggregate (vreg d) (arg_at tmp 0) (agg_size c.shape))
    else emit_only op_load t (some tmp) d 1

unfoldable pub store_to : ℕ → List Operand → TypeCell → Parse (Unit {0})
unfolding emit_op copy_aggregate
store_to t tmp c =
    if is_aggregate_ty c.shape
    then copy_aggregate (arg_at tmp 1) (arg_at tmp 0) (agg_size c.shape)
    else emit_only op_store t (some tmp) minus_one 2

module _ (strtod : String → ℕ) where
  unfoldable pub ret_value : String → Parse (Unit {0})
  unfolding lookup_ty parse_operand emit_op
  ret_value w = do
    t ← lookup_ty w
    tmp ← parse_operand strtod 0 no_args
    emit_only op_ret t (some tmp) minus_one 1

  unfoldable pub ret_of : Option String → Parse (Unit {0})
  unfolding emit_op ret_value
  ret_of none = emit_only op_ret void_addr none minus_one 0
  ret_of (some w) =
      if str_eq w "void" then emit_only op_ret void_addr none minus_one 0 else ret_value w

  unfoldable pub parse_ret : Parse (Unit {0})
  unfolding word ret_of
  parse_ret = word 32 >>= ret_of

  -- The argument, or the word that is passed over once 16 were read.
  unfoldable pub one_arg : ℕ → List Operand → Parse (List Operand)
  unfolding word parse_operand
  one_arg n tmp = if leb 16 n then (word 64 >>= λ junk. ret tmp) else parse_operand strtod n tmp

  -- A round of the loop over the arguments, at the byte peeked.
  unfoldable pub arg_step :
      (ℕ → List Operand → Parse (ℕ × List Operand))
      → ℕ
      → List Operand
      → Option ℕ
      → Parse (ℕ × List Operand)
  unfolding fgetc one_arg
  arg_step again n tmp none = ret (n, tmp)
  arg_step again n tmp (some c) = elim (c == b')') [
    | true ↦ fgetc >> ret (n, tmp)
    | false ↦ elim (c == b',') [
      | true ↦ fgetc >> again n tmp
      | false ↦ one_arg n tmp >>= λ t. again (suc n) t
    ]
  ]

  -- The loop over the arguments; the fuel is more than the bytes left.
  unfoldable pub read_args : ℕ → ℕ → List Operand → Parse (ℕ × List Operand)
  unfolding peekc arg_step
  read_args zero n tmp = fault out_of_fuel
  read_args (suc fuel) n tmp = peekc >>= arg_step (λ k t. read_args fuel k t) n tmp

  unfoldable pub args_of : Option ℕ → Parse (ℕ × List Operand)
  unfolding fgetc fuel_here read_args
  args_of none = ret (0, no_args)
  args_of (some c) = elim (c == b'(') [
    | true ↦ fgetc >> (fuel_here >>= λ k. read_args k 0 no_args)
    | false ↦ ret (0, no_args)
  ]

  unfoldable pub parse_call : ℤ → Parse (Unit {0})
  unfolding word lookup_ty peekc args_of emit edit
  parse_call d = do
    tw ← word 32
    cal ← word 64
    t ← filled tw >>= lookup_ty
    q ← peekc
    r ← args_of q
    ix ← emit op_call t (pos 0) (pos 0) (pos 0) (pos 0) (if ltb 16 r.0 then 16 else r.0)
    name ← filled cal
    edit ix (call_instr r.1 name d)

  unfoldable pub parse_cmp : Opcode → ℤ → Parse (Unit {0})
  unfolding word lookup_ty lookup_pred parse_operand emit_op edit
  parse_cmp o d = do
    tw ← word 32
    pr ← word 16
    t ← filled tw >>= lookup_ty
    name ← filled pr
    tmp ← parse_operand strtod 0 no_args
    tmp2 ← parse_operand strtod 1 tmp
    ix ← emit_op o t (some tmp2) d 2
    edit ix (put_pred (lookup_pred name (op_eq o op_fcmp)))

  unfoldable pub parse_cbr : Parse (Unit {0})
  unfolding word parse_operand emit_op put_labels
  parse_cbr = do
    tmp ← parse_operand strtod 0 no_args
    l1 ← word 64
    l2 ← word 64
    ix ← emit_op op_cbr void_addr (some tmp) minus_one 1
    put_labels ix l1 l2

  unfoldable pub parse_phi : ℤ → Parse (Unit {0})
  unfolding word lookup_ty parse_operand emit_op put_labels
  parse_phi d = do
    t ← lookup_word 32
    tmp ← parse_operand strtod 0 no_args
    l1 ← word 64
    tmp2 ← parse_operand strtod 1 tmp
    l2 ← word 64
    ix ← emit_op op_phi t (some tmp2) d 2
    put_labels ix l1 l2

  unfoldable pub parse_load : ℤ → Parse (Unit {0})
  unfolding word lookup_ty parse_operand type_at load_from
  parse_load d = do
    t ← lookup_word 32
    tmp ← parse_operand strtod 0 no_args
    c ← type_at t
    load_from t d tmp c

  unfoldable pub parse_store : Parse (Unit {0})
  unfolding word lookup_ty parse_operand type_at store_to
  parse_store = do
    t ← lookup_word 32
    tmp ← parse_operand strtod 0 no_args
    tmp2 ← parse_operand strtod 1 tmp
    c ← type_at t
    store_to t tmp2 c
