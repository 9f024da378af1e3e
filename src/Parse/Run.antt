-- ===== src/Parse/Run.antt =====
-- src/ir/ir_parse.c, `parse`: functions, blocks, the choice of a branch, and the loop over the words of the file.
use Prim.Native.String.{String}
use text.Mathlib.Text.{◌==◌ as str_eq}
use mini_asm.Base.{
  ℕ, zero, suc, ◌+◌, [], Option, none, some, Bool, true, false, length, get_elem?, update_at, ◌==◌,
  ◌||◌, if◌then◌else◌,
}
use mini_asm.Base.Int.{ℤ, negsuc}
use mini_asm.Base.Text.{text_length, byte_at}
use mini_asm.Ir.{
  Opcode, Func, op_ret, op_call, op_icmp, op_fcmp, op_br, op_cbr, op_unreachable, op_phi, op_alloca,
  op_load, op_store, op_str, op_va_start, op_va_arg, op_va_end, op_sitofp, op_uitofp, op_fptosi,
  op_fptoui, op_fpext, op_fptrunc, op_gep, op_neg, op_not, op_fneg, op_zext, op_sext, op_trunc,
}
use mini_asm.Ir.Build.{ir_func_new, ir_block_new}
use mini_asm.Ir.FpTable.{FpTable}
use mini_asm.Parse.State.{
  Parser, Parse, Result, ok, err, no_func, out_of_fuel, fault, ◌>>=◌, ◌>>◌, ret, void_addr,
  parser_new, peekc, word, filled, fgetc,
}
use mini_asm.Parse.Names.{lookup, named_reg}
use mini_asm.Parse.Types.{lookup_ty, fuel_here, parse_type}
use mini_asm.Parse.Instrs.{
  emit_only, parse_ret, parse_call, parse_cmp, parse_br, parse_cbr, parse_phi, parse_alloca,
  parse_load, parse_store,
}
use mini_asm.Parse.Others.{
  parse_str, parse_va_start, parse_va_arg, parse_va_end, parse_conv, parse_gep, parse_unary,
  parse_ext, parse_binary,
}
use mini_asm.Parse.Operand.{emit_op}

-- `F=ir_func_new(…)`, and the registers start again.
unfoldable pub new_func : String → ℕ → Parse (Unit {0})
unfolding ir_func_new
new_func n r p = ok (
  tt,
  record p {
    m = ir_func_new p.m n r;
    cur_func = some (length p.m.funcs);
    symtab = [];
    next_user_vreg = 0;
  },
)

-- A write to `F`.
unfoldable pub edit_func : (Func → Func) → Parse (Unit {0})
edit_func g p = elim p.cur_func [
  | none ↦ err no_func
  | some f ↦ ok (tt, record p { m = record p.m { funcs = update_at p.m.funcs f g } })
]

abbrev put_vararg : Func → Func
put_vararg f = record f { vararg = true }

abbrev one_param : Func → Func
one_param f = record f { nparams = f.nparams + 1 }

abbrev pub param_edit : String → Func → Func
param_edit w = if str_eq w "..." then put_vararg else one_param

-- A round of the loop over the parameters, at the byte peeked.
unfoldable pub param_step : Parse (Unit {0}) → Option ℕ → Parse (Unit {0})
unfolding fgetc word edit_func
param_step again none = ret tt
param_step again (some c) = elim (c == b')') [
  | true ↦ fgetc
  | false ↦ elim (c == b',') [
    | true ↦ fgetc >> again
    | false ↦ word 32 >>= filled >>= λ pt. edit_func (param_edit pt) >> again
  ]
]

-- The loop over the parameters; the fuel is more than the bytes left.
unfoldable pub read_params : ℕ → Parse (Unit {0})
unfolding peekc param_step
read_params zero = fault out_of_fuel
read_params (suc fuel) = peekc >>= param_step (read_params fuel)

unfoldable pub params_of : Option ℕ → Parse (Unit {0})
unfolding fgetc fuel_here read_params
params_of none = ret tt
params_of (some c) = elim (c == b'(') [
  | true ↦ fgetc >> (fuel_here >>= read_params)
  | false ↦ ret tt
]

-- The words up to "{" are passed over.
unfoldable pub brace_step : Parse (Unit {0}) → Option String → Parse (Unit {0})
brace_step again none = ret tt
brace_step again (some t) = elim (str_eq t "{") [ true ↦ ret tt | false ↦ again ]

unfoldable pub skip_to_brace : ℕ → Parse (Unit {0})
unfolding word brace_step
skip_to_brace zero = fault out_of_fuel
skip_to_brace (suc fuel) = word 64 >>= brace_step (skip_to_brace fuel)

unfoldable pub parse_func : Parse (Unit {0})
unfolding word lookup_ty new_func peekc params_of fuel_here skip_to_brace
parse_func = do
  name ← word 64
  r ← word 32
  n ← filled name
  t ← filled r >>= lookup_ty
  new_func n t
  c ← peekc
  params_of c
  k ← fuel_here
  skip_to_brace k

-- `B=ir_block_new(F, …)`.
unfoldable pub new_block : String → Parse (Unit {0})
unfolding ir_block_new
new_block n p = elim p.cur_func [
  | none ↦ err no_func
  | some f ↦ elim (get_elem? (p.m.funcs) f) [
    | none ↦ err no_func
    | some fn ↦ ok (
      tt,
      record p {
        m = record p.m { funcs = update_at p.m.funcs f (λ (g : Func). ir_block_new g n) };
        cur_block = some (f, length (fn.blocks));
      },
    )
  ]
]

unfoldable pub parse_block : Parse (Unit {0})
unfolding word new_block
parse_block = word 64 >>= filled >>= new_block

unfoldable pub close_func : Parse (Unit {0})
close_func p = ok (tt, record p { cur_func = none; cur_block = none })

-- The word after the result, with a "=" between passed over; at the end of the file "=" itself stays.
abbrev pub past_eq : Option String → Parse String
past_eq none = ret "="
past_eq (some w) = ret w

unfoldable pub after_dst : String → Parse String
unfolding word
after_dst w = if str_eq w "=" then (word 128 >>= past_eq) else ret w

-- The result and the word of the opcode.
unfoldable pub read_dst : String → Parse (ℤ × String)
unfolding word named_reg after_dst
read_dst w =
    if byte_at w 0 == b'%'
    then (named_reg w >>= λ d. word 128 >>= filled >>= after_dst >>= λ v. ret (d, v))
    else ret (negsuc 0, w)

abbrev is_passed : String → Bool
is_passed w = str_eq w "(" || str_eq w ")" || str_eq w "," || str_eq w "="

module _ (strtod : String → ℕ) where
  -- The branch of an opcode.
  unfoldable pub parse_op : Opcode → ℤ → Parse (Unit {0})
  unfolding parse_ret parse_call parse_cmp parse_br parse_cbr emit_op parse_phi parse_alloca
      parse_load parse_store parse_str parse_va_start parse_va_arg parse_va_end parse_conv parse_gep
      parse_unary parse_ext parse_binary
  parse_op op_ret d = parse_ret strtod
  parse_op op_call d = parse_call strtod d
  parse_op op_icmp d = parse_cmp strtod op_icmp d
  parse_op op_fcmp d = parse_cmp strtod op_fcmp d
  parse_op op_br d = parse_br
  parse_op op_cbr d = parse_cbr strtod
  parse_op op_unreachable d = emit_only op_unreachable void_addr none (negsuc 0) 0
  parse_op op_phi d = parse_phi strtod d
  parse_op op_alloca d = parse_alloca d
  parse_op op_load d = parse_load strtod d
  parse_op op_store d = parse_store strtod
  parse_op op_str d = parse_str d
  parse_op op_va_start d = parse_va_start d
  parse_op op_va_arg d = parse_va_arg strtod d
  parse_op op_va_end d = parse_va_end strtod
  parse_op op_sitofp d = parse_conv strtod op_sitofp d
  parse_op op_uitofp d = parse_conv strtod op_uitofp d
  parse_op op_fptosi d = parse_conv strtod op_fptosi d
  parse_op op_fptoui d = parse_conv strtod op_fptoui d
  parse_op op_fpext d = parse_conv strtod op_fpext d
  parse_op op_fptrunc d = parse_conv strtod op_fptrunc d
  parse_op op_gep d = parse_gep strtod d
  parse_op op_neg d = parse_unary strtod op_neg d
  parse_op op_not d = parse_unary strtod op_not d
  parse_op op_fneg d = parse_unary strtod op_fneg d
  parse_op op_zext d = parse_ext strtod op_zext d
  parse_op op_sext d = parse_ext strtod op_sext d
  parse_op op_trunc d = parse_ext strtod op_trunc d
  parse_op o d = parse_binary strtod o d

  unfoldable pub op_of : ℤ → Option Opcode → Parse (Unit {0})
  unfolding parse_op
  op_of d none = ret tt
  op_of d (some o) = parse_op o d

  unfoldable pub parse_instr : String → Parse (Unit {0})
  unfolding lookup read_dst op_of
  parse_instr w = read_dst w >>= λ r. op_of r.0 (lookup r.1)

  -- The body of the loop at a word.
  unfoldable pub parse_line : String → Parse (Unit {0})
  unfolding close_func parse_type parse_func parse_block parse_instr
  parse_line w =
      if str_eq w "{"
      then ret tt
      else if str_eq w "}"
      then close_func
      else if is_passed w
      then ret tt
      else if str_eq w "type"
      then parse_type
      else if str_eq w "func"
      then parse_func
      else if str_eq w "block"
      then parse_block
      else parse_instr w

  unfoldable pub line_step : Parse (Unit {0}) → Option String → Parse (Unit {0})
  unfolding parse_line
  line_step again none = ret tt
  line_step again (some w) = parse_line w >> again

  -- The loop; the fuel is more than the bytes left.
  unfoldable pub parse_lines : ℕ → Parse (Unit {0})
  unfolding word line_step
  parse_lines zero = fault out_of_fuel
  parse_lines (suc fuel) = word 128 >>= line_step (parse_lines fuel)

  unfoldable pub parse : FpTable → String → Result (Unit {0} × Parser)
  unfolding parse_lines parser_new
  parse t s = parse_lines (suc (text_length s)) (parser_new t s)
