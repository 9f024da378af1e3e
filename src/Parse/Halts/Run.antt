-- ===== src/Parse/Halts/Run.antt =====
-- src/ir/ir_parse.c, `parse`: the parser comes to an end on every file.
use Prim.Native.String.{String}
use text.Mathlib.Text.{◌==◌ as str_eq}
use mini_asm.Base.{
  ℕ, zero, suc, ◌<◌, ◌≡◌, ◌≢◌, inl, inr, Bool, true, false, Option, none, some, get_elem?, ◌==◌,
  Option-cases, arith,
}
use mini_asm.Base.Int.{ℤ}
use mini_asm.Base.Text.{text_length}
use mini_asm.Ir.{
  Opcode, Func, op_ret, op_call, op_icmp, op_fcmp, op_br, op_cbr, op_unreachable, op_phi, op_alloca,
  op_load, op_store, op_str, op_va_start, op_va_arg, op_va_end, op_sitofp, op_uitofp, op_fptosi,
  op_fptoui, op_fpext, op_fptrunc, op_gep, op_neg, op_not, op_fneg, op_zext, op_sext, op_trunc,
}
use mini_asm.Ir.FpTable.{FpTable}
use mini_asm.Parse.State.{
  Fault, out_of_fuel, Result, ok, err, Parser, Parse, ◌>>=◌, ◌>>◌, ret, parser_new, word, filled,
  fgetc,
}
use mini_asm.Parse.Types.{fuel_here}
use mini_asm.Parse.Run.{
  new_func, edit_func, param_edit, param_step, read_params, params_of, brace_step, skip_to_brace,
  parse_func, new_block, parse_block, close_func, parse_op, past_eq, after_dst, read_dst, op_of,
  parse_instr, parse_line, line_step, parse_lines, parse,
}
use mini_asm.Parse.Halts.{
  Ends, Halts, Within, WithinAt, bind-Within, ret-Halts, bind-Halts, Halts-Within, eat_then,
}
use mini_asm.Parse.Halts.Words.{fgetc-Halts, word_then, peek_then}
use mini_asm.Parse.Halts.Loops.{fuel_then, fgetc_then, ret_Within, three_ways, buffer-EatsAt}
use mini_asm.Parse.Halts.Operands.{parts, elim-Halts, emit_only-Halts, parse_type-Halts}
use mini_asm.Parse.Halts.Instrs.{
  parse_br-Halts, parse_alloca-Halts, parse_str-Halts, parse_va_start-Halts, parse_ret-Halts,
  parse_call-Halts, parse_cmp-Halts, parse_cbr-Halts, parse_phi-Halts, parse_load-Halts,
  parse_store-Halts, parse_va_arg-Halts, parse_va_end-Halts, parse_conv-Halts, parse_gep-Halts,
  parse_unary-Halts, parse_ext-Halts, parse_binary-Halts,
}

new_func-Halts : (n : String) (r : ℕ) → Halts (new_func n r)
unfolding new_func
new_func-Halts n r p = omega arith

edit_func-Halts : (g : Func → Func) → Halts (edit_func g)
unfolding edit_func
edit_func-Halts g p = elim (Option-cases p.cur_func) [
  | inl e ↦ rw (edit_func, e) (λ x. cc)
  | inr (f, e) ↦ rw (edit_func, e) (omega arith)
]

new_block-Halts : (n : String) → Halts (new_block n)
unfolding new_block
new_block-Halts n p = elim (Option-cases p.cur_func) [
  | inl e ↦ rw (new_block, e) (λ x. cc)
  | inr (f, e) ↦ elim (Option-cases (get_elem? p.m.funcs f)) [
    | inl g ↦ rw (new_block, e, g) (λ x. cc)
    | inr (fn, g) ↦ rw (new_block, e, g) (omega arith)
  ]
]

param_step-WithinAt :
    (n : ℕ) (again : Parse (Unit {0})) (c : ℕ)
    → ((j : ℕ) → n ≡ suc j → Within j again)
    → WithinAt n (param_step again (some c))
unfolding param_step
param_step-WithinAt n again c h =
    three_ways n (c == b')') (c == b',') fgetc (fgetc >> again)
      (word 32 >>= filled >>= λ pt. edit_func (param_edit pt) >> again)
      (λ p l w. Halts-Within n fgetc fgetc-Halts p l) (fgetc_then n again h)
      (eat_then n (word 32 >>= filled) (λ pt. edit_func (param_edit pt) >> again) (buffer-EatsAt 32)
        (λ pt j e.
          bind-Within j (edit_func (param_edit pt)) (λ u. again)
            (Halts-Within j (edit_func (param_edit pt)) (edit_func-Halts (param_edit pt)))
            (λ u. h j e)))

read_params-Within : (k n : ℕ) → n < k → Within n (read_params k)
unfolding read_params param_step
read_params-Within zero n h = absurd (omega arith)
read_params-Within (suc k) n h = peek_then n (param_step (read_params k)) (ret_Within n tt) (λ c.
    param_step-WithinAt n (read_params k) c (λ j e. read_params-Within k j (omega (arith, e, h))))

params_of-Halts : (q : Option ℕ) → Halts (params_of q)
unfolding params_of
params_of-Halts none = ret-Halts tt
params_of-Halts (some c) =
    elim-Halts (c == b'(') (fgetc >> (fuel_here >>= read_params)) (ret tt)
      (bind-Halts fgetc (λ u. fuel_here >>= read_params) fgetc-Halts
        (λ u. fuel_then read_params read_params-Within))
      (ret-Halts tt)

brace_step-Within :
    (n : ℕ) (again : Parse (Unit {0})) (t : String)
    → Within n again
    → Within n (brace_step again (some t))
unfolding brace_step
brace_step-Within n again t h = by_brace (str_eq t "{")
  where
    by_brace : (c : Bool) → Within n (elim c [ true ↦ ret tt | false ↦ again ])
    by_brace true = ret_Within n tt
    by_brace false = h

skip_to_brace-Within : (k n : ℕ) → n < k → Within n (skip_to_brace k)
unfolding skip_to_brace brace_step
skip_to_brace-Within zero n h = absurd (omega arith)
skip_to_brace-Within (suc k) n h =
    word_then n 64 (brace_step (skip_to_brace k)) (ret_Within n tt) (λ t j e.
      brace_step-Within j (skip_to_brace k) t (skip_to_brace-Within k j (omega (arith, e, h))))

to_brace-Halts : Halts (fuel_here >>= skip_to_brace)
to_brace-Halts = fuel_then skip_to_brace skip_to_brace-Within

parse_func-Halts : Halts parse_func
unfolding parse_func
parse_func-Halts = search (parts, new_func-Halts, params_of-Halts, to_brace-Halts) depth 20

parse_block-Halts : Halts parse_block
unfolding parse_block
parse_block-Halts = search (parts, new_block-Halts) depth 12

close_func-Halts : Halts close_func
unfolding close_func
close_func-Halts p = omega arith

past_eq-Halts : (w : Option String) → Halts (past_eq w)
past_eq-Halts none = ret-Halts {A = String} "="
past_eq-Halts (some w) = ret-Halts w

after_dst-Halts : (w : String) → Halts (after_dst w)
unfolding after_dst
after_dst-Halts w = search (parts, past_eq-Halts)

read_dst-Halts : (w : String) → Halts (read_dst w)
unfolding read_dst
read_dst-Halts w = search (parts, after_dst-Halts) depth 12

module _ (strtod : String → ℕ) where
  parse_op-Halts : (o : Opcode) (d : ℤ) → Halts (parse_op strtod o d)
  unfolding parse_op
  parse_op-Halts op_ret d = parse_ret-Halts strtod
  parse_op-Halts op_call d = parse_call-Halts strtod d
  parse_op-Halts op_icmp d = parse_cmp-Halts strtod op_icmp d
  parse_op-Halts op_fcmp d = parse_cmp-Halts strtod op_fcmp d
  parse_op-Halts op_br d = parse_br-Halts
  parse_op-Halts op_cbr d = parse_cbr-Halts strtod
  parse_op-Halts op_unreachable d = search emit_only-Halts
  parse_op-Halts op_phi d = parse_phi-Halts strtod d
  parse_op-Halts op_alloca d = parse_alloca-Halts d
  parse_op-Halts op_load d = parse_load-Halts strtod d
  parse_op-Halts op_store d = parse_store-Halts strtod
  parse_op-Halts op_str d = parse_str-Halts d
  parse_op-Halts op_va_start d = parse_va_start-Halts d
  parse_op-Halts op_va_arg d = parse_va_arg-Halts strtod d
  parse_op-Halts op_va_end d = parse_va_end-Halts strtod
  parse_op-Halts op_sitofp d = parse_conv-Halts strtod op_sitofp d
  parse_op-Halts op_uitofp d = parse_conv-Halts strtod op_uitofp d
  parse_op-Halts op_fptosi d = parse_conv-Halts strtod op_fptosi d
  parse_op-Halts op_fptoui d = parse_conv-Halts strtod op_fptoui d
  parse_op-Halts op_fpext d = parse_conv-Halts strtod op_fpext d
  parse_op-Halts op_fptrunc d = parse_conv-Halts strtod op_fptrunc d
  parse_op-Halts op_gep d = parse_gep-Halts strtod d
  parse_op-Halts op_neg d = parse_unary-Halts strtod op_neg d
  parse_op-Halts op_not d = parse_unary-Halts strtod op_not d
  parse_op-Halts op_fneg d = parse_unary-Halts strtod op_fneg d
  parse_op-Halts op_zext d = parse_ext-Halts strtod op_zext d
  parse_op-Halts op_sext d = parse_ext-Halts strtod op_sext d
  parse_op-Halts op_trunc d = parse_ext-Halts strtod op_trunc d
  parse_op-Halts o d = parse_binary-Halts strtod o d

  op_of-Halts : (d : ℤ) (o : Option Opcode) → Halts (op_of strtod d o)
  unfolding op_of
  op_of-Halts d none = ret-Halts tt
  op_of-Halts d (some o) = parse_op-Halts o d

  parse_instr-Halts : (w : String) → Halts (parse_instr strtod w)
  unfolding parse_instr
  parse_instr-Halts w = search (parts, read_dst-Halts, op_of-Halts)

  parse_line-Halts : (w : String) → Halts (parse_line strtod w)
  unfolding parse_line
  parse_line-Halts w =
      search
        (
          parts, close_func-Halts, parse_type-Halts, parse_func-Halts, parse_block-Halts,
          parse_instr-Halts,
        )
        depth 12

  parse_lines-Within : (k n : ℕ) → n < k → Within n (parse_lines strtod k)
  unfolding parse_lines line_step
  parse_lines-Within zero n h = absurd (omega arith)
  parse_lines-Within (suc k) n h =
      word_then n 128 (line_step strtod (parse_lines strtod k)) (ret_Within n tt) (λ w j e.
        bind-Within j (parse_line strtod w) (λ u. parse_lines strtod k)
          (Halts-Within j (parse_line strtod w) (parse_line-Halts w))
          (λ u. parse_lines-Within k j (omega (arith, e, h))))

  -- For every file and every reading of doubles, the parser comes to an end: it returns, or it meets
  -- one of the faults of the source, and none of its loops runs for ever.
  pub parse_total : (t : FpTable) (s : String) → parse strtod t s ≢ err out_of_fuel
  unfolding parse parser_new
  parse_total t s = fueled (parse strtod t s) (
      parse_lines-Within (suc (text_length s)) (text_length s) (omega arith) (parser_new t s)
        (omega arith))
    where
      fueled : (r : Result (Unit {0} × Parser)) → Ends (text_length s) r → r ≢ err out_of_fuel
      fueled (ok x) h e = cc
      fueled (err x) h e = h (reason e)
        where
          reason : {y z : Fault} → Path (Result (Unit {0} × Parser)) (err y) (err z) → y ≡ z
          reason e = cc
