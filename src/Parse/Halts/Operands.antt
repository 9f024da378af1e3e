-- ===== src/Parse/Halts/Operands.antt =====
-- src/ir/ir_parse.c: the declarations of types, the operands and the arguments of a call halt.
use Prim.Native.String.{String}
use mini_asm.Base.{
  ℕ, zero, suc, ◌<◌, ◌≡◌, List, [], Bool, true, false, Option, none, some, ◌==◌, leb, arith,
  if◌then◌else◌,
}
use mini_asm.Base.Int.{ℤ}
use mini_asm.Ir.{Opcode, Operand}
use mini_asm.Parse.State.{Parse, ◌>>=◌, ◌>>◌, ret, word, fgetc}
use mini_asm.Parse.Types.{
  read_fields, struct_fields, bracket_count, fuel_here, close_bracket, parse_count, parse_struct,
  parse_array, type_body, parse_type,
}
use mini_asm.Parse.Operand.{
  no_args, fpimm, read_operand, past_comma, put_slot, parse_operand, emit_op,
}
use mini_asm.Parse.Instrs.{emit_only, one_arg, arg_step, read_args, args_of}
use mini_asm.Parse.Halts.{
  left, Ends, Halts, Within, IsAtWord, WithinAt, Shrinks, EatsAt, ret-Halts, bind-Halts,
  bind-Within, bind-EatsAt, Halts-Within, Halts-WithinAt, eat_then,
}
use mini_asm.Parse.Halts.Words.{
  word-Halts, filled-Halts, peekc-Halts, fgetc-Halts, fgetc-EatsAt, word-EatsAt, word_then,
  peek_then,
}
use mini_asm.Parse.Halts.Loops.{
  if-Halts, emit-Halts, edit-Halts, new_type-Halts, type_at-Halts, type_define-Halts,
  lookup_ty-Halts, named_reg-Halts, lookup_word-Halts, shapes_of-Halts, fuel_then, fgetc_then,
  ret_Within, three_ways, read_fields-Within,
}

pub ruleset parts = (
  bind-Halts, ret-Halts, if-Halts, word-Halts, filled-Halts, peekc-Halts, fgetc-Halts, emit-Halts,
  edit-Halts, new_type-Halts, type_at-Halts, type_define-Halts, lookup_ty-Halts, lookup_word-Halts,
  named_reg-Halts,
)

struct_fields-Halts : Halts struct_fields
unfolding struct_fields
struct_fields-Halts = fuel_then (λ n. read_fields n []) (λ k n h. read_fields-Within k n [] h)

-- A choice by a Boolean test between two parts that halt.
pub elim-Halts :
    {A : Type 0} (c : Bool) (m k : Parse A)
    → Halts m
    → Halts k
    → Halts (elim c [ true ↦ m | false ↦ k ])
elim-Halts true m k g h = g
elim-Halts false m k g h = h

close_bracket-Halts : (q : Option ℕ) → Halts (close_bracket q)
unfolding close_bracket
close_bracket-Halts none = ret-Halts tt
close_bracket-Halts (some c) = search parts

bracket_count-Halts : Halts bracket_count
unfolding bracket_count
bracket_count-Halts = search (parts, close_bracket-Halts) depth 16

parse_count-Halts : (q : Option ℕ) → Halts (parse_count q)
unfolding parse_count
parse_count-Halts none = ret-Halts {A = ℕ} 0
parse_count-Halts (some c) =
    elim-Halts (c == b'[') (fgetc >> bracket_count) (ret 0) (search (parts, bracket_count-Halts))
      (ret-Halts {A = ℕ} 0)

parse_array-Halts : (n : Option String) → Halts (parse_array n)
unfolding parse_array
parse_array-Halts n = search (parts, parse_count-Halts) depth 12

parse_struct-Halts : (n : Option String) → Halts (parse_struct n)
unfolding parse_struct
parse_struct-Halts n = search (parts, struct_fields-Halts, shapes_of-Halts) depth 16

type_body-Halts : (n : Option String) (q : Option ℕ) → Halts (type_body n q)
unfolding type_body
type_body-Halts n none = parse_array-Halts n
type_body-Halts n (some c) = search (parts, parse_array-Halts, parse_struct-Halts)

pub parse_type-Halts : Halts parse_type
unfolding parse_type
parse_type-Halts = search (parts, type_body-Halts) depth 12

fpimm-Halts : (d : ℕ) → Halts (fpimm d)
unfolding fpimm
fpimm-Halts d p = omega arith

past_comma-Halts : (w : Option String) → Halts (past_comma w)
past_comma-Halts none = ret-Halts {A = Option String} none
past_comma-Halts (some b) = search parts

pub emit_op-Halts :
    (o : Opcode) (t : ℕ) (tmp : Option (List Operand)) (d : ℤ) (n : ℕ) → Halts (emit_op o t tmp d n)
unfolding emit_op
emit_op-Halts o t tmp d n = search parts depth 12

pub emit_only-Halts :
    (o : Opcode) (t : ℕ) (tmp : Option (List Operand)) (d : ℤ) (n : ℕ)
    → Halts (emit_only o t tmp d n)
unfolding emit_only
emit_only-Halts o t tmp d n = search (parts, emit_op-Halts) depth 12

module _ (strtod : String → ℕ) where
  read_operand-Halts : (b : String) → Halts (read_operand strtod b)
  unfolding read_operand
  read_operand-Halts b = search (parts, fpimm-Halts) depth 12

  put_slot-Halts :
      (slot : ℕ) (tmp : List Operand) (w : Option String) → Halts (put_slot strtod slot tmp w)
  unfolding put_slot
  put_slot-Halts slot tmp none = ret-Halts tmp
  put_slot-Halts slot tmp (some b) = search (parts, read_operand-Halts)

  pub parse_operand-Halts : (slot : ℕ) (tmp : List Operand) → Halts (parse_operand strtod slot tmp)
  unfolding parse_operand
  parse_operand-Halts slot tmp = search (parts, past_comma-Halts, put_slot-Halts) depth 12

  parse_operand-EatsAt : (slot : ℕ) (tmp : List Operand) → EatsAt (parse_operand strtod slot tmp)
  unfolding parse_operand
  parse_operand-EatsAt slot tmp =
      bind-EatsAt (word 64 >>= past_comma) (put_slot strtod slot tmp)
        (bind-EatsAt (word 64) past_comma (word-EatsAt 64) past_comma-Halts)
        (put_slot-Halts slot tmp)

  one_arg-EatsAt : (n : ℕ) (tmp : List Operand) → EatsAt (one_arg strtod n tmp)
  unfolding one_arg
  one_arg-EatsAt n tmp = if_many (leb 16 n)
    where
      if_many :
          (c : Bool)
          → EatsAt (if c then (word 64 >>= λ junk. ret tmp) else parse_operand strtod n tmp)
      if_many true =
          bind-EatsAt (word 64) (λ junk. ret tmp) (word-EatsAt 64) (λ junk. ret-Halts tmp)
      if_many false = parse_operand-EatsAt n tmp

  arg_step-WithinAt :
      (n : ℕ) (again : ℕ → List Operand → Parse (ℕ × List Operand)) (k : ℕ) (tmp : List Operand)
      (c : ℕ)
      → ((i : ℕ) (t : List Operand) (j : ℕ) → n ≡ suc j → Within j (again i t))
      → WithinAt n (arg_step strtod again k tmp (some c))
  unfolding arg_step
  arg_step-WithinAt n again k tmp c h =
      three_ways n (c == b')') (c == b',') (fgetc >> ret (k, tmp)) (fgetc >> again k tmp)
        (one_arg strtod k tmp >>= λ t. again (suc k) t)
        (fgetc_then {B = ℕ × List Operand} n (ret (k, tmp))
          (λ j e. ret_Within {A = ℕ × List Operand} j (k, tmp)))
        (fgetc_then n (again k tmp) (h k tmp))
        (eat_then n (one_arg strtod k tmp) (λ t. again (suc k) t) (one_arg-EatsAt k tmp)
          (h (suc k)))

  read_args-Within : (f n k : ℕ) (tmp : List Operand) → n < f → Within n (read_args strtod f k tmp)
  unfolding read_args arg_step
  read_args-Within zero n k tmp h = absurd (omega arith)
  read_args-Within (suc f) n k tmp h =
      peek_then n (arg_step strtod (λ i t. read_args strtod f i t) k tmp)
        (ret_Within {A = ℕ × List Operand} n (k, tmp))
        (λ c.
          arg_step-WithinAt n (λ i t. read_args strtod f i t) k tmp c
            (λ i t j e. read_args-Within f j i t (omega (arith, e, h))))

  pub args_of-Halts : (q : Option ℕ) → Halts (args_of strtod q)
  unfolding args_of
  args_of-Halts none = ret-Halts {A = ℕ × List Operand} (0, no_args)
  args_of-Halts (some c) =
      elim-Halts (c == b'(') (fgetc >> (fuel_here >>= λ k. read_args strtod k 0 no_args))
        (ret (0, no_args))
        (bind-Halts fgetc (λ u. fuel_here >>= λ k. read_args strtod k 0 no_args) fgetc-Halts
          (λ u.
            fuel_then (λ k. read_args strtod k 0 no_args)
              (λ f n l. read_args-Within f n 0 no_args l)))
        (ret-Halts {A = ℕ × List Operand} (0, no_args))
