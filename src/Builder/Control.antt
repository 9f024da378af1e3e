-- ===== src/Builder/Control.antt =====
-- src/ir/ir_builder.c: branches, phis, returns and calls.
use Prim.Native.String.{String}
use mini_asm.Base.{ℕ, zero, suc, List, [], ◌∷◌, Option, none, some, length}
use mini_asm.Base.Int.{ℤ, pos, negsuc}
use mini_asm.Ir.{Instr, op_call, op_phi, op_br, op_cbr, op_ret, op_unreachable}
use mini_asm.Builder.State.{
  IrValue, value_type, Build, ◌>>=◌, ◌>>◌, ret, read, emit, edit, emit_def, set_arg,
}
use mini_asm.Builder.Arith.{TypeStore}

abbrev minus_one : ℤ
minus_one = negsuc 0

abbrev pub put_label : String → Instr → Instr
put_label n e = record e { label = some n }

abbrev pub put_labels : String → String → Instr → Instr
put_labels n k e = record e { label = some n; label2 = some k }

unfoldable pub ir_br : Option String → Build (Unit {0})
unfolding emit edit
ir_br dest = do
  ix ← emit op_br 0 minus_one minus_one minus_one minus_one 0
  name ← read dest
  edit ix (put_label name)

unfoldable pub ir_cbr : Option IrValue → Option String → Option String → Build (Unit {0})
unfolding emit set_arg edit
ir_cbr c t f = do
  ix ← emit op_cbr 0 minus_one minus_one minus_one minus_one 1
  set_arg ix 0 c
  t_name ← read t
  f_name ← read f
  edit ix (put_labels t_name f_name)

-- `b0 ? b0->name : "entry"`.
abbrev pub label_of : Option String → String
label_of none = "entry"
label_of (some n) = n

unfoldable pub ir_phi :
    ℕ → Option IrValue → Option String → Option IrValue → Option String → Build IrValue
unfolding emit_def set_arg edit
ir_phi t v0 b0 v1 b1 = do
  p ← emit_def op_phi t (pos 0) (pos 0) (pos 0) (pos 0) 2
  set_arg p.0 0 v0
  set_arg p.0 1 v1
  edit p.0 (put_labels (label_of b0) (label_of b1))
  ret p.1

-- The arrays `vals` and `blocks` are one list of pairs, of length `n`.
unfoldable pub ir_phi_n : ℕ → List (Option IrValue × Option String) → Build IrValue
unfolding ir_phi
ir_phi_n t [] = ir_phi t none none none none
ir_phi_n t ((v0, b0) ∷ []) = ir_phi t v0 b0 none none
ir_phi_n t ((v0, b0) ∷ (v1, b1) ∷ r) = ir_phi t v0 b0 v1 b1

unfoldable pub ir_ret : TypeStore → Option IrValue → Build (Unit {0})
unfolding emit set_arg
ir_ret ts none = do ix ← emit op_ret ts.void_type minus_one minus_one minus_one minus_one 0; ret tt
ir_ret ts (some v) = do
  ix ← emit op_ret (value_type v) (pos 0) (pos 0) (pos 0) (pos 0) 1
  set_arg ix 0 (some v)

unfoldable pub ir_unreachable : Build (Unit {0})
unfolding emit
ir_unreachable = do ix ← emit op_unreachable 0 minus_one minus_one minus_one minus_one 0; ret tt

abbrev pub put_callee : String → Instr → Instr
put_callee f e = record e { callee = some f }

-- `for(int i=0;i<nargs;i++) set_arg(e, i, args[i])`.
unfoldable pub set_args : ℕ → ℕ → List (Option IrValue) → Build (Unit {0})
unfolding set_arg
set_args ix i [] = ret tt
set_args ix i (a ∷ as') = set_arg ix i a >> set_args ix (suc i) as'

-- `if(nargs > 16) nargs = 16`.
abbrev pub first_args : ℕ → List (Option IrValue) → List (Option IrValue)
first_args zero xs = []
first_args (suc n) [] = []
first_args (suc n) (x ∷ xs) = x ∷ first_args n xs

unfoldable pub ir_call_n : ℕ → String → List (Option IrValue) → Build IrValue
unfolding emit_def edit set_args
ir_call_n ret_type callee args = do
  p ← emit_def op_call ret_type (pos 0) (pos 0) (pos 0) (pos 0) (length (first_args 16 args))
  edit p.0 (put_callee callee)
  set_args p.0 0 (first_args 16 args)
  ret p.1

unfoldable pub ir_call : ℕ → String → List (Option IrValue) → Build IrValue
unfolding ir_call_n
ir_call ret_type callee args = ir_call_n ret_type callee args
