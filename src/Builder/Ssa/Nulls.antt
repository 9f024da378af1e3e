-- ===== src/Builder/Ssa/Nulls.antt =====
-- src/ir/ir_builder.c: the calls that read a type, a value or a block through NULL.
use Prim.Native.String.{String}
use mini_asm.Base.{
  refl, ℕ, zero, suc, ◌≡◌, Option, none, some, Bool, true, false, ◌||◌, ◌&&◌, Option-cases, inl,
  inr,
}
use mini_asm.Ir.{
  Opcode, op_zext, op_sext, op_trunc, op_sitofp, op_uitofp, op_fptosi, op_fptoui, op_fpext,
  op_fptrunc,
}
use mini_asm.Builder.State.{IrValue, IrBuilder, Build, ◌>>=◌, ret, read}
use mini_asm.Builder.Arith.{TypeStore}
use mini_asm.Builder.Memory.{
  has_field, field_address, ir_gep, ir_gep_field, ir_alloca_type, emit_conv, ir_zext, ir_sext,
  ir_trunc, ir_sitofp, ir_uitofp, ir_fptosi, ir_fptoui, ir_fpext, ir_fptrunc,
}
use mini_asm.Builder.Control.{ir_br, ir_cbr}
use mini_asm.Builder.Call.{
  Call, perform, drop_value, is_null, is_none, reads_null, call_func, call_params, call_block,
  call_set_insert, call_placeholder, call_define, call_finalize, call_add, call_sub, call_mul,
  call_sdiv, call_udiv, call_srem, call_urem, call_and, call_or, call_xor, call_shl, call_lshr,
  call_ashr, call_fadd, call_fsub, call_fmul, call_fdiv, call_neg, call_not, call_fneg, call_icmp,
  call_fcmp, call_alloca, call_alloca_type, call_load, call_store, call_memcpy, call_gep,
  call_gep_field, call_str, call_str_cstr, call_zext, call_sext, call_trunc, call_sitofp,
  call_uitofp, call_fptosi, call_fptoui, call_fpext, call_fptrunc, call_va_start, call_va_arg,
  call_va_end, call_br, call_cbr, call_phi, call_phi_n, call_ret, call_unreachable, call_call,
  call_call_n,
}

abbrev pub Crashes : {A : Type 0} → Build A → Type 0
Crashes m = (b : IrBuilder) → m b ≡ none

-- A sequence crashes where its first step does, and where its rest does whatever the first returns.
first-Crashes : {A B : Type 0} (m : Build A) (f : A → Build B) → Crashes m → Crashes (m >>= f)
first-Crashes m f h b = rw (◌>>=◌, h b)

rest-Crashes :
    {A B : Type 0} (m : Build A) (f : A → Build B) → ((a : A) → Crashes (f a)) → Crashes (m >>= f)
rest-Crashes m f h b = elim (Option-cases (m b)) [
  | inl n ↦ rw (◌>>=◌, n)
  | inr ((a, c), e) ↦ rw (◌>>=◌, e) (h a c)
]

null-Crashes : {A : Type 0} → Crashes (read {A = A} none)
null-Crashes b = refl

ruleset crash = (null-Crashes, first-Crashes, rest-Crashes)

gep-Crashes :
    (ts : TypeStore) (t : ℕ) (x y : Option IrValue) → is_null t ≡ true → Crashes (ir_gep ts t x y)
unfolding ir_gep
gep-Crashes ts (suc t) x y n = cc
gep-Crashes ts zero x y n = search crash

alloca_type-Crashes : (ts : TypeStore) (t : ℕ) → is_null t ≡ true → Crashes (ir_alloca_type ts t)
unfolding ir_alloca_type
alloca_type-Crashes ts (suc t) n = cc
alloca_type-Crashes ts zero n = search crash

conv-Crashes :
    (ts : TypeStore) (o : Opcode) (from to : ℕ) (x : Option IrValue)
    → is_null from ≡ true
    → Crashes (emit_conv ts o from to x)
unfolding emit_conv
conv-Crashes ts o (suc from) to x n = cc
conv-Crashes ts o zero to x n = search crash

br-Crashes : (d : Option String) → is_none d ≡ true → Crashes (ir_br d)
unfolding ir_br
br-Crashes (some d) n = cc
br-Crashes none n = search crash

cbr-Crashes :
    (x : Option IrValue) (t f : Option String)
    → (is_none t || is_none f) ≡ true
    → Crashes (ir_cbr x t f)
unfolding ir_cbr
cbr-Crashes x (some t) (some f) n = cc
cbr-Crashes x none f n = search crash
cbr-Crashes x (some t) none n = search crash

gep_field-Crashes :
    (ts : TypeStore) (st : ℕ) (x : Option IrValue) (fld : ℕ)
    → (is_null st || (is_none x && has_field ts st fld)) ≡ true
    → Crashes (ir_gep_field ts st x fld)
unfolding ir_gep_field field_address
gep_field-Crashes ts zero x fld n = search crash
gep_field-Crashes ts (suc st) (some x) fld n = cc
gep_field-Crashes ts (suc st) none fld n = if_found (has_field ts (suc st) fld) n
  where
    if_found :
        (c : Bool)
        → c ≡ true
        → Crashes {A = Option IrValue}
            (elim c [ true ↦ field_address ts (suc st) none fld | false ↦ ret none ])
    if_found true e = search crash
    if_found false e = cc

drop_value-Crashes : {A : Type 0} (m : Build A) → Crashes m → Crashes (drop_value m)
drop_value-Crashes m h = first-Crashes m _ h

-- Every call that reads through NULL crashes, whatever the state.
pub perform-Crashes : (ts : TypeStore) (c : Call) → reads_null ts c ≡ true → Crashes (perform ts c)
unfolding perform ir_zext ir_sext ir_trunc ir_sitofp ir_uitofp ir_fptosi ir_fptoui ir_fpext
    ir_fptrunc
perform-Crashes ts (call_gep t x y) n = drop_value-Crashes _ (gep-Crashes ts t x y n)
perform-Crashes ts (call_gep_field st x fld) n =
    drop_value-Crashes _ (gep_field-Crashes ts st x fld n)
perform-Crashes ts (call_alloca_type t) n = drop_value-Crashes _ (alloca_type-Crashes ts t n)
perform-Crashes ts (call_br d) n = br-Crashes d n
perform-Crashes ts (call_cbr x t f) n = cbr-Crashes x t f n
perform-Crashes ts (call_zext f t x) n = drop_value-Crashes _ (conv-Crashes ts op_zext f t x n)
perform-Crashes ts (call_sext f t x) n = drop_value-Crashes _ (conv-Crashes ts op_sext f t x n)
perform-Crashes ts (call_trunc f t x) n = drop_value-Crashes _ (conv-Crashes ts op_trunc f t x n)
perform-Crashes ts (call_sitofp f t x) n = drop_value-Crashes _ (conv-Crashes ts op_sitofp f t x n)
perform-Crashes ts (call_uitofp f t x) n = drop_value-Crashes _ (conv-Crashes ts op_uitofp f t x n)
perform-Crashes ts (call_fptosi f t x) n = drop_value-Crashes _ (conv-Crashes ts op_fptosi f t x n)
perform-Crashes ts (call_fptoui f t x) n = drop_value-Crashes _ (conv-Crashes ts op_fptoui f t x n)
perform-Crashes ts (call_fpext f t x) n = drop_value-Crashes _ (conv-Crashes ts op_fpext f t x n)
perform-Crashes ts (call_fptrunc f t x) n =
    drop_value-Crashes _ (conv-Crashes ts op_fptrunc f t x n)
perform-Crashes ts (call_func _ _) n = cc
perform-Crashes ts (call_params _ _ _) n = cc
perform-Crashes ts (call_block _ _) n = cc
perform-Crashes ts (call_set_insert _) n = cc
perform-Crashes ts (call_placeholder _) n = cc
perform-Crashes ts (call_define _ _) n = cc
perform-Crashes ts call_finalize n = cc
perform-Crashes ts (call_add _ _ _) n = cc
perform-Crashes ts (call_sub _ _ _) n = cc
perform-Crashes ts (call_mul _ _ _) n = cc
perform-Crashes ts (call_sdiv _ _ _) n = cc
perform-Crashes ts (call_udiv _ _ _) n = cc
perform-Crashes ts (call_srem _ _ _) n = cc
perform-Crashes ts (call_urem _ _ _) n = cc
perform-Crashes ts (call_and _ _ _) n = cc
perform-Crashes ts (call_or _ _ _) n = cc
perform-Crashes ts (call_xor _ _ _) n = cc
perform-Crashes ts (call_shl _ _ _) n = cc
perform-Crashes ts (call_lshr _ _ _) n = cc
perform-Crashes ts (call_ashr _ _ _) n = cc
perform-Crashes ts (call_fadd _ _ _) n = cc
perform-Crashes ts (call_fsub _ _ _) n = cc
perform-Crashes ts (call_fmul _ _ _) n = cc
perform-Crashes ts (call_fdiv _ _ _) n = cc
perform-Crashes ts (call_neg _ _) n = cc
perform-Crashes ts (call_not _ _) n = cc
perform-Crashes ts (call_fneg _ _) n = cc
perform-Crashes ts (call_icmp _ _ _) n = cc
perform-Crashes ts (call_fcmp _ _ _ _) n = cc
perform-Crashes ts (call_alloca _ _) n = cc
perform-Crashes ts (call_load _ _) n = cc
perform-Crashes ts (call_store _ _ _) n = cc
perform-Crashes ts (call_memcpy _ _ _) n = cc
perform-Crashes ts (call_str _) n = cc
perform-Crashes ts (call_str_cstr _) n = cc
perform-Crashes ts call_va_start n = cc
perform-Crashes ts (call_va_arg _ _) n = cc
perform-Crashes ts (call_va_end _) n = cc
perform-Crashes ts (call_phi _ _ _ _ _) n = cc
perform-Crashes ts (call_phi_n _ _) n = cc
perform-Crashes ts (call_ret _) n = cc
perform-Crashes ts call_unreachable n = cc
perform-Crashes ts (call_call _ _ _) n = cc
perform-Crashes ts (call_call_n _ _ _) n = cc
