-- ===== src/Builder/Ssa/Calls.antt =====
-- src/ir/ir_builder.c: every call that emits keeps the definitions single and needs a block.
use Prim.Native.String.{String}
use mini_asm.Ir.Build.{ir_add_string}
use mini_asm.Base.{
  ℕ, zero, suc, List, [], ◌∷◌, Option, none, some, Bool, true, false, ◌≡◌, refl, length, ◌-◌, ◌||◌,
  ◌&&◌, get_or,
}
use mini_asm.Base.Int.{ℤ, pos, negsuc}
use mini_asm.Ir.{
  Opcode, imm, op_load, op_gep_field, op_str, op_add, op_sub, op_mul, op_sdiv, op_udiv, op_srem,
  op_urem, op_and, op_or, op_xor, op_shl, op_lshr, op_ashr, op_fadd, op_fsub, op_fmul, op_fdiv,
  op_neg, op_not, op_fneg, op_zext, op_sext, op_trunc, op_sitofp, op_uitofp, op_fptosi, op_fptoui,
  op_fpext, op_fptrunc,
}
use mini_asm.Builder.State.{
  IrValue, Build, ◌>>=◌, ◌>>◌, ret, read, edit, emit_def, set_arg, put_operand,
}
use mini_asm.Builder.Arith.{
  TypeStore, last_ix, emit1, emit2, put_pred, ir_add, ir_sub, ir_mul, ir_sdiv, ir_udiv, ir_srem,
  ir_urem, ir_and, ir_or, ir_xor, ir_shl, ir_lshr, ir_ashr, ir_fadd, ir_fsub, ir_fmul, ir_fdiv,
  ir_neg, ir_not, ir_fneg, ir_icmp, ir_fcmp,
}
use mini_asm.Builder.Memory.{
  has_field, copied_size, store_scalar, put_elem, elem_size, base_reg, field_address, add_string,
  emit_conv, ir_alloca, ir_alloca_type, ir_load, ir_store, ir_memcpy, ir_gep, ir_gep_field, ir_str,
  ir_str_cstr, ir_zext, ir_sext, ir_trunc, ir_sitofp, ir_uitofp, ir_fptosi, ir_fptoui, ir_fpext,
  ir_fptrunc, ir_va_start, ir_va_arg, ir_va_end,
}
use mini_asm.Builder.Control.{
  put_label, put_labels, put_callee, set_args, ir_br, ir_cbr, ir_phi, ir_phi_n, ir_ret,
  ir_unreachable, ir_call, ir_call_n,
}
use mini_asm.Builder.Call.{
  Call, call_add, call_sub, call_mul, call_sdiv, call_udiv, call_srem, call_urem, call_and, call_or,
  call_xor, call_shl, call_lshr, call_ashr, call_fadd, call_fsub, call_fmul, call_fdiv, call_neg,
  call_not, call_fneg, call_icmp, call_fcmp, call_alloca, call_alloca_type, call_load, call_store,
  call_memcpy, call_gep, call_gep_field, call_str, call_str_cstr, call_zext, call_sext, call_trunc,
  call_sitofp, call_uitofp, call_fptosi, call_fptoui, call_fpext, call_fptrunc, call_va_start,
  call_va_arg, call_va_end, call_br, call_cbr, call_phi, call_phi_n, call_ret, call_unreachable,
  call_call, call_call_n, call_func, call_params, call_block, call_set_insert, call_placeholder,
  call_define, call_finalize, drop_value, perform, emits, is_null, is_none, reads_null,
}
use mini_asm.Builder.Ssa.Steps.{
  Goes, Emits, ret-Goes, bind-Goes, bind-Emits, edit-Goes, emit-Emits, emit_def-Emits, set_arg-Goes,
}

ruleset emission = (bind-Emits, bind-Goes, emit-Emits, emit_def-Emits, set_arg-Goes, ret-Goes)

last_ix-Goes : Goes last_ix
unfolding last_ix
last_ix-Goes b (p, blk, c) = (length blk.instrs - 1, b, rw (last_ix, c), (λ s. s), (p, blk, c))

emit1-Emits : (o : Opcode) (t : ℕ) (a : Option IrValue) → Emits (emit1 o t a)
unfolding emit1
emit1-Emits o t a = search emission

emit2-Emits : (o : Opcode) (t : ℕ) (a c : Option IrValue) → Emits (emit2 o t a c)
unfolding emit2
emit2-Emits o t a c = search emission

put_pred-Goes : (ix n : ℕ) → Goes (edit ix (put_pred n))
put_pred-Goes ix n = edit-Goes ix (put_pred n) (λ e. refl)

icmp-Emits : (ts : TypeStore) (p : ℕ) (x y : Option IrValue) → Emits (ir_icmp ts p x y)
unfolding ir_icmp
icmp-Emits ts p x y = search (emission, emit2-Emits, last_ix-Goes, put_pred-Goes)

fcmp-Emits : (t p : ℕ) (x y : Option IrValue) → Emits (ir_fcmp t p x y)
unfolding ir_fcmp
fcmp-Emits t p x y = search (emission, emit2-Emits, last_ix-Goes, put_pred-Goes)

put_imm-Goes : (ix i : ℕ) (z : ℤ) → Goes (edit ix (put_operand i (imm z)))
put_imm-Goes ix i z = edit-Goes ix (put_operand i (imm z)) (λ e. refl)

alloca-Emits : (t n : ℕ) → Emits (ir_alloca t n)
unfolding ir_alloca
alloca-Emits t n = search (emission, put_imm-Goes)

memcpy-Emits : (dst src : Option IrValue) (n : ℕ) → Emits (ir_memcpy dst src n)
unfolding ir_memcpy
memcpy-Emits dst src n = search (emission, put_imm-Goes)

load-Emits : (ts : TypeStore) (t : ℕ) (ptr : Option IrValue) → Emits (ir_load ts t ptr)
unfolding ir_load
load-Emits ts t ptr = by_size (copied_size ts t)
  where
    by_size :
        (s : Option ℕ)
        → Emits (elim s [
          | some sz ↦ ir_alloca t sz >>= λ tmp. ir_memcpy (some tmp) ptr sz >> ret tmp
          | none ↦ emit1 op_load t ptr
        ])
    by_size none = emit1-Emits op_load t ptr
    by_size (some sz) =
        bind-Emits _ _ (alloca-Emits t sz)
          (λ tmp. bind-Goes _ _ (memcpy-Emits (some tmp) ptr sz).0 (λ _. ret-Goes tmp))

store_scalar-Emits : (t : ℕ) (x ptr : Option IrValue) → Emits (store_scalar t x ptr)
unfolding store_scalar
store_scalar-Emits t x ptr = search emission

store-Emits : (ts : TypeStore) (t : ℕ) (x ptr : Option IrValue) → Emits (ir_store ts t x ptr)
unfolding ir_store
store-Emits ts t x ptr = by_size (copied_size ts t)
  where
    by_size :
        (s : Option ℕ)
        → Emits (elim s [ some sz ↦ ir_memcpy ptr x sz | none ↦ store_scalar t x ptr ])
    by_size none = store_scalar-Emits t x ptr
    by_size (some sz) = memcpy-Emits ptr x sz

pub read-Goes : {A : Type 0} (a : A) → Goes (read (some a))
read-Goes a b h = (a, b, refl, (λ s. s), h)

put_elem-Goes : (ix n t : ℕ) → Goes (edit ix (put_elem n t))
put_elem-Goes ix n t = edit-Goes ix (put_elem n t) (λ e. refl)

gep-Emits :
    (ts : TypeStore) (t : ℕ) (x y : Option IrValue) → is_null t ≡ false → Emits (ir_gep ts t x y)
unfolding ir_gep
gep-Emits ts zero x y n = cc
gep-Emits ts (suc t) x y n = search (emission, emit2-Emits, last_ix-Goes, read-Goes, put_elem-Goes)

alloca_type-Emits : (ts : TypeStore) (t : ℕ) → is_null t ≡ false → Emits (ir_alloca_type ts t)
unfolding ir_alloca_type
alloca_type-Emits ts zero n = cc
alloca_type-Emits ts (suc t) n = alloca-Emits (suc t) (elem_size (ts.shape (suc t)))

field_address-Emits :
    (ts : TypeStore) (st : ℕ) (x : IrValue) (fld : ℕ) → Emits (field_address ts st (some x) fld)
unfolding field_address
field_address-Emits ts st x fld = found
  where
    found : Emits (
        emit_def op_gep_field ts.i32_type (base_reg x) (negsuc 0) (negsuc 0) (negsuc 0) 1 >>= λ p.
        set_arg p.0 0 (some x)
        >> (edit p.0 (put_elem (get_or (ts.offsets st) fld 0) st) >> ret (some p.1)))
    found = search (emission, put_elem-Goes)

gep_field-Emits :
    (ts : TypeStore) (st : ℕ) (x : Option IrValue) (fld : ℕ)
    → has_field ts st fld ≡ true
    → (is_null st || (is_none x && has_field ts st fld)) ≡ false
    → Emits (ir_gep_field ts st x fld)
unfolding ir_gep_field
gep_field-Emits ts zero x fld e n = cc
gep_field-Emits ts (suc st) none fld e n = cc
gep_field-Emits ts (suc st) (some x) fld e n = if_found (has_field ts (suc st) fld) e
  where
    if_found :
        (c : Bool)
        → c ≡ true
        → Emits (elim c [ true ↦ field_address ts (suc st) (some x) fld | false ↦ ret (some x) ])
    if_found true e = field_address-Emits ts (suc st) x fld
    if_found false e = cc

str-Emits : (ts : TypeStore) (bytes : List ℕ) → Emits (ir_str ts bytes)
unfolding ir_str add_string ir_add_string
str-Emits ts bytes = (
  bind-Goes (add_string bytes) _ (λ b h. (_, _, refl, (λ s. s), h)) (λ idx. (rest idx).0),
  (λ b e. (rest (ir_add_string b.m bytes).1).1 (record b { m = (ir_add_string b.m bytes).0 }) e),
)
  where
    rest :
        (idx : ℕ)
        → Emits (
            emit_def op_str ts.i32_type (pos idx) (negsuc 0) (negsuc 0) (negsuc 0) 1 >>= λ p.
            edit p.0 (put_operand 0 (imm (pos idx))) >> ret p.1)
    rest idx = search (emission, put_imm-Goes)

conv-Emits :
    (ts : TypeStore) (o : Opcode) (from to : ℕ) (x : Option IrValue)
    → is_null from ≡ false
    → Emits (emit_conv ts o from to x)
unfolding emit_conv
conv-Emits ts o zero to x n = cc
conv-Emits ts o (suc from) to x n = search (emission, read-Goes, put_pred-Goes)

put_labels-Goes : (ix : ℕ) (n k : String) → Goes (edit ix (put_labels n k))
put_labels-Goes ix n k = edit-Goes ix (put_labels n k) (λ e. refl)

put_label-Goes : (ix : ℕ) (n : String) → Goes (edit ix (put_label n))
put_label-Goes ix n = edit-Goes ix (put_label n) (λ e. refl)

put_callee-Goes : (ix : ℕ) (n : String) → Goes (edit ix (put_callee n))
put_callee-Goes ix n = edit-Goes ix (put_callee n) (λ e. refl)

br-Emits : (d : Option String) → is_none d ≡ false → Emits (ir_br d)
unfolding ir_br
br-Emits none n = cc
br-Emits (some d) n = search (emission, read-Goes, put_label-Goes)

cbr-Emits :
    (x : Option IrValue) (t f : Option String)
    → (is_none t || is_none f) ≡ false
    → Emits (ir_cbr x t f)
unfolding ir_cbr
cbr-Emits x none f n = cc
cbr-Emits x (some t) none n = cc
cbr-Emits x (some t) (some f) n = search (emission, read-Goes, put_labels-Goes)

phi-Emits :
    (t : ℕ) (v0 : Option IrValue) (b0 : Option String) (v1 : Option IrValue) (b1 : Option String)
    → Emits (ir_phi t v0 b0 v1 b1)
unfolding ir_phi
phi-Emits t v0 b0 v1 b1 = search (emission, put_labels-Goes)

phi_n-Emits : (t : ℕ) (ps : List (Option IrValue × Option String)) → Emits (ir_phi_n t ps)
unfolding ir_phi_n
phi_n-Emits t [] = phi-Emits t none none none none
phi_n-Emits t ((v0, b0) ∷ []) = phi-Emits t v0 b0 none none
phi_n-Emits t ((v0, b0) ∷ (v1, b1) ∷ r) = phi-Emits t v0 b0 v1 b1

ret-Emits : (ts : TypeStore) (v : Option IrValue) → Emits (ir_ret ts v)
unfolding ir_ret
ret-Emits ts none = search emission
ret-Emits ts (some v) = search emission

unreachable-Emits : Emits ir_unreachable
unfolding ir_unreachable
unreachable-Emits = search emission

set_args-Goes : (ix i : ℕ) (xs : List (Option IrValue)) → Goes (set_args ix i xs)
unfolding set_args
set_args-Goes ix i [] = ret-Goes tt
set_args-Goes ix i (x ∷ xs) = bind-Goes _ _ (set_arg-Goes ix i x) (λ _. set_args-Goes ix (suc i) xs)

call_n-Emits : (t : ℕ) (f : String) (xs : List (Option IrValue)) → Emits (ir_call_n t f xs)
unfolding ir_call_n
call_n-Emits t f xs = search (emission, put_callee-Goes, set_args-Goes)

va_start-Emits : (ts : TypeStore) → Emits (ir_va_start ts)
unfolding ir_va_start
va_start-Emits ts = search emission

va_arg-Emits : (t : ℕ) (x : Option IrValue) → Emits (ir_va_arg t x)
unfolding ir_va_arg
va_arg-Emits t x = search emission

va_end-Emits : (ts : TypeStore) (x : Option IrValue) → Emits (ir_va_end ts x)
unfolding ir_va_end
va_end-Emits ts x = search emission

drop_value-Emits : {A : Type 0} (m : Build A) → Emits m → Emits (drop_value m)
drop_value-Emits m h = bind-Emits m _ h (λ v. ret-Goes tt)

-- Every call that emits and reads nothing through NULL.
pub perform-Emits :
    (ts : TypeStore) (c : Call) → emits ts c ≡ true → reads_null ts c ≡ false → Emits (perform ts c)
unfolding perform ir_add ir_sub ir_mul ir_sdiv ir_udiv ir_srem ir_urem ir_and ir_or ir_xor ir_shl
    ir_lshr ir_ashr ir_fadd ir_fsub ir_fmul ir_fdiv ir_neg ir_not ir_fneg ir_zext ir_sext ir_trunc
    ir_sitofp ir_uitofp ir_fptosi ir_fptoui ir_fpext ir_fptrunc ir_str_cstr ir_call
perform-Emits ts (call_add t x y) e n = drop_value-Emits _ (emit2-Emits op_add t x y)
perform-Emits ts (call_sub t x y) e n = drop_value-Emits _ (emit2-Emits op_sub t x y)
perform-Emits ts (call_mul t x y) e n = drop_value-Emits _ (emit2-Emits op_mul t x y)
perform-Emits ts (call_sdiv t x y) e n = drop_value-Emits _ (emit2-Emits op_sdiv t x y)
perform-Emits ts (call_udiv t x y) e n = drop_value-Emits _ (emit2-Emits op_udiv t x y)
perform-Emits ts (call_srem t x y) e n = drop_value-Emits _ (emit2-Emits op_srem t x y)
perform-Emits ts (call_urem t x y) e n = drop_value-Emits _ (emit2-Emits op_urem t x y)
perform-Emits ts (call_and t x y) e n = drop_value-Emits _ (emit2-Emits op_and t x y)
perform-Emits ts (call_or t x y) e n = drop_value-Emits _ (emit2-Emits op_or t x y)
perform-Emits ts (call_xor t x y) e n = drop_value-Emits _ (emit2-Emits op_xor t x y)
perform-Emits ts (call_shl t x y) e n = drop_value-Emits _ (emit2-Emits op_shl t x y)
perform-Emits ts (call_lshr t x y) e n = drop_value-Emits _ (emit2-Emits op_lshr t x y)
perform-Emits ts (call_ashr t x y) e n = drop_value-Emits _ (emit2-Emits op_ashr t x y)
perform-Emits ts (call_fadd t x y) e n = drop_value-Emits _ (emit2-Emits op_fadd t x y)
perform-Emits ts (call_fsub t x y) e n = drop_value-Emits _ (emit2-Emits op_fsub t x y)
perform-Emits ts (call_fmul t x y) e n = drop_value-Emits _ (emit2-Emits op_fmul t x y)
perform-Emits ts (call_fdiv t x y) e n = drop_value-Emits _ (emit2-Emits op_fdiv t x y)
perform-Emits ts (call_neg t x) e n = drop_value-Emits _ (emit1-Emits op_neg t x)
perform-Emits ts (call_not t x) e n = drop_value-Emits _ (emit1-Emits op_not t x)
perform-Emits ts (call_fneg t x) e n = drop_value-Emits _ (emit1-Emits op_fneg t x)
perform-Emits ts (call_zext f t x) e n = drop_value-Emits _ (conv-Emits ts op_zext f t x n)
perform-Emits ts (call_sext f t x) e n = drop_value-Emits _ (conv-Emits ts op_sext f t x n)
perform-Emits ts (call_trunc f t x) e n = drop_value-Emits _ (conv-Emits ts op_trunc f t x n)
perform-Emits ts (call_sitofp f t x) e n = drop_value-Emits _ (conv-Emits ts op_sitofp f t x n)
perform-Emits ts (call_uitofp f t x) e n = drop_value-Emits _ (conv-Emits ts op_uitofp f t x n)
perform-Emits ts (call_fptosi f t x) e n = drop_value-Emits _ (conv-Emits ts op_fptosi f t x n)
perform-Emits ts (call_fptoui f t x) e n = drop_value-Emits _ (conv-Emits ts op_fptoui f t x n)
perform-Emits ts (call_fpext f t x) e n = drop_value-Emits _ (conv-Emits ts op_fpext f t x n)
perform-Emits ts (call_fptrunc f t x) e n = drop_value-Emits _ (conv-Emits ts op_fptrunc f t x n)
perform-Emits ts (call_icmp p x y) e n = drop_value-Emits _ (icmp-Emits ts p x y)
perform-Emits ts (call_fcmp t p x y) e n = drop_value-Emits _ (fcmp-Emits t p x y)
perform-Emits ts (call_alloca t k) e n = drop_value-Emits _ (alloca-Emits t k)
perform-Emits ts (call_alloca_type t) e n = drop_value-Emits _ (alloca_type-Emits ts t n)
perform-Emits ts (call_load t x) e n = drop_value-Emits _ (load-Emits ts t x)
perform-Emits ts (call_store t x y) e n = store-Emits ts t x y
perform-Emits ts (call_memcpy x y k) e n = memcpy-Emits x y k
perform-Emits ts (call_gep t x y) e n = drop_value-Emits _ (gep-Emits ts t x y n)
perform-Emits ts (call_gep_field st x fld) e n =
    drop_value-Emits _ (gep_field-Emits ts st x fld e n)
perform-Emits ts (call_str s) e n = drop_value-Emits _ (str-Emits ts s)
perform-Emits ts (call_str_cstr s) e n = drop_value-Emits _ (str-Emits ts _)
perform-Emits ts call_va_start e n = drop_value-Emits _ (va_start-Emits ts)
perform-Emits ts (call_va_arg t x) e n = drop_value-Emits _ (va_arg-Emits t x)
perform-Emits ts (call_va_end x) e n = va_end-Emits ts x
perform-Emits ts (call_br d) e n = br-Emits d n
perform-Emits ts (call_cbr x t f) e n = cbr-Emits x t f n
perform-Emits ts (call_phi t v0 b0 v1 b1) e n = drop_value-Emits _ (phi-Emits t v0 b0 v1 b1)
perform-Emits ts (call_phi_n t ps) e n = drop_value-Emits _ (phi_n-Emits t ps)
perform-Emits ts (call_ret v) e n = ret-Emits ts v
perform-Emits ts call_unreachable e n = unreachable-Emits
perform-Emits ts (call_call t f xs) e n = drop_value-Emits _ (call_n-Emits t f xs)
perform-Emits ts (call_call_n t f xs) e n = drop_value-Emits _ (call_n-Emits t f xs)
perform-Emits ts (call_func _ _) e n = cc
perform-Emits ts (call_params _ _ _) e n = cc
perform-Emits ts (call_block _ _) e n = cc
perform-Emits ts (call_set_insert _) e n = cc
perform-Emits ts (call_placeholder _) e n = cc
perform-Emits ts (call_define _ _) e n = cc
perform-Emits ts call_finalize e n = cc
