-- ===== src/Builder/Call.antt =====
-- include/ir_builder.h: the calls of the builder as data, so that a history of calls is a list. The values
-- that a call takes are any, also ones that an earlier call returned, and so are types, values and blocks that are
-- NULL. The functions, texts and arrays that a call takes are not NULL.
use Prim.Native.String.{String}
use mini_asm.Base.{ℕ, zero, suc, List, [], ◌∷◌, Option, none, some, Bool, true, false, ◌||◌, ◌&&◌}
use mini_asm.Builder.State.{
  IrValue, IrBuilder, Build, ◌>>=◌, ret, ir_builder_func, ir_builder_params, ir_builder_block,
  ir_set_insert,
}
use mini_asm.Builder.Alias.{ir_value_placeholder, ir_value_define, ir_builder_finalize}
use mini_asm.Builder.Arith.{
  TypeStore, ir_add, ir_sub, ir_mul, ir_sdiv, ir_udiv, ir_srem, ir_urem, ir_and, ir_or, ir_xor,
  ir_shl, ir_lshr, ir_ashr, ir_fadd, ir_fsub, ir_fmul, ir_fdiv, ir_neg, ir_not, ir_fneg, ir_icmp,
  ir_fcmp,
}
use mini_asm.Builder.Memory.{
  has_field, ir_alloca, ir_alloca_type, ir_load, ir_store, ir_memcpy, ir_gep, ir_gep_field, ir_str,
  ir_str_cstr, ir_zext, ir_sext, ir_trunc, ir_sitofp, ir_uitofp, ir_fptosi, ir_fptoui, ir_fpext,
  ir_fptrunc, ir_va_start, ir_va_arg, ir_va_end,
}
use mini_asm.Builder.Control.{
  ir_br, ir_cbr, ir_phi, ir_phi_n, ir_ret, ir_unreachable, ir_call, ir_call_n,
}

pub data Call : Type 0 where
  call_func : (n : String) (r : ℕ) → Call
  call_params : (f : ℕ) (ts : List ℕ) (n : ℕ) → Call
  call_block : (f : ℕ) (n : String) → Call
  call_set_insert : (p : ℕ × ℕ) → Call
  call_placeholder : (t : ℕ) → Call
  call_define : (ph actual : Option IrValue) → Call
  call_finalize : Call
  call_add : (t : ℕ) (x y : Option IrValue) → Call
  call_sub : (t : ℕ) (x y : Option IrValue) → Call
  call_mul : (t : ℕ) (x y : Option IrValue) → Call
  call_sdiv : (t : ℕ) (x y : Option IrValue) → Call
  call_udiv : (t : ℕ) (x y : Option IrValue) → Call
  call_srem : (t : ℕ) (x y : Option IrValue) → Call
  call_urem : (t : ℕ) (x y : Option IrValue) → Call
  call_and : (t : ℕ) (x y : Option IrValue) → Call
  call_or : (t : ℕ) (x y : Option IrValue) → Call
  call_xor : (t : ℕ) (x y : Option IrValue) → Call
  call_shl : (t : ℕ) (x y : Option IrValue) → Call
  call_lshr : (t : ℕ) (x y : Option IrValue) → Call
  call_ashr : (t : ℕ) (x y : Option IrValue) → Call
  call_fadd : (t : ℕ) (x y : Option IrValue) → Call
  call_fsub : (t : ℕ) (x y : Option IrValue) → Call
  call_fmul : (t : ℕ) (x y : Option IrValue) → Call
  call_fdiv : (t : ℕ) (x y : Option IrValue) → Call
  call_neg : (t : ℕ) (x : Option IrValue) → Call
  call_not : (t : ℕ) (x : Option IrValue) → Call
  call_fneg : (t : ℕ) (x : Option IrValue) → Call
  call_icmp : (p : ℕ) (x y : Option IrValue) → Call
  call_fcmp : (t p : ℕ) (x y : Option IrValue) → Call
  call_alloca : (t bytes : ℕ) → Call
  call_alloca_type : (t : ℕ) → Call
  call_load : (t : ℕ) (ptr : Option IrValue) → Call
  call_store : (t : ℕ) (val ptr : Option IrValue) → Call
  call_memcpy : (dst src : Option IrValue) (size : ℕ) → Call
  call_gep : (t : ℕ) (base idx : Option IrValue) → Call
  call_gep_field : (st : ℕ) (base : Option IrValue) (fld : ℕ) → Call
  call_str : (bytes : List ℕ) → Call
  call_str_cstr : (bytes : List ℕ) → Call
  call_zext : (from to : ℕ) (x : Option IrValue) → Call
  call_sext : (from to : ℕ) (x : Option IrValue) → Call
  call_trunc : (from to : ℕ) (x : Option IrValue) → Call
  call_sitofp : (from to : ℕ) (x : Option IrValue) → Call
  call_uitofp : (from to : ℕ) (x : Option IrValue) → Call
  call_fptosi : (from to : ℕ) (x : Option IrValue) → Call
  call_fptoui : (from to : ℕ) (x : Option IrValue) → Call
  call_fpext : (from to : ℕ) (x : Option IrValue) → Call
  call_fptrunc : (from to : ℕ) (x : Option IrValue) → Call
  call_va_start : Call
  call_va_arg : (t : ℕ) (ap : Option IrValue) → Call
  call_va_end : (ap : Option IrValue) → Call
  call_br : (dest : Option String) → Call
  call_cbr : (c : Option IrValue) (t f : Option String) → Call
  call_phi :
      (t : ℕ) (v0 : Option IrValue) (b0 : Option String) (v1 : Option IrValue) (b1 : Option String)
      → Call
  call_phi_n : (t : ℕ) (ps : List (Option IrValue × Option String)) → Call
  call_ret : (v : Option IrValue) → Call
  call_unreachable : Call
  call_call : (t : ℕ) (callee : String) (xs : List (Option IrValue)) → Call
  call_call_n : (t : ℕ) (callee : String) (xs : List (Option IrValue)) → Call

-- The value that a call returns goes into the arguments of later calls.
abbrev pub drop_value : {A : Type 0} → Build A → Build (Unit {0})
drop_value m = m >>= λ v. ret tt

unfoldable pub perform : TypeStore → Call → Build (Unit {0})
unfolding ir_builder_func ir_builder_params ir_builder_block ir_set_insert ir_value_placeholder
    ir_value_define ir_builder_finalize ir_add ir_sub ir_mul ir_sdiv ir_udiv ir_srem ir_urem ir_and
    ir_or ir_xor ir_shl ir_lshr ir_ashr ir_fadd ir_fsub ir_fmul ir_fdiv ir_neg ir_not ir_fneg
    ir_icmp ir_fcmp ir_alloca ir_alloca_type ir_load ir_store ir_memcpy ir_gep ir_gep_field ir_str
    ir_str_cstr ir_zext ir_sext ir_trunc ir_sitofp ir_uitofp ir_fptosi ir_fptoui ir_fpext ir_fptrunc
    ir_va_start ir_va_arg ir_va_end ir_br ir_cbr ir_phi ir_phi_n ir_ret ir_unreachable ir_call
    ir_call_n
perform ts (call_func n r) = ir_builder_func n r >>= λ f. ret tt
perform ts (call_params f us n) = ir_builder_params f us n
perform ts (call_block f n) = ir_builder_block f n >>= λ p. ret tt
perform ts (call_set_insert p) = ir_set_insert p
perform ts (call_placeholder t) = drop_value (ir_value_placeholder t)
perform ts (call_define ph actual) = ir_value_define ph actual
perform ts call_finalize = λ b. some (tt, ir_builder_finalize b)
perform ts (call_add t x y) = drop_value (ir_add t x y)
perform ts (call_sub t x y) = drop_value (ir_sub t x y)
perform ts (call_mul t x y) = drop_value (ir_mul t x y)
perform ts (call_sdiv t x y) = drop_value (ir_sdiv t x y)
perform ts (call_udiv t x y) = drop_value (ir_udiv t x y)
perform ts (call_srem t x y) = drop_value (ir_srem t x y)
perform ts (call_urem t x y) = drop_value (ir_urem t x y)
perform ts (call_and t x y) = drop_value (ir_and t x y)
perform ts (call_or t x y) = drop_value (ir_or t x y)
perform ts (call_xor t x y) = drop_value (ir_xor t x y)
perform ts (call_shl t x y) = drop_value (ir_shl t x y)
perform ts (call_lshr t x y) = drop_value (ir_lshr t x y)
perform ts (call_ashr t x y) = drop_value (ir_ashr t x y)
perform ts (call_fadd t x y) = drop_value (ir_fadd t x y)
perform ts (call_fsub t x y) = drop_value (ir_fsub t x y)
perform ts (call_fmul t x y) = drop_value (ir_fmul t x y)
perform ts (call_fdiv t x y) = drop_value (ir_fdiv t x y)
perform ts (call_neg t x) = drop_value (ir_neg t x)
perform ts (call_not t x) = drop_value (ir_not t x)
perform ts (call_fneg t x) = drop_value (ir_fneg t x)
perform ts (call_icmp p x y) = drop_value (ir_icmp ts p x y)
perform ts (call_fcmp t p x y) = drop_value (ir_fcmp t p x y)
perform ts (call_alloca t bytes) = drop_value (ir_alloca t bytes)
perform ts (call_alloca_type t) = drop_value (ir_alloca_type ts t)
perform ts (call_load t ptr) = drop_value (ir_load ts t ptr)
perform ts (call_store t val ptr) = ir_store ts t val ptr
perform ts (call_memcpy dst src size) = ir_memcpy dst src size
perform ts (call_gep t base idx) = drop_value (ir_gep ts t base idx)
perform ts (call_gep_field st base fld) = drop_value (ir_gep_field ts st base fld)
perform ts (call_str bytes) = drop_value (ir_str ts bytes)
perform ts (call_str_cstr bytes) = drop_value (ir_str_cstr ts bytes)
perform ts (call_zext from to x) = drop_value (ir_zext ts from to x)
perform ts (call_sext from to x) = drop_value (ir_sext ts from to x)
perform ts (call_trunc from to x) = drop_value (ir_trunc ts from to x)
perform ts (call_sitofp from to x) = drop_value (ir_sitofp ts from to x)
perform ts (call_uitofp from to x) = drop_value (ir_uitofp ts from to x)
perform ts (call_fptosi from to x) = drop_value (ir_fptosi ts from to x)
perform ts (call_fptoui from to x) = drop_value (ir_fptoui ts from to x)
perform ts (call_fpext from to x) = drop_value (ir_fpext ts from to x)
perform ts (call_fptrunc from to x) = drop_value (ir_fptrunc ts from to x)
perform ts call_va_start = drop_value (ir_va_start ts)
perform ts (call_va_arg t ap) = drop_value (ir_va_arg t ap)
perform ts (call_va_end ap) = ir_va_end ts ap
perform ts (call_br dest) = ir_br dest
perform ts (call_cbr c t f) = ir_cbr c t f
perform ts (call_phi t v0 b0 v1 b1) = drop_value (ir_phi t v0 b0 v1 b1)
perform ts (call_phi_n t ps) = drop_value (ir_phi_n t ps)
perform ts (call_ret v) = ir_ret ts v
perform ts call_unreachable = ir_unreachable
perform ts (call_call t callee xs) = drop_value (ir_call t callee xs)
perform ts (call_call_n t callee xs) = drop_value (ir_call_n t callee xs)

-- Whether a call appends an instruction: all but those of the life cycle and of placeholders, and the
-- address of a field that the struct does not have.
abbrev pub emits : TypeStore → Call → Bool
emits ts (call_func _ _) = false
emits ts (call_params _ _ _) = false
emits ts (call_block _ _) = false
emits ts (call_set_insert _) = false
emits ts (call_placeholder _) = false
emits ts (call_define _ _) = false
emits ts call_finalize = false
emits ts (call_gep_field st _ fld) = has_field ts st fld
emits ts _ = true

-- Whether a call reads a type, a value or a block that is NULL.
abbrev pub is_null : ℕ → Bool
is_null zero = true
is_null (suc t) = false

abbrev pub is_none : {A : Type 0} → Option A → Bool
is_none none = true
is_none (some a) = false

abbrev pub reads_null : TypeStore → Call → Bool
reads_null ts (call_alloca_type t) = is_null t
reads_null ts (call_gep t _ _) = is_null t
reads_null ts (call_gep_field st base fld) = is_null st || (is_none base && has_field ts st fld)
reads_null ts (call_zext from _ _) = is_null from
reads_null ts (call_sext from _ _) = is_null from
reads_null ts (call_trunc from _ _) = is_null from
reads_null ts (call_sitofp from _ _) = is_null from
reads_null ts (call_uitofp from _ _) = is_null from
reads_null ts (call_fptosi from _ _) = is_null from
reads_null ts (call_fptoui from _ _) = is_null from
reads_null ts (call_fpext from _ _) = is_null from
reads_null ts (call_fptrunc from _ _) = is_null from
reads_null ts (call_br dest) = is_none dest
reads_null ts (call_cbr _ t f) = is_none t || is_none f
reads_null ts _ = false

unfoldable pub perform_all : TypeStore → List Call → IrBuilder → Option IrBuilder
unfolding perform
perform_all ts [] b = some b
perform_all ts (c ∷ cs) b = elim (perform ts c b) [
  | none ↦ none
  | some (u, b') ↦ perform_all ts cs b'
]
