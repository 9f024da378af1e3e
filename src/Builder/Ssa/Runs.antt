-- ===== src/Builder/Ssa/Runs.antt =====
-- src/ir/ir_builder.c: histories of calls.
use mini_asm.Base.{
  ℕ, zero, suc, Option, ◌||◌, ◌&&◌, ◌≡◌, ◌↔◌, refl, sym, ap, ◌∙◌, List, [], ◌∷◌, none, some,
  some_inj, true, false, Bool-cases, Option-cases, ◌⊎◌, inl, inr,
}
use mathlib.Core.Path.{subst}
use mini_asm.Ir.{Module}
use mini_asm.Ir.FpTable.{FpTable}
use mini_asm.Builder.State.{
  IrValue, IrBuilder, Build, ◌>>=◌, ret, current, ir_builder_new, ir_builder_func, ir_builder_block,
  ir_set_insert,
}
use mini_asm.Builder.Alias.{ir_value_placeholder, ir_builder_finalize}
use mini_asm.Builder.Arith.{TypeStore}
use mini_asm.Builder.Memory.{has_field, ir_gep_field}
use mini_asm.Builder.Call.{
  Call, drop_value, perform, perform_all, emits, is_null, is_none, reads_null, call_add, call_sub,
  call_mul, call_sdiv, call_udiv, call_srem, call_urem, call_and, call_or, call_xor, call_shl,
  call_lshr, call_ashr, call_fadd, call_fsub, call_fmul, call_fdiv, call_neg, call_not, call_fneg,
  call_icmp, call_fcmp, call_alloca, call_alloca_type, call_load, call_store, call_memcpy, call_gep,
  call_gep_field, call_str, call_str_cstr, call_zext, call_sext, call_trunc, call_sitofp,
  call_uitofp, call_fptosi, call_fptoui, call_fpext, call_fptrunc, call_va_start, call_va_arg,
  call_va_end, call_br, call_cbr, call_phi, call_phi_n, call_ret, call_unreachable, call_call,
  call_call_n, call_func, call_params, call_block, call_set_insert, call_placeholder, call_define,
  call_finalize,
}
use mini_asm.Builder.Ssa.{IsSsa}
use mini_asm.Builder.Ssa.Steps.{HasBlock}
use mini_asm.Builder.Ssa.Calls.{perform-Emits}
use mini_asm.Builder.Ssa.Nulls.{perform-Crashes}
use mini_asm.Builder.Ssa.Quiet.{
  Quiet, func-Quiet, params-Quiet, block-Quiet, placeholder-Quiet, define-Quiet, finalize-IsSsa,
}

bind-Quiet : {A : Type 0} (m : Build A) → Quiet m → Quiet (m >>= λ x. ret tt)
bind-Quiet m q b = let (a, b', e, s) = q b in (tt, b', rw (◌>>=◌, e), s)

no_field-Quiet :
    (ts : TypeStore) (st : ℕ) (x : Option IrValue) (fld : ℕ)
    → has_field ts st fld ≡ false
    → (is_null st || (is_none x && has_field ts st fld)) ≡ false
    → Quiet (drop_value (ir_gep_field ts st x fld))
unfolding ir_gep_field
no_field-Quiet ts zero x fld e n b = cc
no_field-Quiet ts (suc st) x fld e n b = (tt, b, rw (e, ◌>>=◌), (λ s. s))

-- A call that appends nothing and reads nothing through NULL succeeds.
perform-Quiet :
    (ts : TypeStore) (c : Call)
    → emits ts c ≡ false
    → reads_null ts c ≡ false
    → Quiet (perform ts c)
unfolding perform ir_set_insert
perform-Quiet ts (call_func n r) e k = bind-Quiet (ir_builder_func n r) (func-Quiet n r)
perform-Quiet ts (call_params f us n) e k = params-Quiet f us n
perform-Quiet ts (call_block f n) e k = bind-Quiet (ir_builder_block f n) (block-Quiet f n)
perform-Quiet ts (call_set_insert p) e k = λ b. (tt, _, refl, (λ s. s))
perform-Quiet ts (call_placeholder t) e k =
    bind-Quiet (ir_value_placeholder t) (placeholder-Quiet t)
perform-Quiet ts (call_define p a) e k = define-Quiet p a
perform-Quiet ts call_finalize e k = λ b. (tt, ir_builder_finalize b, refl, finalize-IsSsa b)
perform-Quiet ts (call_gep_field st x fld) e k = no_field-Quiet ts st x fld e k
perform-Quiet ts (call_add _ _ _) e k = cc
perform-Quiet ts (call_sub _ _ _) e k = cc
perform-Quiet ts (call_mul _ _ _) e k = cc
perform-Quiet ts (call_sdiv _ _ _) e k = cc
perform-Quiet ts (call_udiv _ _ _) e k = cc
perform-Quiet ts (call_srem _ _ _) e k = cc
perform-Quiet ts (call_urem _ _ _) e k = cc
perform-Quiet ts (call_and _ _ _) e k = cc
perform-Quiet ts (call_or _ _ _) e k = cc
perform-Quiet ts (call_xor _ _ _) e k = cc
perform-Quiet ts (call_shl _ _ _) e k = cc
perform-Quiet ts (call_lshr _ _ _) e k = cc
perform-Quiet ts (call_ashr _ _ _) e k = cc
perform-Quiet ts (call_fadd _ _ _) e k = cc
perform-Quiet ts (call_fsub _ _ _) e k = cc
perform-Quiet ts (call_fmul _ _ _) e k = cc
perform-Quiet ts (call_fdiv _ _ _) e k = cc
perform-Quiet ts (call_neg _ _) e k = cc
perform-Quiet ts (call_not _ _) e k = cc
perform-Quiet ts (call_fneg _ _) e k = cc
perform-Quiet ts (call_icmp _ _ _) e k = cc
perform-Quiet ts (call_fcmp _ _ _ _) e k = cc
perform-Quiet ts (call_alloca _ _) e k = cc
perform-Quiet ts (call_alloca_type _) e k = cc
perform-Quiet ts (call_load _ _) e k = cc
perform-Quiet ts (call_store _ _ _) e k = cc
perform-Quiet ts (call_memcpy _ _ _) e k = cc
perform-Quiet ts (call_gep _ _ _) e k = cc
perform-Quiet ts (call_str _) e k = cc
perform-Quiet ts (call_str_cstr _) e k = cc
perform-Quiet ts (call_zext _ _ _) e k = cc
perform-Quiet ts (call_sext _ _ _) e k = cc
perform-Quiet ts (call_trunc _ _ _) e k = cc
perform-Quiet ts (call_sitofp _ _ _) e k = cc
perform-Quiet ts (call_uitofp _ _ _) e k = cc
perform-Quiet ts (call_fptosi _ _ _) e k = cc
perform-Quiet ts (call_fptoui _ _ _) e k = cc
perform-Quiet ts (call_fpext _ _ _) e k = cc
perform-Quiet ts (call_fptrunc _ _ _) e k = cc
perform-Quiet ts call_va_start e k = cc
perform-Quiet ts (call_va_arg _ _) e k = cc
perform-Quiet ts (call_va_end _) e k = cc
perform-Quiet ts (call_br _) e k = cc
perform-Quiet ts (call_cbr _ _ _) e k = cc
perform-Quiet ts (call_phi _ _ _ _ _) e k = cc
perform-Quiet ts (call_phi_n _ _) e k = cc
perform-Quiet ts (call_ret _) e k = cc
perform-Quiet ts call_unreachable e k = cc
perform-Quiet ts (call_call _ _ _) e k = cc
perform-Quiet ts (call_call_n _ _ _) e k = cc

block_cases : (b : IrBuilder) → (current b ≡ none) ⊎ HasBlock b
block_cases b = elim (Option-cases (current b)) [ inl n ↦ inl n | inr (x, e) ↦ inr (x.0, x.1, e) ]

-- A call with functions, texts and arrays that are not NULL crashes exactly if it reads through NULL,
-- or appends an instruction while there is no current block. It reads through NULL if the element type
-- of a gep, the type of ir_alloca_type, the source type of a conversion, the struct of a gep_field or a
-- block that a branch names is NULL, or if the base of a gep_field is NULL and the struct has the
-- field. The calls of the life cycle and of placeholders, and the address of a field that the struct
-- does not have, append none.
pub perform-crashes :
    (ts : TypeStore) (c : Call) (b : IrBuilder)
    → (perform ts c b ≡ none)
      ↔ ((reads_null ts c ≡ true) ⊎ ((emits ts c ≡ true) × (current b ≡ none)))
perform-crashes ts c b = elim (Bool-cases (reads_null ts c)) [
  | inl r ↦ ((λ h. inl r), (λ h. perform-Crashes ts c r b))
  | inr r ↦ elim (Bool-cases (emits ts c)) [
    | inl e ↦ elim (block_cases b) [
      | inl n ↦ ((λ h. inr (e, n)), (λ h. (perform-Emits ts c e r).1 b n))
      | inr k ↦
          let (u, b', d, s, h') = (perform-Emits ts c e r).0 b k in
          (
            (λ h. absurd (cc (sym d ∙ h))),
            (λ h. elim h [ inl q ↦ absurd (cc (q, r)) | inr q ↦ absurd (cc (q.1, k.2)) ]),
          )
    ]
    | inr e ↦
        let (u, b', d, s) = perform-Quiet ts c e r b in
        (
          (λ h. absurd (cc (sym d ∙ h))),
          (λ h. elim h [ inl q ↦ absurd (cc (q, r)) | inr q ↦ absurd (cc (q.0, e)) ]),
        )
  ]
]

next-IsSsa :
    (ts : TypeStore) (c : Call) (b b' : IrBuilder) (u : Unit {0})
    → perform ts c b ≡ some (u, b')
    → IsSsa b
    → IsSsa b'
next-IsSsa ts c b b' u e s = elim (Bool-cases (reads_null ts c)) [
  | inl n ↦ absurd (cc (perform-Crashes ts c n b))
  | inr n ↦ elim (Bool-cases (emits ts c)) [
    | inl t ↦ elim (block_cases b) [
      | inl k ↦ absurd (cc ((perform-Emits ts c t n).1 b k))
      | inr k ↦ let (v, d, q, r, h) = (perform-Emits ts c t n).0 b k in same q (r s)
    ]
    | inr f ↦ let (v, d, q, r) = perform-Quiet ts c f n b in same q (r s)
  ]
]
  where
    same : {v : Unit {0}} {d : IrBuilder} → perform ts c b ≡ some (v, d) → IsSsa d → IsSsa b'
    same q r = subst IsSsa (ap (λ x. x.1) (some_inj.0 (sym q ∙ e))) r

all-IsSsa :
    (ts : TypeStore) (cs : List Call) (b b' : IrBuilder)
    → perform_all ts cs b ≡ some b'
    → IsSsa b
    → IsSsa b'
unfolding perform_all
all-IsSsa ts [] b b' e s = subst IsSsa (some_inj.0 e) s
all-IsSsa ts (c ∷ cs) b b' e s = elim (Option-cases (perform ts c b)) [
  | inl n ↦ absurd (cc (rw (perform_all, n) at e))
  | inr ((u, d), q) ↦ all-IsSsa ts cs d b' (rw (perform_all, q) at e) (next-IsSsa ts c b d u q s)
]

-- After any calls of a new builder that do not crash, with any arguments, a register that was handed
-- out since the function was begun is the result of at most one instruction of the current function,
-- and no other number is the result of one.
pub perform_all-IsSsa :
    (ts : TypeStore) (cs : List Call) (m : Module) (t : FpTable) (b : IrBuilder)
    → perform_all ts cs (ir_builder_new m t) ≡ some b
    → IsSsa b
unfolding ir_builder_new
perform_all-IsSsa ts cs m t b e = all-IsSsa ts cs (ir_builder_new m t) b e (λ f n v. cc)
