-- ===== src/Parse/Names.antt =====
-- src/ir/ir_parse.c: the tables of opcodes and predicates, named types and named registers.
use Prim.Native.String.{String}
use text.Mathlib.Text.{◌==◌ as str_eq}
use mini_asm.Base.{
  ℕ, suc, ◌+◌, List, [], ◌∷◌, ◌++◌, Option, none, some, Bool, length, leb, ◌&&◌, if◌then◌else◌,
}
use mini_asm.Base.Int.{ℤ, pos, negsuc, ◌+ℤ◌}
use mini_asm.Base.Text.{text_take, text_drop, byte_at, is_digit}
use mini_asm.Base.Numerals.{atoi}
use mini_asm.Ir.{
  Opcode, op_add, op_sub, op_mul, op_sdiv, op_udiv, op_srem, op_urem, op_and, op_or, op_xor, op_shl,
  op_lshr, op_ashr, op_fadd, op_fsub, op_fmul, op_fdiv, op_frem, op_neg, op_not, op_icmp, op_fcmp,
  op_ret, op_br, op_cbr, op_call, op_load, op_store, op_alloca, op_phi, op_select, op_zext, op_sext,
  op_trunc, op_gep, op_str, op_sitofp, op_uitofp, op_fptosi, op_fptoui, op_fpext, op_fptrunc,
  op_va_start, op_va_arg, op_va_end,
}
use mini_asm.Parse.State.{Parser, Parse, ok, ◌>>=◌, ret}

-- The table `T` of `lookup`.
abbrev pub mnemonics : List (String × Opcode)
mnemonics =
    ("add", op_add)
    ∷ ("sub", op_sub)
    ∷ ("mul", op_mul)
    ∷ ("sdiv", op_sdiv)
    ∷ ("udiv", op_udiv)
    ∷ ("srem", op_srem)
    ∷ ("urem", op_urem)
    ∷ ("and", op_and)
    ∷ ("or", op_or)
    ∷ ("xor", op_xor)
    ∷ ("shl", op_shl)
    ∷ ("lshr", op_lshr)
    ∷ ("ashr", op_ashr)
    ∷ ("fadd", op_fadd)
    ∷ ("fsub", op_fsub)
    ∷ ("fmul", op_fmul)
    ∷ ("fdiv", op_fdiv)
    ∷ ("frem", op_frem)
    ∷ ("neg", op_neg)
    ∷ ("not", op_not)
    ∷ ("icmp", op_icmp)
    ∷ ("fcmp", op_fcmp)
    ∷ ("ret", op_ret)
    ∷ ("br", op_br)
    ∷ ("cbr", op_cbr)
    ∷ ("call", op_call)
    ∷ ("load", op_load)
    ∷ ("store", op_store)
    ∷ ("alloca", op_alloca)
    ∷ ("phi", op_phi)
    ∷ ("select", op_select)
    ∷ ("zext", op_zext)
    ∷ ("sext", op_sext)
    ∷ ("trunc", op_trunc)
    ∷ ("gep", op_gep)
    ∷ ("str", op_str)
    ∷ ("sitofp", op_sitofp)
    ∷ ("uitofp", op_uitofp)
    ∷ ("fptosi", op_fptosi)
    ∷ ("fptoui", op_fptoui)
    ∷ ("fpext", op_fpext)
    ∷ ("fptrunc", op_fptrunc)
    ∷ ("va_start", op_va_start)
    ∷ ("va_arg", op_va_arg)
    ∷ ("va_end", op_va_end)
    ∷ []

-- The value at the first equal name: the loops of `lookup`, `type_lookup` and `sym_lookup`.
unfoldable pub find_name : {A : Type 0} → String → List (String × A) → Option A
find_name n [] = none
find_name n ((k, a) ∷ r) = let rest = find_name n r in if str_eq k n then some a else rest

-- `none` is -1.
unfoldable pub lookup : String → Option Opcode
unfolding find_name
lookup n = find_name n mnemonics

abbrev pub icmp_names : List (String × ℕ)
icmp_names =
    ("eq", 0)
    ∷ ("ne", 1)
    ∷ ("slt", 2)
    ∷ ("sle", 3)
    ∷ ("sgt", 4)
    ∷ ("sge", 5)
    ∷ ("ult", 6)
    ∷ ("ule", 7)
    ∷ ("ugt", 8)
    ∷ ("uge", 9)
    ∷ []

abbrev pub fcmp_names : List (String × ℕ)
fcmp_names =
    ("oeq", 0)
    ∷ ("one", 1)
    ∷ ("olt", 2)
    ∷ ("ole", 3)
    ∷ ("ogt", 4)
    ∷ ("oge", 5)
    ∷ ("ord", 6)
    ∷ ("uno", 7)
    ∷ []

abbrev or_zero : Option ℕ → ℕ
or_zero none = 0
or_zero (some n) = n

unfoldable pub lookup_pred : String → Bool → ℕ
unfolding find_name
lookup_pred n is_fcmp = or_zero (find_name n (if is_fcmp then fcmp_names else icmp_names))

unfoldable pub type_lookup : String → Parse (Option ℕ)
unfolding find_name
type_lookup n p = ok (find_name n p.g_types, p)

unfoldable pub type_define : String → ℕ → Parse (Unit {0})
type_define n t p = ok (
  tt,
  if leb 128 (length p.g_types)
      then p
      else record p { g_types = p.g_types ++ (text_take 63 n, t) ∷ [] },
)

-- A new entry of `symtab`, if there is room.
unfoldable pub sym_add : String → Parse ℕ
sym_add n p =
    if leb 1024 (length p.symtab)
    then ok (0, p)
    else ok (
      p.next_user_vreg,
      record p {
        symtab = p.symtab ++ (text_take 63 n, p.next_user_vreg) ∷ [];
        next_user_vreg = p.next_user_vreg + 1;
      },
    )

-- `none` is -1.
unfoldable pub sym_lookup : String → Parser → Option ℕ
unfolding find_name
sym_lookup n p = find_name n p.symtab

unfoldable pub sym_intern : String → Parse ℕ
unfolding sym_lookup sym_add
sym_intern n p = elim (sym_lookup n p) [ some v ↦ ok (v, p) | none ↦ sym_add n p ]

-- `if(v>=next_user_vreg) next_user_vreg=v+1`.
abbrev pub past_vreg : ℤ → ℕ → ℕ
past_vreg (pos v) next = if leb next v then suc v else next
past_vreg (negsuc v) next = next

unfoldable pub numbered_reg : ℤ → Parse ℤ
numbered_reg v p = ok (v, record p { next_user_vreg = past_vreg v p.next_user_vreg })

abbrev pub is_arg_name : String → Bool
is_arg_name b = str_eq (text_take 3 (text_drop 1 b)) "arg" && is_digit (byte_at b 4)

-- The register that a word starting with '%' names.
unfoldable pub named_reg : String → Parse ℤ
unfolding sym_intern numbered_reg atoi
named_reg b =
    if is_arg_name b
    then ret (pos 1000 +ℤ atoi (text_drop 4 b))
    else if is_digit (byte_at b 1)
    then numbered_reg (atoi (text_drop 1 b))
    else (sym_intern (text_drop 1 b) >>= λ v. ret (pos v))
