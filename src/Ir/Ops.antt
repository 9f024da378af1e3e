-- ===== src/Ir/Ops.antt =====
-- include/ir.h: the opcodes.
use mini_asm.Base.{ℕ, ◌≡◌, refl, ap, sym, ◌∙◌, Bool, true, List, [], ◌∷◌, get_or, ◌==◌, ==_iff}

-- IROpcode.
pub data Opcode : Type 0 where
  op_add op_sub op_mul op_sdiv op_udiv op_srem op_urem op_and : Opcode
  op_or op_xor op_shl op_lshr op_ashr op_fadd op_fsub op_fmul : Opcode
  op_fdiv op_frem op_fneg op_neg op_not op_icmp op_fcmp op_load : Opcode
  op_store op_memcpy op_gep op_gep_field op_alloca op_call op_phi op_select : Opcode
  op_zext op_sext op_trunc op_bitcast op_ptrtoint op_inttoptr op_str op_sitofp : Opcode
  op_uitofp op_fptosi op_fptoui op_fpext op_fptrunc op_va_start op_va_arg op_va_end : Opcode
  op_br op_cbr op_switch op_ret op_unreachable : Opcode

abbrev opcodes : List Opcode
opcodes =
    op_add ∷ op_sub ∷ op_mul ∷ op_sdiv ∷ op_udiv ∷ op_srem ∷ op_urem ∷ op_and ∷ op_or ∷ op_xor
    ∷ op_shl ∷ op_lshr ∷ op_ashr ∷ op_fadd ∷ op_fsub ∷ op_fmul ∷ op_fdiv ∷ op_frem ∷ op_fneg
    ∷ op_neg ∷ op_not ∷ op_icmp ∷ op_fcmp ∷ op_load ∷ op_store ∷ op_memcpy ∷ op_gep ∷ op_gep_field
    ∷ op_alloca ∷ op_call ∷ op_phi ∷ op_select ∷ op_zext ∷ op_sext ∷ op_trunc ∷ op_bitcast
    ∷ op_ptrtoint ∷ op_inttoptr ∷ op_str ∷ op_sitofp ∷ op_uitofp ∷ op_fptosi ∷ op_fptoui ∷ op_fpext
    ∷ op_fptrunc ∷ op_va_start ∷ op_va_arg ∷ op_va_end ∷ op_br ∷ op_cbr ∷ op_switch ∷ op_ret
    ∷ op_unreachable ∷ []

-- The enumerator's value, by which C compares opcodes.
abbrev pub op_code : Opcode → ℕ
op_code op_add = 0
op_code op_sub = 1
op_code op_mul = 2
op_code op_sdiv = 3
op_code op_udiv = 4
op_code op_srem = 5
op_code op_urem = 6
op_code op_and = 7
op_code op_or = 8
op_code op_xor = 9
op_code op_shl = 10
op_code op_lshr = 11
op_code op_ashr = 12
op_code op_fadd = 13
op_code op_fsub = 14
op_code op_fmul = 15
op_code op_fdiv = 16
op_code op_frem = 17
op_code op_fneg = 18
op_code op_neg = 19
op_code op_not = 20
op_code op_icmp = 21
op_code op_fcmp = 22
op_code op_load = 23
op_code op_store = 24
op_code op_memcpy = 25
op_code op_gep = 26
op_code op_gep_field = 27
op_code op_alloca = 28
op_code op_call = 29
op_code op_phi = 30
op_code op_select = 31
op_code op_zext = 32
op_code op_sext = 33
op_code op_trunc = 34
op_code op_bitcast = 35
op_code op_ptrtoint = 36
op_code op_inttoptr = 37
op_code op_str = 38
op_code op_sitofp = 39
op_code op_uitofp = 40
op_code op_fptosi = 41
op_code op_fptoui = 42
op_code op_fpext = 43
op_code op_fptrunc = 44
op_code op_va_start = 45
op_code op_va_arg = 46
op_code op_va_end = 47
op_code op_br = 48
op_code op_cbr = 49
op_code op_switch = 50
op_code op_ret = 51
op_code op_unreachable = 52

abbrev pub op_eq : Opcode → Opcode → Bool
op_eq a b = op_code a == op_code b

get_or-op_code : (o : Opcode) → get_or opcodes (op_code o) op_add ≡ o
get_or-op_code op_add = refl
get_or-op_code _ = refl

pub op_eq→eq : (a b : Opcode) → op_eq a b ≡ true → a ≡ b
op_eq→eq a b h =
    sym (get_or-op_code a) ∙ ap (λ n. get_or opcodes n op_add) ((==_iff _ _).0 h) ∙ get_or-op_code b
