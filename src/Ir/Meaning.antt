-- ===== src/Ir/Meaning.antt =====
-- What the integer opcodes compute on 64-bit registers, and when the registers of a function agree
-- with its instructions. This is a description of its own: the optimizer has no interpreter.
use mini_asm.Base.{
  ℕ, zero, suc, ◌+◌, ◌-◌, ◌*◌, ◌/◌, ◌%◌, ◌^◌, ◌<◌, ◌≡◌, ◌⊎◌, Bool, true, false, not, List, [], ◌∷◌,
  map, Option, none, some, ltb, leb, ◌==◌, if◌then◌else◌, All,
}
use mini_asm.Base.Int.{
  ℤ, pos, negsuc, ltb_ℤ, u64_mod, i64_min_abs, to_u64, to_i64, quot_ℤ, rem_ℤ, shr_ℤ,
}
use mini_asm.Base.Bits.{bitwise, and_bit, or_bit, xor_bit}
use mini_asm.Ir.{
  Opcode, op_add, op_sub, op_mul, op_sdiv, op_udiv, op_srem, op_urem, op_and, op_or, op_xor, op_shl,
  op_lshr, op_ashr, op_neg, op_not, op_icmp, op_phi, op_load, op_alloca, op_str, op_store, op_call,
  op_br, op_cbr, op_ret, op_unreachable, op_va_start, op_va_arg, op_va_end, op_memcpy, op_switch,
  Operand, vreg, imm, Instr, Block, Func,
}

-- The ten predicates of IcmpPred by their numbers, on bit patterns.
abbrev pub compare_words : ℕ → ℕ → ℕ → Option Bool
compare_words zero a b = some (a == b)
compare_words (suc zero) a b = some (not (a == b))
compare_words (suc (suc zero)) a b = some (ltb_ℤ (to_i64 a) (to_i64 b))
compare_words (suc (suc (suc zero))) a b = some (not (ltb_ℤ (to_i64 b) (to_i64 a)))
compare_words (suc (suc (suc (suc zero)))) a b = some (ltb_ℤ (to_i64 b) (to_i64 a))
compare_words (suc (suc (suc (suc (suc zero))))) a b = some (not (ltb_ℤ (to_i64 a) (to_i64 b)))
compare_words (suc (suc (suc (suc (suc (suc zero)))))) a b = some (ltb a b)
compare_words (suc (suc (suc (suc (suc (suc (suc zero))))))) a b = some (leb a b)
compare_words (suc (suc (suc (suc (suc (suc (suc (suc zero)))))))) a b = some (ltb b a)
compare_words (suc (suc (suc (suc (suc (suc (suc (suc (suc zero))))))))) a b = some (leb b a)
compare_words _ a b = none

abbrev pub bit_of : Bool → ℕ
bit_of true = 1
bit_of false = 0

abbrev pub map_bit : Option Bool → Option ℕ
map_bit none = none
map_bit (some b) = some (bit_of b)

-- A signed division traps on a zero divisor and on the quotient that does not fit.
abbrev pub traps : ℕ → ℕ → Bool
traps a b = if b == 0 then true else if a == i64_min_abs then b == (u64_mod - 1) else false

unfoldable pub binary : Opcode → ℕ → ℕ → ℕ → Option ℕ
binary op_add p a b = some ((a + b) % u64_mod)
binary op_sub p a b = some ((a + (u64_mod - b)) % u64_mod)
binary op_mul p a b = some (a * b % u64_mod)
binary op_sdiv p a b = if traps a b then none else some (to_u64 (quot_ℤ (to_i64 a) (to_i64 b)))
binary op_udiv p a b = if b == 0 then none else some (a / b)
binary op_srem p a b = if traps a b then none else some (to_u64 (rem_ℤ (to_i64 a) (to_i64 b)))
binary op_urem p a b = if b == 0 then none else some (a % b)
binary op_and p a b = some (bitwise and_bit 64 a b)
binary op_or p a b = some (bitwise or_bit 64 a b)
binary op_xor p a b = some (bitwise xor_bit 64 a b)
binary op_shl p a b = if ltb b 64 then some (a * 2 ^ b % u64_mod) else none
binary op_lshr p a b = if ltb b 64 then some (a / 2 ^ b) else none
binary op_ashr p a b = if ltb b 64 then some (to_u64 (shr_ℤ (to_i64 a) b)) else none
binary op_icmp p a b = map_bit (compare_words p a b)
binary _ p a b = none

unfoldable pub unary : Opcode → ℕ → Option ℕ
unary op_neg a = some ((u64_mod - a) % u64_mod)
unary op_not a = some (u64_mod - 1 - a)
unary _ a = none

-- The value of an integer instruction; `none` where it traps and for every other opcode.
unfoldable pub int_value : Opcode → ℕ → List ℕ → Option ℕ
unfolding binary unary
int_value op p (a ∷ []) = unary op a
int_value op p (a ∷ b ∷ []) = binary op p a b
int_value op p _ = none

-- How an instruction constrains its result.
pub data Role : Type 0 where
  effect merge computed : Role

-- `effect`: the result depends on memory, on an earlier call of the same instruction or on the place,
-- or there is none. `merge`: a phi. `computed`: a function of opcode, type, predicate and operands.
unfoldable pub role : Opcode → Role
role op_phi = merge
role op_load = effect
role op_alloca = effect
role op_str = effect
role op_store = effect
role op_call = effect
role op_br = effect
role op_cbr = effect
role op_ret = effect
role op_unreachable = effect
role op_va_start = effect
role op_va_arg = effect
role op_va_end = effect
role op_memcpy = effect
role op_switch = effect
role _ = computed

abbrev pub Regs : Type 0
Regs = ℤ → ℕ

-- Every register holds a 64-bit pattern.
abbrev pub IsRegs : Regs → Type 0
IsRegs ρ = (v : ℤ) → ρ v < u64_mod

-- `rest` is the value of the opcodes that `int_value` leaves open (addresses, floats, conversions),
-- and `slot` that of an operand which is neither a register nor an integer.
module _ (rest : Opcode → ℕ → ℕ → List ℕ → ℕ) (slot : Operand → ℕ) where
  unfoldable pub operand_value : Regs → Operand → ℕ
  operand_value ρ (vreg v) = ρ v
  operand_value ρ (imm c) = to_u64 c
  operand_value ρ o = slot o

  unfoldable pub value : Opcode → ℕ → ℕ → List ℕ → ℕ
  value op type pred vs = elim (int_value op pred vs) [ some w ↦ w | none ↦ rest op type pred vs ]

  abbrev pub MergeHolds : Regs → ℤ → List Operand → Type 0
  MergeHolds ρ d (a ∷ b ∷ as') = (ρ d ≡ operand_value ρ a) ⊎ (ρ d ≡ operand_value ρ b)
  MergeHolds ρ d _ = Unit

  abbrev pub RoleHolds : Regs → Instr → Role → Type 0
  RoleHolds ρ i effect = Unit
  RoleHolds ρ i merge = MergeHolds ρ i.dst i.args
  RoleHolds ρ i computed = ρ i.dst ≡ value i.op i.type i.pred (map (operand_value ρ) i.args)

  abbrev pub DstHolds : Regs → Instr → ℤ → Type 0
  DstHolds ρ i (pos d) = RoleHolds ρ i (role i.op)
  DstHolds ρ i (negsuc d) = Unit

  -- The register that an instruction defines holds the value that its operands give it.
  abbrev pub Holds : Regs → Instr → Type 0
  Holds ρ i = DstHolds ρ i i.dst

  -- The registers solve the equations of the whole function, as those of an SSA program do.
  abbrev pub Satisfies : Regs → Func → Type 0
  Satisfies ρ f = All (λ (b : Block). All (Holds ρ) b.instrs) f.blocks

  pub value_known :
      (op : Opcode) (type pred : ℕ) (vs : List ℕ) (w : ℕ)
      → int_value op pred vs ≡ some w
      → value op type pred vs ≡ w
  unfolding value
  value_known op type pred vs w h = rw (h, value)
