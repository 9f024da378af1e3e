-- ===== src/Opt/Alias.antt =====
-- src/backend/opt.c: the passes that fill the table `alias`, and the copy propagation that applies it.
-- A cell of `alias` is -1 where nothing is known, -2 for the constant 0, -3 for the constant 1, and
-- otherwise the register to use instead. `nalias` is the table's length.
pub mod Means
pub mod Algebra
pub mod Merge
pub mod Cse
pub mod Load
pub mod Copy
use mathlib.Core.List.{foldl}
use mini_asm.Base.{
  ℕ, zero, suc, ◌+◌, Bool, true, false, not, ◌&&◌, ◌||◌, List, [], ◌∷◌, map, Option, none, some,
  ltb, ◌==◌, if◌then◌else◌, length, get_or, set, replicate,
}
use mini_asm.Base.Int.{ℤ, pos, negsuc, eq_ℤ, pos_part}
use mini_asm.Ir.{
  Opcode, op_eq, op_add, op_sub, op_mul, op_or, op_xor, op_and, op_shl, op_lshr, op_ashr, op_phi,
  op_alloca, op_str, op_load, op_icmp, op_store, op_zext, op_sext, op_trunc, Operand, absent, vreg,
  imm, label_arg, fp_imm, operand_eq, Instr, Block, Func,
}
use mini_asm.Opt.Common.{func_maxv, has_side_effect}

abbrev pub AliasTab : Type 0
AliasTab = List ℤ

abbrev pub unknown : ℤ
unknown = negsuc 0

abbrev pub const_zero : ℤ
const_zero = negsuc 1

abbrev pub const_one : ℤ
const_one = negsuc 2

-- `alias[v]`.
abbrev pub alias_at : AliasTab → ℤ → ℤ
alias_at alias (pos v) = get_or alias v unknown
alias_at alias (negsuc v) = unknown

-- `alias[dst] = a` behind the guard `dst < 0 || dst >= nalias`; `none` writes nothing.
unfoldable pub write_alias : AliasTab → ℤ → Option ℤ → AliasTab
write_alias alias (pos d) (some a) = if ltb d (length alias) then set alias d a else alias
write_alias alias _ _ = alias

-- `in->args[a]`, whatever its tag.
unfoldable pub slot_number : Operand → ℤ
slot_number (absent a) = a
slot_number (vreg a) = a
slot_number (imm a) = a
slot_number (label_arg a) = a
slot_number (fp_imm a) = a

-- `a_imm && v == k`.
unfoldable pub is_imm_of : ℕ → Operand → Bool
is_imm_of k (imm c) = eq_ℤ c (pos k)
is_imm_of k _ = false

-- The switch of `algebraic_simplify`.
unfoldable pub algebraic_alias : Opcode → Operand → Operand → Option ℤ
unfolding slot_number is_imm_of
algebraic_alias op_add a b =
    if is_imm_of 0 a
    then some (slot_number b)
    else if is_imm_of 0 b
    then some (slot_number a)
    else none
algebraic_alias op_sub a b = if is_imm_of 0 b then some (slot_number a) else none
algebraic_alias op_mul a b =
    if is_imm_of 1 a
    then some (slot_number b)
    else if is_imm_of 1 b
    then some (slot_number a)
    else if is_imm_of 0 a || is_imm_of 0 b
    then some const_zero
    else none
algebraic_alias op_or a b =
    if is_imm_of 0 a
    then some (slot_number b)
    else if is_imm_of 0 b
    then some (slot_number a)
    else none
algebraic_alias op_xor a b =
    if is_imm_of 0 a
    then some (slot_number b)
    else if is_imm_of 0 b
    then some (slot_number a)
    else none
algebraic_alias op_and a b = if is_imm_of 0 a || is_imm_of 0 b then some const_zero else none
algebraic_alias op_shl a b = if is_imm_of 0 b then some (slot_number a) else none
algebraic_alias op_lshr a b = if is_imm_of 0 b then some (slot_number a) else none
algebraic_alias op_ashr a b = if is_imm_of 0 b then some (slot_number a) else none
algebraic_alias _ a b = none

-- `if(in->nargs != 2) continue`.
unfoldable pub algebraic_args : Opcode → List Operand → Option ℤ
unfolding algebraic_alias
algebraic_args op (a ∷ b ∷ []) = algebraic_alias op a b
algebraic_args op _ = none

unfoldable pub algebraic_instr : AliasTab → Instr → AliasTab
unfolding algebraic_args write_alias
algebraic_instr alias i = write_alias alias i.dst (algebraic_args i.op i.args)

-- A pass that looks at one instruction after another.
abbrev pub each_instr : (AliasTab → Instr → AliasTab) → Func → AliasTab → AliasTab
each_instr step f alias = foldl (λ a (b : Block). foldl step a b.instrs) alias f.blocks

unfoldable pub algebraic_simplify : Func → AliasTab → AliasTab
unfolding algebraic_instr
algebraic_simplify = each_instr algebraic_instr

-- Equal inputs of a phi: a register, or the constant 0.
unfoldable pub phi_alias : List Operand → Option ℤ
phi_alias (vreg a ∷ b ∷ _) = if operand_eq (vreg a) b then some a else none
phi_alias (imm a ∷ b ∷ _) =
    if operand_eq (imm a) b then some (if eq_ℤ a (pos 0) then const_zero else unknown) else none
phi_alias _ = none

unfoldable pub phi_instr : AliasTab → Instr → AliasTab
unfolding phi_alias write_alias
phi_instr alias i = if op_eq i.op op_phi then write_alias alias i.dst (phi_alias i.args) else alias

unfoldable pub phi_simplify : Func → AliasTab → AliasTab
unfolding phi_instr
phi_simplify = each_instr phi_instr

-- The outcome of a predicate on two equal values.
unfoldable pub icmp_self_value : ℕ → Option ℕ
icmp_self_value zero = some 1
icmp_self_value (suc zero) = some 0
icmp_self_value (suc (suc zero)) = some 0
icmp_self_value (suc (suc (suc zero))) = some 1
icmp_self_value (suc (suc (suc (suc zero)))) = some 0
icmp_self_value (suc (suc (suc (suc (suc zero))))) = some 1
icmp_self_value (suc (suc (suc (suc (suc (suc zero)))))) = some 0
icmp_self_value (suc (suc (suc (suc (suc (suc (suc zero))))))) = some 1
icmp_self_value (suc (suc (suc (suc (suc (suc (suc (suc zero)))))))) = some 0
icmp_self_value (suc (suc (suc (suc (suc (suc (suc (suc (suc zero))))))))) = some 1
icmp_self_value _ = none

unfoldable pub self_alias : Option ℕ → Option ℤ
self_alias none = none
self_alias (some v) = some (if v == 0 then const_zero else const_one)

unfoldable pub self_icmp_args : ℕ → List Operand → Option ℤ
unfolding icmp_self_value self_alias
self_icmp_args pred (vreg a ∷ vreg b ∷ []) =
    if eq_ℤ a b then self_alias (icmp_self_value pred) else none
self_icmp_args pred _ = none

unfoldable pub self_icmp_instr : AliasTab → Instr → AliasTab
unfolding self_icmp_args write_alias
self_icmp_instr alias i =
    if op_eq i.op op_icmp then write_alias alias i.dst (self_icmp_args i.pred i.args) else alias

unfoldable pub fold_self_icmp : Func → AliasTab → AliasTab
unfolding self_icmp_instr
fold_self_icmp = each_instr self_icmp_instr

-- The loop over `kinds` and `args`, after `nargs` was compared.
unfoldable pub args_eq : List Operand → List Operand → Bool
args_eq [] [] = true
args_eq (a ∷ as') (b ∷ bs) = operand_eq a b && args_eq as' bs
args_eq _ _ = false

-- `dst >= 0`.
abbrev pub is_reg : ℤ → Bool
is_reg (pos v) = true
is_reg (negsuc v) = false

unfoldable pub same_value : Instr → Instr → Bool
unfolding args_eq
same_value prev i =
    op_eq prev.op i.op
    && prev.type == i.type
    && prev.pred == i.pred
    && args_eq prev.args i.args
    && is_reg prev.dst

-- The search backwards from `in`; the list holds the instructions above it, the nearest first.
unfoldable pub find_same : List Instr → Instr → Option ℤ
unfolding same_value
find_same [] i = none
find_same (p ∷ ps) i = if same_value p i then some p.dst else find_same ps i

unfoldable pub cse_candidate : Opcode → Bool
unfolding has_side_effect
cse_candidate op =
    not (has_side_effect op)
    && not (op_eq op op_phi || op_eq op op_alloca || op_eq op op_str)
    && not (op_eq op op_load)

unfoldable pub cse_instr : List Instr → AliasTab → Instr → AliasTab
unfolding cse_candidate find_same write_alias
cse_instr above alias i =
    if cse_candidate i.op then write_alias alias i.dst (find_same above i) else alias

unfoldable pub cse_block : List Instr → List Instr → AliasTab → AliasTab
unfolding cse_instr
cse_block above [] alias = alias
cse_block above (i ∷ is) alias = cse_block (i ∷ above) is (cse_instr above alias i)

unfoldable pub common_subexpr_elim : Func → AliasTab → AliasTab
unfolding cse_block
common_subexpr_elim f alias = foldl (λ a (b : Block). cse_block [] b.instrs a) alias f.blocks

-- The instruction that defines a register, the first in the function's order.
unfoldable pub find_def_instrs : ℤ → List Instr → Option Instr
unfolding has_side_effect
find_def_instrs v [] = none
find_def_instrs v (i ∷ is) =
    if eq_ℤ i.dst v && not (has_side_effect i.op) then some i else find_def_instrs v is

unfoldable pub find_def : ℤ → List Block → Option Instr
unfolding find_def_instrs
find_def v [] = none
find_def v (b ∷ bs) = elim (find_def_instrs v b.instrs) [ some i ↦ some i | none ↦ find_def v bs ]

-- `def->args[0]` if it is a register.
abbrev pub first_reg : List Operand → Option ℤ
first_reg (vreg v ∷ _) = some v
first_reg _ = none

unfoldable pub ext_alias : Instr → Instr → Option ℤ
ext_alias def i =
    if op_eq def.op op_zext && op_eq i.op op_zext
    then first_reg def.args
    else if op_eq def.op op_sext && op_eq i.op op_sext
    then first_reg def.args
    else if op_eq def.op op_zext && op_eq i.op op_trunc
    then (if def.type == i.type then first_reg def.args else none)
    else if op_eq def.op op_sext && op_eq i.op op_trunc
    then (if def.type == i.type then first_reg def.args else none)
    else none

unfoldable pub ext_from : Option Instr → Instr → Option ℤ
unfolding ext_alias
ext_from none i = none
ext_from (some def) i = ext_alias def i

unfoldable pub ext_args : List Block → Instr → List Operand → Option ℤ
unfolding ext_from find_def
ext_args bs i (vreg src ∷ []) = ext_from (find_def src bs) i
ext_args bs i _ = none

unfoldable pub ext_instr : List Block → AliasTab → Instr → AliasTab
unfolding ext_args write_alias
ext_instr bs alias i =
    if op_eq i.op op_zext || op_eq i.op op_sext || op_eq i.op op_trunc
    then write_alias alias i.dst (ext_args bs i i.args)
    else alias

unfoldable pub collaps_ext_chains : Func → AliasTab → AliasTab
unfolding ext_instr
collaps_ext_chains f = each_instr (ext_instr f.blocks) f

-- The value stored, as a cell of `alias`.
unfoldable pub stored_alias : Operand → Option ℤ
stored_alias (vreg v) = some v
stored_alias (imm c) =
    if eq_ℤ c (pos 0) then some const_zero else if eq_ℤ c (pos 1) then some const_one else none
stored_alias _ = none

-- A store of `x` to the register `p` and a load from the same register.
unfoldable pub forward_args : List Operand → List Operand → Option ℤ
unfolding stored_alias
forward_args (x ∷ vreg p ∷ _) (vreg q ∷ _) = if eq_ℤ p q then stored_alias x else none
forward_args _ _ = none

unfoldable pub forward_alias : Instr → Instr → Option ℤ
unfolding forward_args
forward_alias st ld =
    if op_eq st.op op_store && op_eq ld.op op_load && st.type == ld.type
    then forward_args st.args ld.args
    else none

-- The second sweep; the first one has no effect.
unfoldable pub load_block : List Instr → AliasTab → AliasTab
unfolding forward_alias write_alias
load_block (st ∷ ld ∷ is) alias =
    load_block (ld ∷ is) (write_alias alias ld.dst (forward_alias st ld))
load_block _ alias = alias

unfoldable pub local_load_elim : Func → AliasTab → AliasTab
unfolding load_block
local_load_elim f alias = foldl (λ a (b : Block). load_block b.instrs a) alias f.blocks

-- One operand under a cell of the table.
unfoldable pub apply_alias : ℤ → ℤ → Operand
apply_alias v (pos w) = vreg (pos w)
apply_alias v (negsuc zero) = vreg v
apply_alias v (negsuc (suc zero)) = imm (pos 0)
apply_alias v (negsuc (suc (suc zero))) = imm (pos 1)
apply_alias v (negsuc _) = vreg v

unfoldable pub copy_operand : AliasTab → Operand → Operand
unfolding apply_alias
copy_operand alias (vreg v) = apply_alias v (alias_at alias v)
copy_operand alias o = o

unfoldable pub copy_instr : AliasTab → Instr → Instr
unfolding copy_operand
copy_instr alias i = record i { args = map (copy_operand alias) i.args }

abbrev pub map_instrs : (Instr → Instr) → Func → Func
map_instrs g f = record f {
  blocks = map (λ (b : Block). record b { instrs = map g b.instrs }) f.blocks;
}

unfoldable pub copy_propagate_func : Func → AliasTab → Func
unfolding copy_instr
copy_propagate_func f alias = map_instrs (copy_instr alias) f
