-- ===== src/Opt/Dce.antt =====
-- src/backend/opt.c, "Dead code elimination".
pub mod Marks
pub mod Rounds
pub mod Sound
use mathlib.Core.List.{foldl}
use mini_asm.Base.{
  ℕ, zero, suc, ◌+◌, Bool, true, false, not, ◌&&◌, ◌||◌, List, [], ◌∷◌, ◌++◌, map, Option, none,
  some, ltb, if◌then◌else◌, length, get_or, set, replicate, keep_if,
}
use mini_asm.Base.Int.{ℤ, pos, negsuc, pos_part}
use mini_asm.Ir.{Operand, vreg, Instr, Block, Func}
use mini_asm.Opt.Common.{func_maxv, has_side_effect}

-- `used`: one flag for each register.
abbrev pub Flags : Type 0
Flags = List Bool

unfoldable pub mark_arg : Flags → Operand → Flags
mark_arg used (vreg (pos v)) = if ltb v (length used) then set used v true else used
mark_arg used _ = used

unfoldable pub mark_instr : Flags → Instr → Flags
unfolding mark_arg
mark_instr used i = foldl mark_arg used i.args

unfoldable pub mark_uses : List Block → Flags → Flags
unfolding mark_instr
mark_uses bs used = foldl (λ u (b : Block). foldl mark_instr u b.instrs) used bs

-- `used[dst]`.
abbrev pub is_used : Flags → ℤ → Bool
is_used used (pos v) = get_or used v false
is_used used (negsuc v) = false

abbrev pub has_dst : ℤ → Bool
has_dst (pos v) = true
has_dst (negsuc v) = false

-- `keep`.
unfoldable pub is_kept : Flags → Instr → Bool
unfolding has_side_effect
is_kept used i =
    if has_side_effect i.op
    then true
    else if has_dst i.dst && not (is_used used i.dst)
    then false
    else true

-- The compaction of a block; the second part is `changed`.
unfoldable pub drops_any : Flags → List Instr → Bool
drops_any used [] = false
drops_any used (i ∷ is) = not (is_kept used i) || drops_any used is

unfoldable pub sweep_block : Flags → Block → Block
sweep_block used b = record b { instrs = keep_if (is_kept used) b.instrs }

unfoldable pub any_dropped : Flags → List Block → Bool
any_dropped used [] = false
any_dropped used (b ∷ bs) = drops_any used b.instrs || any_dropped used bs

-- The flags of a round, from the cleared array of `n` cells.
unfoldable pub used_flags : ℕ → List Block → Flags
used_flags n bs = mark_uses bs (replicate n false)

-- `while(changed)` on fuel; `none` where the fuel runs out.
unfoldable pub dce_loop : ℕ → ℕ → List Block → Option (List Block)
dce_loop zero n bs = none
dce_loop (suc fuel) n bs =
    let used = used_flags n bs in
    let bs' = map (sweep_block used) bs in
    let rest = dce_loop fuel n bs' in if any_dropped used bs then rest else some bs'

-- The number of instructions, which bounds the rounds.
unfoldable pub count_instrs : List Block → ℕ
count_instrs [] = 0
count_instrs (b ∷ bs) = length b.instrs + count_instrs bs

abbrev pub with_blocks : Func → Option (List Block) → Option Func
with_blocks f none = none
with_blocks f (some bs) = some (record f { blocks = bs })

unfoldable pub ir_dce_func : Func → Option Func
ir_dce_func f =
    with_blocks f (dce_loop (suc (count_instrs f.blocks)) (pos_part (func_maxv f) + 1) f.blocks)
