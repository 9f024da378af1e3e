-- ===== src/Opt/Dce/Rounds.antt =====
-- On the loop of `ir_dce_func`, src/backend/opt.c.
use mini_asm.Base.{
  ℕ, zero, suc, ◌<◌, ◌≤◌, ◌≡◌, refl, true, false, List, [], ◌∷◌, map, some, arith, Bool-cases, inl,
  inr, length, keep_if, length-keep_if, sym, ◌∙◌,
}
use mini_asm.Ir.{Instr, Block}
use mini_asm.Opt.Dce.{
  Flags, is_kept, drops_any, sweep_block, any_dropped, used_flags, dce_loop, count_instrs,
}

length-sweep :
    (used : Flags) (is : List Instr)
    → drops_any used is ≡ true
    → length (keep_if (is_kept used) is) < length is
unfolding drops_any
length-sweep used [] h = cc
length-sweep used (i ∷ is) h =
    ground (arith, length-sweep used is, length-keep_if (is_kept used) is)

count-sweep-le :
    (used : Flags) (bs : List Block) → count_instrs (map (sweep_block used) bs) ≤ count_instrs bs
unfolding count_instrs sweep_block
count-sweep-le used [] = omega arith
count-sweep-le used (b ∷ bs) =
    omega (arith, count-sweep-le used bs, length-keep_if (is_kept used) b.instrs)

-- A round that changes something drops an instruction.
count-sweep-lt :
    (used : Flags) (bs : List Block)
    → any_dropped used bs ≡ true
    → count_instrs (map (sweep_block used) bs) < count_instrs bs
unfolding count_instrs sweep_block any_dropped
count-sweep-lt used [] h = cc
count-sweep-lt used (b ∷ bs) h = elim (Bool-cases (drops_any used b.instrs)) [
  | inl t ↦ omega (arith, length-sweep used b.instrs t, count-sweep-le used bs)
  | inr t ↦
      omega (arith, length-keep_if (is_kept used) b.instrs, count-sweep-lt used bs (rw t at h))
]

-- Fuel above the number of instructions is enough.
pub dce_loop_total :
    (fuel n : ℕ) (bs : List Block)
    → count_instrs bs < fuel
    → (bs' : List Block) × (dce_loop fuel n bs ≡ some bs')
unfolding dce_loop
dce_loop_total zero n bs h = absurd (omega arith)
dce_loop_total (suc fuel) n bs h = elim (Bool-cases (any_dropped (used_flags n bs) bs)) [
  | inl t ↦
      let less = count-sweep-lt (used_flags n bs) bs t in
      rw t (dce_loop_total fuel n (map (sweep_block (used_flags n bs)) bs) (omega arith))
  | inr t ↦ (map (sweep_block (used_flags n bs)) bs, rw t)
]

sweep-same :
    (used : Flags) (is : List Instr) → drops_any used is ≡ false → keep_if (is_kept used) is ≡ is
unfolding drops_any
sweep-same used [] h = refl
sweep-same used (i ∷ is) h = ground (arith, sweep-same used is)

-- A round that changes nothing is the identity.
sweep_same :
    (used : Flags) (bs : List Block) → any_dropped used bs ≡ false → map (sweep_block used) bs ≡ bs
unfolding any_dropped sweep_block
sweep_same used [] h = refl
sweep_same used (b ∷ bs) h = ground (arith, sweep-same used b.instrs, sweep_same used bs)

-- What every round keeps holds of the result, which is a fixed point.
pub dce_loop_rule :
    (n : ℕ) (P : List Block → Type 0)
    → ((bs : List Block) → P bs → P (map (sweep_block (used_flags n bs)) bs))
    → (fuel : ℕ) (bs bs' : List Block) → dce_loop fuel n bs ≡ some bs'
    → P bs
    → P bs' × (any_dropped (used_flags n bs') bs' ≡ false)
unfolding dce_loop
dce_loop_rule n P keep zero bs bs' e p = cc
dce_loop_rule n P keep (suc fuel) bs bs' e p =
    elim (Bool-cases (any_dropped (used_flags n bs) bs)) [
      | inl t ↦
          dce_loop_rule n P keep fuel (map (sweep_block (used_flags n bs)) bs) bs' (rw t at e)
            (keep bs p)
      | inr t ↦
          let e' : some (map (sweep_block (used_flags n bs)) bs) ≡ some bs' = rw t at e in
          let e'' : bs ≡ bs' = sym (sweep_same (used_flags n bs) bs t) ∙ ground arith in
          rw (← e'') (p, t)
    ]
