-- ===== src/Opt/Alias/Means.antt =====
-- What a cell of `alias`, src/backend/opt.c, says of the registers.
use mathlib.Core.List.{foldl}
use mini_asm.Base.{
  ℕ, zero, suc, ◌≡◌, ◌↔◌, List, [], ◌∷◌, map, Option, none, some, inl, inr, All, get_or, set,
  get_or-set_cases, Bool-cases, ltb, length,
}
use mini_asm.Base.Int.{ℤ, pos, negsuc}
use mini_asm.Ir.{Instr, Block, Func}
use mini_asm.Ir.Meaning.{Regs}
use mini_asm.Opt.Alias.{AliasTab, unknown, write_alias, each_instr, map_instrs}

-- A property of every instruction.
abbrev pub EachInstr : (Instr → Type 0) → Func → Type 0
EachInstr P f = All (λ (b : Block). All P b.instrs) f.blocks

abbrev pub Means : Regs → ℤ → ℤ → Type 0
Means ρ v (pos w) = ρ v ≡ ρ (pos w)
Means ρ v (negsuc zero) = Unit
Means ρ v (negsuc (suc zero)) = ρ v ≡ 0
Means ρ v (negsuc (suc (suc zero))) = ρ v ≡ 1
Means ρ v (negsuc _) = Unit

-- Every cell keeps its promise.
abbrev pub IsSound : Regs → AliasTab → Type 0
IsSound ρ alias = (v : ℕ) → Means ρ (pos v) (get_or alias v unknown)

-- What a pass must show of a cell that it writes.
abbrev pub MeansSome : Regs → ℤ → Option ℤ → Type 0
MeansSome ρ d none = Unit
MeansSome ρ d (some a) = Means ρ d a

set-IsSound :
    (ρ : Regs) (alias : AliasTab) (d : ℕ) (a : ℤ)
    → IsSound ρ alias
    → Means ρ (pos d) a
    → IsSound ρ (set alias d a)
set-IsSound ρ alias d a s m v = elim (get_or-set_cases alias d v a unknown) [
  | inl e ↦ rw (e.1, ← e.0) m
  | inr e ↦ rw e (s v)
]

-- What a pass must show where the destination is a register.
abbrev pub DstMeans : Regs → ℤ → Option ℤ → Type 0
DstMeans ρ (pos d) o = MeansSome ρ (pos d) o
DstMeans ρ (negsuc d) o = Unit

pub write_alias-IsSound :
    (ρ : Regs) (alias : AliasTab) (d : ℤ) (o : Option ℤ)
    → IsSound ρ alias
    → DstMeans ρ d o
    → IsSound ρ (write_alias alias d o)
unfolding write_alias
write_alias-IsSound ρ alias (pos d) none s m = s
write_alias-IsSound ρ alias (negsuc d) o s m = s
write_alias-IsSound ρ alias (pos d) (some a) s m = elim (Bool-cases (ltb d (length alias))) [
  | inl t ↦ rw t (set-IsSound ρ alias d a s m)
  | inr t ↦ rw t s
]

module _ (ρ : Regs) (P : Instr → Type 0) (step : AliasTab → Instr → AliasTab)
    (keep : (alias : AliasTab) (i : Instr) → P i → IsSound ρ alias → IsSound ρ (step alias i)) where
  instrs-IsSound :
      (is : List Instr) (alias : AliasTab)
      → All P is
      → IsSound ρ alias
      → IsSound ρ (foldl step alias is)
  instrs-IsSound [] alias h s = s
  instrs-IsSound (i ∷ is) alias h s = instrs-IsSound is (step alias i) h.1 (keep alias i h.0 s)

  blocks-IsSound :
      (bs : List Block) (alias : AliasTab)
      → All (λ (b : Block). All P b.instrs) bs
      → IsSound ρ alias
      → IsSound ρ (foldl (λ a (b : Block). foldl step a b.instrs) alias bs)
  blocks-IsSound [] alias h s = s
  blocks-IsSound (b ∷ bs) alias h s = blocks-IsSound bs _ h.1 (instrs-IsSound b.instrs alias h.0 s)

  -- A pass whose step keeps a sound table sound does so over a function.
  pub each_instr-IsSound :
      (f : Func) (alias : AliasTab)
      → All (λ (b : Block). All P b.instrs) f.blocks
      → IsSound ρ alias
      → IsSound ρ (each_instr step f alias)
  each_instr-IsSound f alias h s = blocks-IsSound f.blocks alias h s

-- A rewriting of single instructions that keeps their equations keeps those of the function.
module _ (P Q : Instr → Type 0) (g : Instr → Instr) (same : (i : Instr) → P i → Q (g i) ↔ Q i) where
  map-All : (is : List Instr) → All P is → All Q (map g is) ↔ All Q is
  map-All [] p = (λ h. h, λ h. h)
  map-All (i ∷ is) p =
      let (to, from) = same i p.0 in
      let (tos, froms) = map-All is p.1 in (λ h. (to h.0, tos h.1), λ h. (from h.0, froms h.1))

  blocks-All :
      (bs : List Block)
      → All (λ (b : Block). All P b.instrs) bs
      → All
          (λ (b : Block). All Q b.instrs)
          (map (λ (b : Block). record b { instrs = map g b.instrs }) bs)
        ↔ All (λ (b : Block). All Q b.instrs) bs
  blocks-All [] p = (λ h. h, λ h. h)
  blocks-All (b ∷ bs) p =
      let (to, from) = map-All b.instrs p.0 in
      let (tos, froms) = blocks-All bs p.1 in (λ h. (to h.0, tos h.1), λ h. (from h.0, froms h.1))

  pub map_instrs-All :
      (f : Func)
      → All (λ (b : Block). All P b.instrs) f.blocks
      → All (λ (b : Block). All Q b.instrs) (map_instrs g f).blocks
        ↔ All (λ (b : Block). All Q b.instrs) f.blocks
  map_instrs-All f p = blocks-All f.blocks p

-- Two properties of every instruction make a third.
module _ (P Q R : Instr → Type 0) (both : (i : Instr) → P i → Q i → R i) where
  zip-All : (is : List Instr) → All P is → All Q is → All R is
  zip-All [] h k = tt
  zip-All (i ∷ is) h k = (both i h.0 k.0, zip-All is h.1 k.1)

  pub zip_blocks :
      (bs : List Block)
      → All (λ (b : Block). All P b.instrs) bs
      → All (λ (b : Block). All Q b.instrs) bs
      → All (λ (b : Block). All R b.instrs) bs
  zip_blocks [] h k = tt
  zip_blocks (b ∷ bs) h k = (zip-All b.instrs h.0 k.0, zip_blocks bs h.1 k.1)
