-- ===== src/Regalloc/Run/Names.antt =====
-- On the names of the registers in an answer, src/backend/regalloc.c.
use Prim.Native.String.{String}
use mini_asm.Base.{
  ℕ, zero, suc, ◌≤◌, ◌<◌, ◌≡◌, refl, List, [], ◌∷◌, Option, some, length, arith, lt→ltb, get_or,
  false,
}
use mini_asm.Base.Int.{pos}
use mini_asm.Ir.{Func}
use mini_asm.Regalloc.Targets.{TargetRegInfo, target_or_default, name_at, regalloc_regname_for}
use mini_asm.Regalloc.Intervals.Keys.{AllNumbered}
use mini_asm.Regalloc.Scan.{free}
use mini_asm.Regalloc.Run.{pool_size, regalloc_run}
use mini_asm.Regalloc.Run.Answer.{regalloc_run-InPool}

-- A pool has as many names as registers.
abbrev pub IsNamed : Option TargetRegInfo → Type 0
IsNamed target = length (target_or_default target).names ≡ (target_or_default target).nregs

name_at-some : (ns : List String) (i : ℕ) → i < length ns → (n : String) × (name_at ns i ≡ some n)
name_at-some [] i h = absurd (omega arith)
name_at-some (n ∷ ns) zero h = (n, refl)
name_at-some (n ∷ ns) (suc i) h = name_at-some ns i (omega arith)

pool_size-le : (info : TargetRegInfo) → pool_size info ≤ info.nregs
pool_size-le info = ground arith

regname_some :
    (target : Option TargetRegInfo) (r : ℕ)
    → IsNamed target
    → r < (target_or_default target).nregs
    → (n : String) × (regalloc_regname_for (pos r) target ≡ some n)
unfolding regalloc_regname_for
regname_some target r named h =
    let (n, e) = name_at-some (target_or_default target).names r (omega (arith, named)) in
    (n, rw (lt→ltb r (target_or_default target).nregs h) e)

-- In a pool with as many names as registers, every machine register that the answer for a function with
-- numbered operands names has a name.
pub regalloc_run-named :
    (target : Option TargetRegInfo) (f : Func)
    → AllNumbered f.blocks
    → IsNamed target
    → (v r : ℕ) → get_or (regalloc_run false target f).reg_of v free ≡ pos r
    → (n : String) × (regalloc_regname_for (pos r) target ≡ some n)
regalloc_run-named target f numbered named v r h =
    let (i, e, fit) = regalloc_run-InPool target f numbered v r h in
    regname_some target r named (omega (arith, fit.0, pool_size-le (target_or_default target)))
