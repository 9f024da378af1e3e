-- ===== src/Opt/DeadBlocks/Kept.antt =====
-- On the blocks that `dead_block_elim`, src/backend/opt.c, keeps.
use mini_asm.Base.{
  ℕ, suc, ◌+◌, ◌≡◌, ◌↔◌, refl, Bool, true, false, List, [], ◌∷◌, some, arith, length, get_or,
}
use mathlib.Core.Path.{subst}
use mini_asm.Ir.{Block}
use mini_asm.Opt.DeadBlocks.{keep_marked, prune}
use mini_asm.Opt.DeadBlocks.Reach.{prune_marks}
use mini_asm.Opt.DeadBlocks.Edges.{Reach, Found-Reach, Reach-Found}

-- The second list has the blocks of the first whose index, counted from a number, is in the set, in their order.
pub data Selects (P : ℕ → Type 0) : ℕ → List Block → List Block → Type 0 where
  done : {t : ℕ} → Selects P t [] []
  kept :
      {t : ℕ} {b : Block} {bs cs : List Block}
      → P t
      → Selects P (suc t) bs cs
      → Selects P t (b ∷ bs) (b ∷ cs)
  left_out :
      {t : ℕ} {b : Block} {bs cs : List Block}
      → ¬ P t
      → Selects P (suc t) bs cs
      → Selects P t (b ∷ bs) cs

keep_marked-Selects :
    (P : ℕ → Type 0) (t : ℕ) (ms : List Bool) (bs : List Block)
    → length ms ≡ length bs
    → ((v : ℕ) → (get_or ms v false ≡ true) ↔ P (t + v))
    → Selects P t bs (keep_marked ms bs)
unfolding keep_marked
keep_marked-Selects P t [] [] e h = done
keep_marked-Selects P t [] (b ∷ bs) e h = absurd (omega (arith, e))
keep_marked-Selects P t (m ∷ ms) [] e h = absurd (omega (arith, e))
keep_marked-Selects P t (true ∷ ms) (b ∷ bs) e h = kept (subst P (omega arith) ((h 0).0 refl)) (
    keep_marked-Selects P (suc t) ms bs (omega (arith, e))
      (λ v. subst (λ w. (get_or ms v false ≡ true) ↔ P w) (omega arith) (h (suc v))))
keep_marked-Selects P t (false ∷ ms) (b ∷ bs) e h =
    left_out (λ p. cc ((h 0).1 (subst P (omega arith) p)))
      (keep_marked-Selects P (suc t) ms bs (omega (arith, e))
        (λ v. subst (λ w. (get_or ms v false ≡ true) ↔ P w) (omega arith) (h (suc v))))

-- Pruning a function with at least one block returns, and the result has, in their order, exactly the
-- blocks that a path of branches leads to from the first block: a jump leads to every block named by
-- its label, a conditional branch to every block named by one of its two labels.
pub prune_lem :
    (b : Block) (bs : List Block)
    → (cs : List Block) × (prune (b ∷ bs) ≡ some cs) × Selects (Reach (b ∷ bs)) 0 (b ∷ bs) cs
prune_lem b bs =
    let (ms, e, n, h) = prune_marks b bs in
    (
      keep_marked ms (b ∷ bs),
      e,
      keep_marked-Selects (Reach (b ∷ bs)) 0 ms (b ∷ bs) n (λ v.
          subst (λ w. (get_or ms v false ≡ true) ↔ Reach (b ∷ bs) w) (omega arith)
            ((λ k. Found-Reach (b ∷ bs) ((h v).0 k)), (λ r. (h v).1 (Reach-Found (b ∷ bs) r)))),
    )
