-- ===== src/Opt/DeadBlocks.antt =====
-- src/backend/opt.c, "Dead block elimination": a branch on a constant becomes a jump, and the blocks
-- that no path from the first one reaches are dropped.
pub mod Visit
pub mod Reach
pub mod Edges
pub mod Kept
use Prim.Native.String.{String}
use text.Mathlib.Text.{◌==◌ as str_eq}
use mathlib.Core.List.{foldl}
use mini_asm.Base.{
  ℕ, zero, suc, Bool, true, false, not, ◌&&◌, List, [], ◌∷◌, ◌++◌, map, Option, none, some,
  if◌then◌else◌, length, get_or, set, replicate, ◌==◌,
}
use mini_asm.Base.Int.{ℤ, pos, eq_ℤ}
use mini_asm.Ir.{Opcode, op_eq, op_br, op_cbr, Operand, imm, Instr, Block, Func}

-- `cond ? in->label : in->label2`, the branch's fields reset.
unfoldable pub jump_to : Instr → ℤ → Instr
jump_to i c = record i {
  op = op_br;
  label = if eq_ℤ c (pos 0) then i.label2 else i.label;
  label2 = none;
  args = [];
}

abbrev pub fold_cbr_args : Instr → List Operand → Instr
fold_cbr_args i (imm c ∷ _) = jump_to i c
fold_cbr_args i _ = i

unfoldable pub fold_cbr : Instr → Instr
unfolding jump_to
fold_cbr i = if op_eq i.op op_cbr then fold_cbr_args i i.args else i

abbrev pub label_list : Option String → List String
label_list none = []
label_list (some l) = l ∷ []

-- `succs`, the labels that are not NULL.
unfoldable pub succs : Instr → List String
succs i =
    if op_eq i.op op_br
    then label_list i.label
    else if op_eq i.op op_cbr
    then label_list i.label ++ label_list i.label2
    else []

unfoldable pub block_succs : List Instr → List String
unfolding succs
block_succs [] = []
block_succs (i ∷ is) = succs i ++ block_succs is

-- `reachable`, and `stack[0 .. sp)` with its top first.
pub record Search : Type 0 where
  pub reachable : List Bool
  pub stack : List ℕ

abbrev pub is_marked : Search → ℕ → Bool
is_marked s t = get_or s.reachable t false

unfoldable pub push : Search → ℕ → Search
push s t = record { reachable = set s.reachable t true; stack = t ∷ s.stack }

-- The loop over `t` for one label.
unfoldable pub visit : String → ℕ → List Block → Search → Search
unfolding push
visit l t [] s = s
visit l t (b ∷ bs) s =
    visit l (suc t) bs (if str_eq b.name l && not (is_marked s t) then push s t else s)

unfoldable pub visit_all : List Block → List String → Search → Search
unfolding visit
visit_all bs [] s = s
visit_all bs (l ∷ ls) s = visit_all bs ls (visit l 0 bs s)

-- The labels of the block `idx`.
unfoldable pub labels_at : List Block → ℕ → List String
unfolding block_succs
labels_at [] i = []
labels_at (b ∷ bs) zero = block_succs b.instrs
labels_at (b ∷ bs) (suc i) = labels_at bs i

-- `while(sp > 0)` on fuel; `none` where the fuel runs out.
unfoldable pub search_loop : ℕ → List Block → Search → Option Search
unfolding visit_all labels_at
search_loop zero bs s = elim s.stack [ [] ↦ some s | _ ∷ _ ↦ none ]
search_loop (suc fuel) bs s = elim s.stack [
  | [] ↦ some s
  | i ∷ rest ↦ search_loop fuel bs (visit_all bs (labels_at bs i) (record s { stack = rest }))
]

unfoldable pub keep_marked : List Bool → List Block → List Block
keep_marked (true ∷ ms) (b ∷ bs) = b ∷ keep_marked ms bs
keep_marked (false ∷ ms) (b ∷ bs) = keep_marked ms bs
keep_marked _ _ = []

unfoldable pub search_start : ℕ → Search
unfolding push
search_start n = push (record { reachable = replicate n false; stack = [] }) 0

abbrev pub compact : List Block → Option Search → Option (List Block)
compact bs none = none
compact bs (some s) = some (keep_marked s.reachable bs)

unfoldable pub prune : List Block → Option (List Block)
prune [] = some []
prune (b ∷ bs) =
    compact (b ∷ bs) (search_loop (length (b ∷ bs)) (b ∷ bs) (search_start (length (b ∷ bs))))

abbrev pub fold_branches : List Block → List Block
fold_branches = map (λ (b : Block). record b { instrs = map fold_cbr b.instrs })

abbrev pub put_blocks : Func → Option (List Block) → Option Func
put_blocks f none = none
put_blocks f (some bs) = some (record f { blocks = bs })

unfoldable pub dead_block_elim : Func → Option Func
dead_block_elim f = put_blocks f (prune (fold_branches f.blocks))
