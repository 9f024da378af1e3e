-- ===== src/Backend/Frame/Apart.antt =====
-- src/targets/x86_64/isel.c: nothing in the frame overlaps.
use mini_asm.Base.{ℕ, ◌+◌, ◌≡◌, List, [], ◌∷◌, ◌++◌, Bool, true, false}
use mini_asm.Ir.{op_alloca, op_eq, Instr, Block}
use mini_asm.Backend.Frame.{object_size, assign_instrs}

-- The offset and the size of each stack object.
unfoldable pub object_then : Bool → ℕ × ℕ → List (ℕ × ℕ) → List (ℕ × ℕ)
object_then true o os = o ∷ os
object_then false o os = os

unfoldable pub instr_objects : List Instr → List (ℕ × ℕ)
unfolding object_then
instr_objects [] = []
instr_objects (i ∷ is) =
    object_then (op_eq i.op op_alloca) (i.pred, object_size i) (instr_objects is)

abbrev pub objects : List Block → List (ℕ × ℕ)
objects [] = []
objects (b ∷ bs) = instr_objects b.instrs ++ objects bs

-- Objects one below the other, from one offset to another.
abbrev Stacked : ℕ → List (ℕ × ℕ) → ℕ → Type 0
Stacked lo [] hi = lo ≡ hi
Stacked lo (o ∷ os) hi = (lo + o.1 ≡ o.0) × Stacked o.0 os hi

-- What the induction shows of an instruction and its cursor.
abbrev StackedStep : ℕ → List Instr → ℕ × Instr → Type 0
StackedStep c is p =
    Stacked c (instr_objects (p.1 ∷ (assign_instrs p.0 is).1)) (assign_instrs p.0 is).0
