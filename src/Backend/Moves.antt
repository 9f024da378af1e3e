-- ===== src/Backend/Moves.antt =====
-- src/targets/x86_64/isel.c: the operands, the copies for the phis of a block, and the registers that a function
-- saves. An operand is the place that its text names: a register of the pool, or the slot of a virtual
-- register v, at vreg_off(v) from the frame pointer. A copy is the pair of `movq` through SCRATCH1.
pub mod Edge
use Prim.Native.String.{String}
use text.Mathlib.Text.{◌==◌ as str_eq}
use mini_asm.Base.{
  ℕ, zero, suc, ◌-◌, ◌==◌, ltb, Option, none, some, List, [], ◌∷◌, ◌++◌, Bool, true, false, not,
  ◌&&◌, get_or, if◌then◌else◌, replicate, set, leb,
}
use mini_asm.Base.Int.{ℤ, pos, negsuc, eq_ℤ, ltb_ℤ}
use mini_asm.Ir.{op_phi, op_eq, Operand, absent, vreg, imm, label_arg, fp_imm, arg_at, Instr, Block}
use mini_asm.Regalloc.Run.{RegAlloc}

pub data Place : Type 0 where
  machine : ℕ → Place
  slot : ℤ → Place

pub data Source : Type 0 where
  at_place : Place → Source
  number : ℤ → Source

pub record Move : Type 0 where
  pub src : Source
  pub dst : Place

abbrev pub held_place : ℤ → ℤ → Place
held_place v (pos r) = machine r
held_place v (negsuc r) = slot v

unfoldable pub vop_str : ℤ → RegAlloc → Place
vop_str (pos v) ra =
    if ltb v ra.nvregs then held_place (pos v) (get_or ra.reg_of v (negsuc 0)) else slot (pos v)
vop_str (negsuc v) ra = slot (negsuc v)

unfoldable pub op_str : Operand → RegAlloc → Source
op_str (absent v) ra = at_place (vop_str v ra)
op_str (vreg v) ra = at_place (vop_str v ra)
op_str (imm c) ra = number c
op_str (label_arg v) ra = at_place (vop_str v ra)
op_str (fp_imm c) ra = number (pos 0)

-- The copy of an operand, which only a register and an immediate have.
unfoldable pub copy_moves : RegAlloc → ℤ → Operand → List Move
copy_moves ra d (vreg v) = record { src = at_place (vop_str v ra); dst = vop_str d ra } ∷ []
copy_moves ra d (imm c) = record { src = number c; dst = vop_str d ra } ∷ []
copy_moves ra d _ = []

unfoldable pub side_moves : RegAlloc → String → ℤ → Option String → Operand → List Move
side_moves ra from_name d none a = []
side_moves ra from_name d (some from) a = if str_eq from from_name then copy_moves ra d a else []

unfoldable pub phi_moves : RegAlloc → String → Instr → List Move
phi_moves ra from_name i =
    if op_eq i.op op_phi && not (ltb_ℤ i.dst (pos 0))
    then side_moves ra from_name i.dst i.label (arg_at i.args 0)
      ++ side_moves ra from_name i.dst i.label2 (arg_at i.args 1)
    else []

unfoldable pub block_moves : RegAlloc → String → List Instr → List Move
block_moves ra from_name [] = []
block_moves ra from_name (i ∷ is) = phi_moves ra from_name i ++ block_moves ra from_name is

unfoldable pub emit_phi_copies_for_edge : List Block → String → String → RegAlloc → List Move
emit_phi_copies_for_edge [] from_name to_name ra = []
emit_phi_copies_for_edge (b ∷ bs) from_name to_name ra =
    let rest = emit_phi_copies_for_edge bs from_name to_name ra in
    if str_eq b.name to_name then block_moves ra from_name b.instrs ++ rest else rest

-- The flags of the registers to save: `r >= 5 && r < 10` sets `used_cs[r-5]`.
abbrev pub note_saved : ℤ → List Bool → List Bool
note_saved (pos r) used = if leb 5 r && ltb r 10 then set used (r - 5) true else used
note_saved (negsuc r) used = used

abbrev pub note_all : List ℤ → List Bool → List Bool
note_all [] used = used
note_all (r ∷ rs) used = note_all rs (note_saved r used)

abbrev pub used_cs : RegAlloc → List Bool
used_cs ra = note_all ra.reg_of (replicate 5 false)

abbrev pub flagged : List Bool → List String → List String
flagged (u ∷ us) (c ∷ cs) = let rest = flagged us cs in if u then c ∷ rest else rest
flagged _ _ = []

-- The registers that the function pushes, in order.
abbrev pub pushed : RegAlloc → List String
pushed ra = flagged (used_cs ra) ("%rbx" ∷ "%r12" ∷ "%r13" ∷ "%r14" ∷ "%r15" ∷ [])
