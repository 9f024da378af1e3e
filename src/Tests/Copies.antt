-- ===== src/Tests/Copies.antt =====
-- The copies on an edge and the saved registers at concrete inputs.
use mini_asm.Base.{◌≡◌, refl, none, [], ◌∷◌, AllPairs}
use mini_asm.Base.Int.{pos, negsuc}
use mini_asm.Ir.{Block}
use mini_asm.Regalloc.Run.{RegAlloc}
use mini_asm.Backend.Moves.{
  machine, slot, vop_str, op_str, copy_moves, side_moves, phi_moves, block_moves,
  emit_phi_copies_for_edge, pushed,
}
use mini_asm.Backend.Moves.Edge.{
  Store, put, run, parallel, IsClear, incoming_on, as_moves, transfers,
  emit_phi_copies_for_edge_lem,
}
use mini_asm.Tests.Samples.{block, reg, num, phi}

-- The registers 0 and 1 are in the pool, the register 2 is spilled.
abbrev alloc : RegAlloc
alloc = record {
  reg_of = pos 4 ∷ pos 5 ∷ negsuc 0 ∷ [];
  nvregs = 3;
  nspills = 1;
  nassigned = 2;
  info = none;
}

abbrev start : Store
start (machine r) = pos r
start (slot v) = pos 100

-- From `loop`, the register 0 takes the value of 1, and the register 2 an immediate.
abbrev shift_block : Block
shift_block = block "loop" (phi 0 (num 1) (reg 1) ∷ phi 2 (num 7) (num 9) ∷ [])

shift-AllPairs : AllPairs IsClear (as_moves alloc (transfers "loop" "loop" (shift_block ∷ [])))
unfolding incoming_on vop_str op_str
shift-AllPairs = (((refl, refl), tt), (tt, tt))

emit_phi_copies_for_edge_lem_example :
    run (emit_phi_copies_for_edge (shift_block ∷ []) "loop" "loop" alloc) start (machine 4)
    ≡ parallel (as_moves alloc (transfers "loop" "loop" (shift_block ∷ []))) start (machine 4)
emit_phi_copies_for_edge_lem_example =
    emit_phi_copies_for_edge_lem alloc (shift_block ∷ []) "loop" "loop" start shift-AllPairs
      (machine 4)

transfers_test : transfers "loop" "loop" (shift_block ∷ []) ≡ (pos 0, reg 1) ∷ (pos 2, num 9) ∷ []
unfolding incoming_on
transfers_test = refl

-- Two phis that exchange their registers: both end with the value of the register 1.
abbrev swap_block : Block
swap_block = block "loop" (phi 0 (num 1) (reg 1) ∷ phi 1 (num 2) (reg 0) ∷ [])

swap_test :
    (run
        (emit_phi_copies_for_edge (swap_block ∷ []) "loop" "loop" alloc)
        start
        (vop_str (pos 0) alloc)
      ≡ pos 5)
    × (run
          (emit_phi_copies_for_edge (swap_block ∷ []) "loop" "loop" alloc)
          start
          (vop_str (pos 1) alloc)
        ≡ pos 5)
unfolding emit_phi_copies_for_edge block_moves phi_moves side_moves copy_moves vop_str put
swap_test = (refl, refl)

-- The registers 4 and 5 of the pool are %rbx and %r12, of which %rbx alone is pushed, for the second.
pushed_test : pushed alloc ≡ "%rbx" ∷ []
pushed_test = refl

rbx_test : pushed (record alloc { reg_of = pos 4 ∷ [] }) ≡ []
rbx_test = refl
