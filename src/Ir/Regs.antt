-- ===== src/Ir/Regs.antt =====
-- Which registers the instructions of a function read and define.
use mini_asm.Base.{ℕ, Bool, false, ◌||◌, List, any_in}
use mini_asm.Base.Int.{pos, eq_ℤ}
use mini_asm.Ir.{Operand, vreg, Instr, Block}

-- The operand is the register `v`.
abbrev pub is_arg : ℕ → Operand → Bool
is_arg v (vreg w) = eq_ℤ w (pos v)
is_arg v _ = false

abbrev pub instr_uses : ℕ → Instr → Bool
instr_uses v i = any_in (is_arg v) i.args

abbrev pub block_uses : ℕ → Block → Bool
block_uses v b = any_in (instr_uses v) b.instrs

-- Some instruction reads the register `v`.
abbrev pub uses : ℕ → List Block → Bool
uses v = any_in (block_uses v)

abbrev pub instr_defines : ℕ → Instr → Bool
instr_defines v i = eq_ℤ i.dst (pos v)

abbrev pub block_defines : ℕ → Block → Bool
block_defines v b = any_in (instr_defines v) b.instrs

-- Some instruction defines the register `v`.
abbrev pub defines : ℕ → List Block → Bool
defines v = any_in (block_defines v)

abbrev pub instr_mentions : ℕ → Instr → Bool
instr_mentions v i = instr_defines v i || instr_uses v i

abbrev pub mentions : ℕ → List Block → Bool
mentions v = any_in (λ (b : Block). any_in (instr_mentions v) b.instrs)
