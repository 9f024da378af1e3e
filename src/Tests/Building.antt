-- ===== src/Tests/Building.antt =====
-- The builders of a module and the table of floating-point immediates at concrete inputs.
use mini_asm.Base.{ℕ, ◌≡◌, ◌<◌, ◌+◌, refl, [], ◌∷◌, length, length-replicate, arith}
use mini_asm.Base.Int.{pos}
use mini_asm.Ir.Build.{ir_module_new, ir_add_string, string_at, IsLabelled, ir_add_string_lem}
use mini_asm.Ir.FpTable.{
  ir_fpimm_max, fp_table_new, fp_slot, ir_fpimm_add, ir_fpimm_get, ir_fpimm_count, IsTable,
  ir_fpimm_add_lem,
}

new-IsLabelled : IsLabelled ir_module_new
unfolding ir_module_new
new-IsLabelled i h = absurd (omega arith)

ir_add_string_lem_example :
    ((string_at
        (ir_add_string ir_module_new (104 ∷ 105 ∷ [])).0
        (ir_add_string ir_module_new (104 ∷ 105 ∷ [])).1).bytes
      ≡ 104 ∷ 105 ∷ [])
    × ((i : ℕ)
        → i < length ir_module_new.strings
        → string_at (ir_add_string ir_module_new (104 ∷ 105 ∷ [])).0 i ≡ string_at ir_module_new i)
    × IsLabelled (ir_add_string ir_module_new (104 ∷ 105 ∷ [])).0
ir_add_string_lem_example = ir_add_string_lem ir_module_new (104 ∷ 105 ∷ []) new-IsLabelled

count_lt : ir_fpimm_count fp_table_new < ir_fpimm_max
unfolding ir_fpimm_count
count_lt = omega arith

ir_fpimm_add_lem_example :
    (ir_fpimm_get (ir_fpimm_add fp_table_new 7).0 (pos (ir_fpimm_add fp_table_new 7).1) ≡ 7)
    × ((i : ℕ)
        → i < ir_fpimm_count fp_table_new
        → ir_fpimm_get (ir_fpimm_add fp_table_new 7).0 (pos i) ≡ ir_fpimm_get fp_table_new (pos i))
    × IsTable (ir_fpimm_add fp_table_new 7).0
    × (ir_fpimm_count (ir_fpimm_add fp_table_new 7).0 ≡ ir_fpimm_count fp_table_new + 1)
ir_fpimm_add_lem_example =
    ir_fpimm_add_lem fp_table_new 7 (length-replicate {A = ℕ} 4096 0) count_lt

-- The 4097th immediate takes the place of the 4096th.
full_test : (ir_fpimm_add (record fp_table_new { n = 4096 }) 7).1 ≡ 4095
unfolding ir_fpimm_add fp_slot
full_test = refl
