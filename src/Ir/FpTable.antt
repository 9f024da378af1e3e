-- ===== src/Ir/FpTable.antt =====
-- src/ir/ir_fpimm.c: the table of floating-point immediates. A `double` is its bit pattern, 0.0 is 0. The
-- globals `g_tab` and `g_n` are a record.
use mini_asm.Base.{
  ℕ, ◌+◌, ◌<◌, ◌≡◌, ◌≢◌, refl, ◌∙◌, false, List, length, length-set, get_or, get_or-set_self,
  get_or-set_ne, set, replicate, leb, if◌then◌else◌, arith,
}
use mini_asm.Base.Int.{ℤ, pos, negsuc}

pub record FpTable : Type 0 where
  pub tab : List ℕ
  pub n : ℕ

abbrev pub ir_fpimm_max : ℕ
ir_fpimm_max = 4096

abbrev pub fp_table_new : FpTable
fp_table_new = record { tab = replicate ir_fpimm_max 0; n = 0 }

-- `if(i >= IR_FPIMM_MAX) i = IR_FPIMM_MAX - 1`.
unfoldable pub fp_slot : ℕ → ℕ
fp_slot i = if leb ir_fpimm_max i then 4095 else i

unfoldable pub ir_fpimm_add : FpTable → ℕ → FpTable × ℕ
ir_fpimm_add t d = (record { tab = set t.tab (fp_slot t.n) d; n = t.n + 1 }, fp_slot t.n)

unfoldable pub ir_fpimm_get : FpTable → ℤ → ℕ
ir_fpimm_get t (pos i) = if leb ir_fpimm_max i then 0 else get_or t.tab i 0
ir_fpimm_get t (negsuc i) = 0

unfoldable pub ir_fpimm_count : FpTable → ℕ
ir_fpimm_count t = t.n

abbrev pub IsTable : FpTable → Type 0
IsTable t = length t.tab ≡ ir_fpimm_max

fp_slot-lt : (i : ℕ) → fp_slot i < ir_fpimm_max
unfolding fp_slot
fp_slot-lt i = ground arith

below_max : (i : ℕ) → i < ir_fpimm_max → leb ir_fpimm_max i ≡ false
below_max i h = ground arith

get_new :
    (t : FpTable) (d : ℕ)
    → IsTable t
    → ir_fpimm_get (ir_fpimm_add t d).0 (pos (ir_fpimm_add t d).1) ≡ d
unfolding ir_fpimm_get ir_fpimm_add
get_new t d h =
    rw (below_max (fp_slot t.n) (fp_slot-lt t.n))
      (get_or-set_self t.tab (fp_slot t.n) d 0 (omega (arith, h, fp_slot-lt t.n)))

get_other :
    (t : FpTable) (d i : ℕ)
    → fp_slot t.n ≢ i
    → ir_fpimm_get (ir_fpimm_add t d).0 (pos i) ≡ ir_fpimm_get t (pos i)
unfolding ir_fpimm_get ir_fpimm_add
get_other t d i ne = rw (get_or-set_ne t.tab (fp_slot t.n) i d 0 ne) refl

slot_ne : (n i : ℕ) → n < ir_fpimm_max → i < n → fp_slot n ≢ i
unfolding fp_slot
slot_ne n i h l e = ground arith

-- While fewer than 4096 immediates were added, the next one is read back under the index returned,
-- those before it keep their values, and the table keeps its size and counts the new one.
pub ir_fpimm_add_lem :
    (t : FpTable) (d : ℕ)
    → IsTable t
    → ir_fpimm_count t < ir_fpimm_max
    → (ir_fpimm_get (ir_fpimm_add t d).0 (pos (ir_fpimm_add t d).1) ≡ d)
      × ((i : ℕ)
          → i < ir_fpimm_count t
          → ir_fpimm_get (ir_fpimm_add t d).0 (pos i) ≡ ir_fpimm_get t (pos i))
      × IsTable (ir_fpimm_add t d).0
      × (ir_fpimm_count (ir_fpimm_add t d).0 ≡ ir_fpimm_count t + 1)
unfolding ir_fpimm_add ir_fpimm_count
ir_fpimm_add_lem t d h room = (
  get_new t d h,
  (λ i l. get_other t d i (slot_ne t.n i room l)),
  length-set t.tab (fp_slot t.n) d ∙ h,
  refl,
)
