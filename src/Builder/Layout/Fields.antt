-- ===== src/Builder/Layout/Fields.antt =====
-- On the offsets and the size of `ir_type_struct`, src/ir/ir_builder.c.
use Prim.Native.Nat.{ℕ, ◌+◌, ◌%◌, ◌^◌, ◌≤◌, ◌<◌}
use native.Mathlib.Nat.{mod-eq_of_lt}
use mini_asm.Base.{
  ◌≡◌, refl, sym, ap, arith, List, [], ◌∷◌, ltb, if◌then◌else◌, All, Bool, true, false,
}
use mini_asm.Base.Int.{u32_mod}
use mini_asm.Builder.Layout.{IrType, type_align, type_size, round_up, place_fields, ir_type_struct}
use mini_asm.Builder.Layout.Mask.{round_up_lem}

-- The alignment is a power of two below 2 ^ 32.
abbrev pub IsPowerAligned : IrType → Type 0
IsPowerAligned t = (l : ℕ) × (l < 32) × (type_align t ≡ 2 ^ l)

-- Room for every field and the padding before it.
abbrev pub room : List IrType → ℕ
room [] = 0
room (t ∷ ts) = type_align t + type_size t + room ts

-- From `lo` on each field starts at a multiple of its alignment, after the one before; the last ends at
-- `hi` or before.
abbrev pub IsLaidOut : ℕ → List IrType → List ℕ → ℕ → Type 0
IsLaidOut lo [] [] hi = lo ≤ hi
IsLaidOut lo (t ∷ ts) (o ∷ os) hi =
    (lo ≤ o) × (o % type_align t ≡ 0) × IsLaidOut (o + type_size t) ts os hi
IsLaidOut lo _ _ hi = ⊥

IsLaidOut-weaken :
    (lo : ℕ) (ts : List IrType) (os : List ℕ) (hi hi' : ℕ)
    → hi ≤ hi'
    → IsLaidOut lo ts os hi
    → IsLaidOut lo ts os hi'
IsLaidOut-weaken lo [] [] hi hi' le h = omega arith
IsLaidOut-weaken lo (t ∷ ts) (o ∷ os) hi hi' le h =
    (h.0, h.1, IsLaidOut-weaken (o + type_size t) ts os hi hi' le h.2)
IsLaidOut-weaken lo [] (o ∷ os) hi hi' le h = absurd h
IsLaidOut-weaken lo (t ∷ ts) [] hi hi' le h = absurd h

place_fields-IsLaidOut :
    (ts : List IrType) (off m : ℕ)
    → All IsPowerAligned ts
    → off + room ts < u32_mod
    → IsLaidOut off ts (place_fields off m ts).offsets (place_fields off m ts).off
      × ((place_fields off m ts).off ≤ off + room ts)
unfolding place_fields
place_fields-IsLaidOut [] off m h fits = (omega arith, omega arith)
place_fields-IsLaidOut (t ∷ ts) off m (p, ps) fits =
    let (l, small, e) = p in
    let (above, below, multiple) = round_up_lem off l small (omega (arith, e)) in
    let o = round_up off (type_align t) in
    let same : round_up off (2 ^ l) ≡ o = ap (round_up off) (sym e) in
    let next : (o + type_size t) % u32_mod ≡ o + type_size t =
      mod-eq_of_lt (omega (arith, below, same, e)) in
    let (rest, bound) =
      place_fields-IsLaidOut ts (o + type_size t) (if ltb m (type_align t) then type_align t else m)
        ps (omega (arith, below, same, e)) in
    rw next
      ((omega (arith, above, same), rw (e) multiple, rest), omega (arith, bound, below, same, e))

-- A power of two below 2 ^ 32.
abbrev IsPower : ℕ → Type 0
IsPower a = (l : ℕ) × (l < 32) × (a ≡ 2 ^ l)

wider-IsPower : (m a : ℕ) (b : Bool) → IsPower m → IsPower a → IsPower (if b then a else m)
wider-IsPower m a true h k = k
wider-IsPower m a false h k = h

wider-le : (m a : ℕ) (b : Bool) → (if b then a else m) ≤ m + a
wider-le m a true = omega arith
wider-le m a false = omega arith

max_align-IsPower :
    (ts : List IrType) (off m : ℕ)
    → All IsPowerAligned ts
    → IsPower m
    → IsPower (place_fields off m ts).max_align × ((place_fields off m ts).max_align ≤ m + room ts)
unfolding place_fields
max_align-IsPower [] off m h p = (p, omega arith)
max_align-IsPower (t ∷ ts) off m (h, hs) p =
    let a = type_align t in
    let (power, bound) =
      max_align-IsPower ts ((round_up off a + type_size t) % u32_mod) (if ltb m a then a else m) hs
        (wider-IsPower m a (ltb m a) p h) in
    (power, omega (arith, bound, wider-le m a (ltb m a)))

-- For fields with alignments that are powers of two, with room in 32 bits, each field of the struct
-- starts at a multiple of its alignment, after the one before, and ends inside the struct's size; the
-- size is a multiple of the struct's alignment, which is a power of two.
pub ir_type_struct_lem :
    (ts : List IrType)
    → All IsPowerAligned ts
    → room ts + room ts + 1 < u32_mod
    → IsLaidOut 0 ts (ir_type_struct ts).1 (type_size (ir_type_struct ts).0)
      × (type_size (ir_type_struct ts).0 % type_align (ir_type_struct ts).0 ≡ 0)
      × IsPowerAligned (ir_type_struct ts).0
unfolding ir_type_struct type_size type_align
ir_type_struct_lem ts h fits =
    let (laid, bound) = place_fields-IsLaidOut ts 0 1 h (omega (arith, fits)) in
    let ((l, small, e), most) = max_align-IsPower ts 0 1 h (0, omega arith, refl) in
    let r = place_fields 0 1 ts in
    let (above, below, multiple) =
      round_up_lem r.off l small (omega (arith, e, bound, most, fits)) in
    let same : round_up r.off (2 ^ l) ≡ round_up r.off r.max_align = ap (round_up r.off) (sym e) in
    (
      IsLaidOut-weaken 0 ts r.offsets r.off (round_up r.off r.max_align)
          (omega (arith, above, same)) laid,
      rw e multiple,
      (l, small, e),
    )
