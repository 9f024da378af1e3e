-- ===== src/Builder/Layout.antt =====
-- src/ir/ir_builder.c, `type_size_align` and `ir_type_struct`. A type is the part of IRType that the layout
-- reads; sizes and offsets are `uint32_t`.
pub mod Mask
pub mod Fields
use mini_asm.Base.{ℕ, zero, suc, ◌+◌, ◌-◌, ◌%◌, List, [], ◌∷◌, ltb, if◌then◌else◌}
use mini_asm.Base.Int.{u32_mod}
use mini_asm.Base.Bits.{bitwise, and_bit}

-- IRTypeKind with the fields `size` and `align` of the two unions.
pub data IrType : Type 0 where
  ty_void ty_i1 ty_i8 ty_i16 ty_i32 ty_i64 ty_f32 ty_f64 ty_ptr ty_func : IrType
  ty_array : (size : ℕ) → IrType
  ty_struct : (size align : ℕ) → IrType

-- The first switch.
unfoldable pub type_align : IrType → ℕ
type_align ty_i8 = 1
type_align ty_i16 = 2
type_align ty_i32 = 4
type_align ty_f32 = 4
type_align ty_i64 = 8
type_align ty_f64 = 8
type_align ty_ptr = 8
type_align (ty_struct size align) = align
type_align (ty_array size) = 1
type_align _ = 4

-- The second switch.
unfoldable pub type_size : IrType → ℕ
type_size ty_i8 = 1
type_size ty_i16 = 2
type_size ty_i32 = 4
type_size ty_f32 = 4
type_size ty_i64 = 8
type_size ty_f64 = 8
type_size ty_ptr = 8
type_size (ty_struct size align) = size
type_size (ty_array size) = size
type_size _ = 4

-- `(off + a - 1) & ~(a - 1)` on `uint32_t`.
unfoldable pub round_up : ℕ → ℕ → ℕ
round_up off a =
    bitwise and_bit 32 ((off + a + (u32_mod - 1)) % u32_mod)
      (u32_mod - 1 - (a + (u32_mod - 1)) % u32_mod)

-- `off`, `max_align` and the offsets after the loop over the fields.
pub record Layout : Type 0 where
  pub off : ℕ
  pub max_align : ℕ
  pub offsets : List ℕ

unfoldable pub place_fields : ℕ → ℕ → List IrType → Layout
place_fields off m [] = record { off = off; max_align = m; offsets = [] }
place_fields off m (t ∷ ts) =
    let o = round_up off (type_align t) in
    let rest =
      place_fields ((o + type_size t) % u32_mod) (if ltb m (type_align t) then type_align t else m)
        ts in
    record rest { offsets = o ∷ rest.offsets }

-- The struct's type with the offsets of its fields.
unfoldable pub ir_type_struct : List IrType → IrType × List ℕ
ir_type_struct ts =
    let l = place_fields 0 1 ts in (ty_struct (round_up l.off l.max_align) l.max_align, l.offsets)
