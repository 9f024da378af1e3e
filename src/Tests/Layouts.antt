-- ===== src/Tests/Layouts.antt =====
-- Struct layouts at concrete inputs.
use Prim.Native.Nat.{◌+◌, ◌%◌, ◌<◌}
use mini_asm.Base.{◌≡◌, refl, arith, List, [], ◌∷◌, All}
use mini_asm.Base.Bits.{bitwise}
use mini_asm.Builder.Layout.{
  IrType, ty_i8, ty_i32, ty_i64, ty_array, ty_struct, type_align, type_size, round_up, place_fields,
  ir_type_struct,
}
use mini_asm.Builder.Layout.Fields.{IsPowerAligned, IsLaidOut, room, ir_type_struct_lem}

abbrev fields : List IrType
fields = ty_i8 ∷ ty_i64 ∷ ty_i32 ∷ []

fields-All : All IsPowerAligned fields
unfolding type_align
fields-All = ((0, omega arith, refl), ((3, omega arith, refl), ((2, omega arith, refl), tt)))

fields-room : room fields + room fields + 1 < 4294967296
unfolding type_align type_size
fields-room = omega arith

ir_type_struct_lem_example :
    IsLaidOut 0 fields (ir_type_struct fields).1 (type_size (ir_type_struct fields).0)
    × (type_size (ir_type_struct fields).0 % type_align (ir_type_struct fields).0 ≡ 0)
    × IsPowerAligned (ir_type_struct fields).0
ir_type_struct_lem_example = ir_type_struct_lem fields fields-All fields-room

fields_test : ir_type_struct fields ≡ (ty_struct 24 8, 0 ∷ 8 ∷ 16 ∷ [])
unfolding ir_type_struct place_fields round_up bitwise type_align type_size
fields_test = refl

-- An array of 64-bit numbers after a byte starts at the offset 1.
array_test : ir_type_struct (ty_i8 ∷ ty_array 16 ∷ []) ≡ (ty_struct 17 1, 0 ∷ 1 ∷ [])
unfolding ir_type_struct place_fields round_up bitwise type_align type_size
array_test = refl
