-- ===== src/Builder/Named.antt =====
-- src/ir/ir_builder.c: array types and the table `g_named` of named types. A table entry holds the first 63
-- bytes of the name and the type's address.
use Prim.Native.String.{String}
use text.Mathlib.Text.{◌==◌ as str_eq}
use mini_asm.Base.{ℕ, ◌*◌, ◌%◌, List, [], ◌∷◌, ◌++◌, Option, none, some, length, leb, if◌then◌else◌}
use mini_asm.Base.Int.{u32_mod}
use mini_asm.Base.Text.{text_take}
use mini_asm.Builder.Layout.{IrType, ty_array, type_size}

-- The element type and `count`; the field `size` is what the layout reads.
unfoldable pub ir_type_array : IrType → ℕ → IrType
unfolding type_size
ir_type_array elem_type count = ty_array (count % u32_mod * type_size elem_type % u32_mod)

unfoldable pub ir_type_register : List (String × ℕ) → String → ℕ → List (String × ℕ)
ir_type_register ts name t = if leb 128 (length ts) then ts else ts ++ (text_take 63 name, t) ∷ []

unfoldable pub ir_type_named : List (String × ℕ) → String → Option ℕ
ir_type_named [] name = none
ir_type_named ((n, t) ∷ ts) name =
    let rest = ir_type_named ts name in if str_eq n name then some t else rest
