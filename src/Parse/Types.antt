-- ===== src/Parse/Types.antt =====
-- src/ir/ir_parse.c: the types that words name, the layout of structs, and the declarations of types.
use Prim.Native.String.{String}
use text.Mathlib.Text.{◌==◌ as str_eq}
use mini_asm.Base.{
  ℕ, zero, suc, ◌+◌, ◌-◌, ◌*◌, ◌%◌, List, [], ◌∷◌, ◌++◌, map, Option, none, some, Bool, true, false,
  length, get_or, ltb, leb, ◌==◌, if◌then◌else◌,
}
use mini_asm.Base.Int.{u32_mod}
use mini_asm.Base.Text.{text_length}
use mini_asm.Base.Numerals.{strtoull}
use mini_asm.Builder.Layout.{
  IrType, ty_void, ty_i1, ty_i8, ty_i16, ty_i32, ty_i64, ty_f32, ty_f64, ty_ptr, ty_array,
  ty_struct, Layout, round_up,
}
use mini_asm.Parse.State.{
  Parser, Parse, ok, out_of_fuel, fault, ◌>>=◌, ◌>>◌, ret, TypeCell, plain_cell, void_addr, peekc,
  word, filled, fgetc,
}
use mini_asm.Parse.Names.{type_lookup, type_define}

-- `calloc` of a type.
unfoldable pub new_type : TypeCell → Parse ℕ
new_type c p = ok (suc (length p.types), record p { types = p.types ++ c ∷ [] })

-- The type at an address.
unfoldable pub cell_at : ℕ → Parser → TypeCell
cell_at t p = get_or p.types (t - 1) (plain_cell ty_void)

unfoldable pub type_at : ℕ → Parse TypeCell
unfolding cell_at
type_at t p = ok (cell_at t p, p)

abbrev pub is_aggregate_ty : IrType → Bool
is_aggregate_ty (ty_struct size align) = true
is_aggregate_ty (ty_array size) = true
is_aggregate_ty _ = false

abbrev pub agg_size : IrType → ℕ
agg_size (ty_struct size align) = size
agg_size (ty_array size) = size
agg_size _ = 0

-- The kinds that have a word.
unfoldable pub basic_kind : String → Option IrType
basic_kind n =
    if str_eq n "i1"
    then some ty_i1
    else if str_eq n "i8"
    then some ty_i8
    else if str_eq n "i16"
    then some ty_i16
    else if str_eq n "i32"
    then some ty_i32
    else if str_eq n "i64"
    then some ty_i64
    else if str_eq n "f32"
    then some ty_f32
    else if str_eq n "f64"
    then some ty_f64
    else if str_eq n "ptr"
    then some ty_ptr
    else none

-- A named type, or a new `i32`.
abbrev pub or_i32 : Option ℕ → Parse ℕ
or_i32 (some t) = ret t
or_i32 none = new_type (plain_cell ty_i32)

unfoldable pub other_ty : String → Option IrType → Parse ℕ
unfolding new_type type_lookup
other_ty n (some k) = new_type (plain_cell k)
other_ty n none = type_lookup n >>= or_i32

-- Each call for a basic type allocates a new one.
unfoldable pub lookup_ty : String → Parse ℕ
unfolding basic_kind other_ty
lookup_ty n = if str_eq n "void" then ret void_addr else other_ty n (basic_kind n)

unfoldable pub field_align : IrType → ℕ
field_align ty_i8 = 1
field_align ty_i16 = 2
field_align ty_i32 = 4
field_align ty_f32 = 4
field_align ty_i64 = 8
field_align ty_f64 = 8
field_align ty_ptr = 8
field_align (ty_struct size align) = align
field_align (ty_array size) = 1
field_align _ = 1

unfoldable pub field_size : IrType → ℕ
field_size ty_i8 = 1
field_size ty_i16 = 2
field_size ty_i32 = 4
field_size ty_f32 = 4
field_size ty_i64 = 8
field_size ty_f64 = 8
field_size ty_ptr = 8
field_size (ty_struct size align) = size
field_size (ty_array size) = size
field_size _ = 4

-- The loop of `layout_struct`.
unfoldable pub layout_fields : ℕ → ℕ → List IrType → Layout
unfolding field_align field_size round_up
layout_fields off m [] = record { off = off; max_align = m; offsets = [] }
layout_fields off m (f ∷ fs) =
    let o = round_up off (field_align f) in
    let rest =
      layout_fields ((o + field_size f) % u32_mod)
        (if ltb m (field_align f) then field_align f else m) fs in
    record rest { offsets = o ∷ rest.offsets }

unfoldable pub layout_struct : List IrType → TypeCell
unfolding layout_fields round_up
layout_struct fs =
    let l = layout_fields 0 1 fs in
    record {
      shape = ty_struct (round_up l.off l.max_align) l.max_align;
      elem_type = 0;
      offsets = l.offsets;
    }

unfoldable pub lookup_word : ℕ → Parse ℕ
unfolding word lookup_ty
lookup_word size = word size >>= λ w. filled w >>= lookup_ty

-- `fields[nf++]=…` and `if(nf>=16)break`.
unfoldable pub next_field : (List ℕ → Parse (List ℕ)) → List ℕ → ℕ → Parse (List ℕ)
next_field again fs t = elim (leb 15 (length fs)) [
  | true ↦ ret (fs ++ t ∷ [])
  | false ↦ again (fs ++ t ∷ [])
]

-- A round of the loop over the fields, at the byte peeked.
unfoldable pub field_step : (List ℕ → Parse (List ℕ)) → List ℕ → Option ℕ → Parse (List ℕ)
unfolding fgetc word lookup_ty next_field
field_step again fs none = ret fs
field_step again fs (some c) = elim (c == b'}') [
  | true ↦ fgetc >> ret fs
  | false ↦ elim (c == b',') [
    | true ↦ fgetc >> again fs
    | false ↦ lookup_word 64 >>= next_field again fs
  ]
]

-- The loop over the fields; the fuel is more than the bytes left.
unfoldable pub read_fields : ℕ → List ℕ → Parse (List ℕ)
unfolding peekc field_step
read_fields zero fs = fault out_of_fuel
read_fields (suc fuel) fs = peekc >>= field_step (λ gs. read_fields fuel gs) fs

-- The bytes left, and one more.
unfoldable pub fuel_here : Parse ℕ
fuel_here p = ok (suc (text_length p.input), p)

unfoldable pub shapes_of : List ℕ → Parse (List IrType)
unfolding cell_at
shapes_of ts p = ok (map (λ t. (cell_at t p).shape) ts, p)

unfoldable pub struct_fields : Parse (List ℕ)
unfolding fuel_here read_fields
struct_fields = fuel_here >>= λ n. read_fields n []

unfoldable pub parse_struct : Option String → Parse (Unit {0})
unfolding fgetc struct_fields shapes_of layout_struct new_type type_define
parse_struct tname = do
  fgetc
  ts ← struct_fields
  shapes ← shapes_of ts
  t ← new_type (layout_struct shapes)
  name ← filled tname
  type_define name t

-- "[ N ]", if it is there.
unfoldable pub close_bracket : Option ℕ → Parse (Unit {0})
unfolding fgetc
close_bracket none = ret tt
close_bracket (some c) = if c == b']' then fgetc else ret tt

unfoldable pub bracket_count : Parse ℕ
unfolding word peekc close_bracket strtoull
bracket_count = do nb ← word 32; n ← filled nb; q ← peekc; close_bracket q; ret (strtoull n)

unfoldable pub parse_count : Option ℕ → Parse ℕ
unfolding fgetc bracket_count
parse_count none = ret 0
parse_count (some c) = elim (c == b'[') [ true ↦ fgetc >> bracket_count | false ↦ ret 0 ]

-- The size of an element: a struct's, a basic type's, and 4 for any other.
unfoldable pub elem_bytes : IrType → ℕ
elem_bytes ty_i8 = 1
elem_bytes ty_i16 = 2
elem_bytes ty_i32 = 4
elem_bytes ty_f32 = 4
elem_bytes ty_i64 = 8
elem_bytes ty_f64 = 8
elem_bytes ty_ptr = 8
elem_bytes (ty_struct size align) = size
elem_bytes _ = 4

unfoldable pub parse_array : Option String → Parse (Unit {0})
unfolding word lookup_ty peekc parse_count type_at elem_bytes new_type type_define
parse_array tname = do
  el ← lookup_word 64
  q ← peekc
  cnt ← parse_count q
  e ← type_at el
  t ← new_type (record {
    shape = ty_array (cnt % u32_mod * elem_bytes e.shape % u32_mod);
    elem_type = el;
    offsets = [];
  })
  name ← filled tname
  type_define name t

unfoldable pub type_body : Option String → Option ℕ → Parse (Unit {0})
unfolding parse_struct parse_array
type_body tname none = parse_array tname
type_body tname (some c) = if c == b'{' then parse_struct tname else parse_array tname

unfoldable pub parse_type : Parse (Unit {0})
unfolding word peekc type_body
parse_type = do tname ← word 64; eq ← word 4; c ← peekc; type_body tname c
