-- ===== src/Parse/State.antt =====
-- src/ir/ir_parse.c: the parser's globals and the stream as a state, and its faults.
-- The file is the text that is left. `M`, `F`, `B` and the tables are fields; F and B are indices. A
-- type is an address, from 1, into the list of the types allocated; the first two are Tvoid and I32. A buffer that
-- `word` did not fill, because the file ended, is `none`.
use Prim.Native.Char.{code}
use Prim.Native.String.{String}
use mini_asm.Base.{
  ℕ, ◌-◌, List, [], ◌∷◌, Option, none, some, Bool, true, false, ◌==◌, ◌||◌, update_at,
  if◌then◌else◌,
}
use mini_asm.Base.Int.{ℤ}
use mini_asm.Base.Text.{isspace, c_string}
use mini_asm.Ir.{Opcode, Instr, Module}
use mini_asm.Ir.Build.{ir_module_new, ir_emit}
use mini_asm.Ir.FpTable.{FpTable}
use mini_asm.Builder.Layout.{IrType, ty_void, ty_i32}
use mini_asm.Builder.State.{block_at, put_block}

-- A read or a write through NULL, a read of a buffer that was not filled or of an offset before the array,
-- and the fuel of a loop of this model.
pub data Fault : Type 0 where
  no_block no_func unset_buffer out_of_bounds out_of_fuel : Fault

pub data Result (A : Type 0) : Type 0 where
  ok : A → Result A
  err : Fault → Result A

-- An allocated IRType: `shape` has the kind and the sizes, `elem_type` an array's `elem`.
pub record TypeCell : Type 0 where
  pub shape : IrType
  pub elem_type : ℕ
  pub offsets : List ℕ

pub record Parser : Type 0 where
  pub input : String
  pub m : Module
  pub fp : FpTable
  pub types : List TypeCell
  pub g_types : List (String × ℕ)
  pub symtab : List (String × ℕ)
  pub next_user_vreg : ℕ
  pub cur_func : Option ℕ
  pub cur_block : Option (ℕ × ℕ)

abbrev pub Parse : Type 0 → Type 0
Parse A = Parser → Result (A × Parser)

infixl 5 ◌>>=◌ ◌>>◌
abbrev pub ◌>>=◌ : {A B : Type 0} → Parse A → (A → Parse B) → Parse B
◌>>=◌ m f p = elim (m p) [ err e ↦ err e | ok (a, p') ↦ f a p' ]

abbrev pub ◌>>◌ : {B : Type 0} → Parse (Unit {0}) → Parse B → Parse B
m >> k = m >>= λ _. k

abbrev pub ret : {A : Type 0} → A → Parse A
ret a p = ok (a, p)

abbrev pub fault : {A : Type 0} → Fault → Parse A
fault e p = err e

abbrev pub plain_cell : IrType → TypeCell
plain_cell k = record { shape = k; elem_type = 0; offsets = [] }

-- The addresses of Tvoid and I32.
abbrev pub void_addr : ℕ
void_addr = 1

abbrev pub i32_addr : ℕ
i32_addr = 2

-- A new process at the start of `parse`: the tables are empty, F and B are NULL.
unfoldable pub parser_new : FpTable → String → Parser
unfolding ir_module_new
parser_new t s = record {
  input = s;
  m = ir_module_new;
  fp = t;
  types = plain_cell ty_void ∷ plain_cell ty_i32 ∷ [];
  g_types = [];
  symtab = [];
  next_user_vreg = 0;
  cur_func = none;
  cur_block = none;
}

-- The loop of `peekc`, outside and inside a comment.
unfoldable pub skip_blanks : Bool → String → String
skip_blanks comment String.[] = ""
skip_blanks true (String.◌∷◌ c s) = elim (code c == b'\n') [
  | true ↦ skip_blanks false s
  | false ↦ skip_blanks true s
]
skip_blanks false (String.◌∷◌ c s) = elim ((code c == b'#') || (code c == b';')) [
  | true ↦ skip_blanks true s
  | false ↦ elim (isspace (code c)) [ true ↦ skip_blanks false s | false ↦ String.◌∷◌ c s ]
]

abbrev pub first_byte : String → Option ℕ
first_byte String.[] = none
first_byte (String.◌∷◌ c s) = some (code c)

-- `none` is EOF.
unfoldable pub peekc : Parse (Option ℕ)
unfolding skip_blanks
peekc p =
    ok (first_byte (skip_blanks false p.input), record p { input = skip_blanks false p.input })

-- The bytes that are words of their own.
abbrev pub is_delim : ℕ → Bool
is_delim c = (c == b'(') || (c == b')') || (c == b'{') || (c == b'}') || (c == b',') || (c == b'=')

-- The second loop of `word`, with the room left in the buffer: the bytes stored, and the rest of the file.
unfoldable pub read_token : ℕ → String → String × String
read_token room String.[] = ("", "")
read_token room (String.◌∷◌ c s) =
    let rest = read_token (room - 1) s in
    if isspace (code c) || is_delim (code c)
    then ("", String.◌∷◌ c s)
    else ((if room == 0 then "" else String.◌∷◌ c rest.0), rest.1)

-- The word at the front of a text that starts with no blank.
unfoldable pub take_word : ℕ → String → Option (String × String)
unfolding read_token
take_word size String.[] = none
take_word size (String.◌∷◌ c s) =
    some
      (if is_delim (code c) then (String.◌∷◌ c "", s) else read_token (size - 1) (String.◌∷◌ c s))

-- The buffer as a C string; `none` where `word` returns 0.
unfoldable pub word : ℕ → Parse (Option String)
unfolding skip_blanks take_word
word size p = elim (take_word size (skip_blanks false p.input)) [
  | none ↦ ok (none, record p { input = "" })
  | some (w, rest) ↦ ok (some (c_string w), record p { input = rest })
]

-- The use of a buffer.
abbrev pub filled : Option String → Parse String
filled none = fault unset_buffer
filled (some w) = ret w

-- `fgetc` of a byte that was peeked.
abbrev pub after_first : String → String
after_first String.[] = ""
after_first (String.◌∷◌ c s) = s

unfoldable pub fgetc : Parse (Unit {0})
fgetc p = ok (tt, record p { input = after_first p.input })

unfoldable pub emit : Opcode → ℕ → ℤ → ℤ → ℤ → ℤ → ℕ → Parse ℕ
unfolding ir_emit
emit o t a0 a1 a2 a3 n p = elim p.cur_block [
  | none ↦ err no_block
  | some b ↦ elim (block_at (p.m) b) [
    | none ↦ err no_block
    | some blk ↦ ok (
      (ir_emit blk o t a0 a1 a2 a3 n).1,
      record p { m = put_block p.m b (ir_emit blk o t a0 a1 a2 a3 n).0 },
    )
  ]
]

-- A write to `B->instrs[ix]`.
unfoldable pub edit : ℕ → (Instr → Instr) → Parse (Unit {0})
edit ix g p = elim p.cur_block [
  | none ↦ err no_block
  | some b ↦ elim (block_at (p.m) b) [
    | none ↦ err no_block
    | some blk ↦
        ok (
          tt,
          record p { m = put_block p.m b (record blk { instrs = update_at (blk.instrs) ix g }) },
        )
  ]
]
