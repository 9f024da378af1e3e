-- ===== src/Parse/Operand.antt =====
-- src/ir/ir_parse.c: operands, string literals and the emission of an instruction.
-- `tmp` is the list of its 16 slots. `strtod`, which reads a double, is a parameter.
use Prim.Native.Char.{code}
use Prim.Native.String.{String}
use text.Mathlib.Text.{◌==◌ as str_eq}
use mini_asm.Base.{
  ℕ, List, [], ◌∷◌, Option, none, some, Bool, true, false, set, replicate, ◌==◌, ◌||◌,
  if◌then◌else◌,
}
use mini_asm.Base.Int.{ℤ, pos, negsuc, to_int}
use mini_asm.Base.Text.{byte_at, has_byte, is_digit}
use mini_asm.Base.Numerals.{strtoll}
use mini_asm.Ir.{Opcode, Operand, absent, vreg, imm, label_arg, fp_imm, Instr, arg_at}
use mini_asm.Ir.FpTable.{ir_fpimm_add}
use mini_asm.Builder.State.{slot_number}
use mini_asm.Parse.State.{Parse, ok, ◌>>=◌, ◌>>◌, ret, word, emit, edit}
use mini_asm.Parse.Names.{named_reg}

-- `memset(&tmp,0,sizeof tmp)`.
abbrev pub no_args : List Operand
no_args = replicate 16 (absent (pos 0))

unfoldable pub fpimm : ℕ → Parse ℕ
unfolding ir_fpimm_add
fpimm d p = ok ((ir_fpimm_add p.fp d).1, record p { fp = (ir_fpimm_add p.fp d).0 })

-- The number in a word that is neither a register nor has a point.
abbrev pub int_of_word : String → ℤ
int_of_word b =
    if (byte_at b 0 == b'-') || is_digit (byte_at b 0) then to_int (strtoll b) else pos 0

-- The operand that a word is.
unfoldable pub read_operand : (String → ℕ) → String → Parse Operand
unfolding named_reg fpimm strtoll
read_operand strtod b =
    if byte_at b 0 == b'%'
    then (named_reg b >>= λ v. ret (vreg v))
    else if has_byte b'.' b
    then (fpimm (strtod b) >>= λ k. ret (fp_imm (pos k)))
    else ret (imm (int_of_word b))

-- The word of the operand: a comma before it is passed over.
abbrev pub past_comma : Option String → Parse (Option String)
past_comma none = ret none
past_comma (some b) = if str_eq b "," then word 64 else ret (some b)

unfoldable pub put_slot : (String → ℕ) → ℕ → List Operand → Option String → Parse (List Operand)
unfolding read_operand
put_slot strtod slot tmp none = ret tmp
put_slot strtod slot tmp (some b) = read_operand strtod b >>= λ o. ret (set tmp slot o)

unfoldable pub parse_operand : (String → ℕ) → ℕ → List Operand → Parse (List Operand)
unfolding word put_slot
parse_operand strtod slot tmp = word 64 >>= past_comma >>= put_slot strtod slot tmp

-- The tag of the one and the number of the other.
abbrev pub retag : Operand → Operand → Operand
retag (absent a) o = absent (slot_number o)
retag (vreg a) o = vreg (slot_number o)
retag (imm a) o = imm (slot_number o)
retag (label_arg a) o = label_arg (slot_number o)
retag (fp_imm a) o = fp_imm (slot_number o)

-- `e->kinds[i]=tmp->kinds[i]`.
abbrev pub retag_all : List Operand → List Operand → List Operand
retag_all [] os = os
retag_all (t ∷ ts) [] = []
retag_all (t ∷ ts) (o ∷ os) = retag t o ∷ retag_all ts os

-- `a[i]`.
abbrev pub slot_at : Option (List Operand) → ℕ → ℤ
slot_at none i = negsuc 0
slot_at (some tmp) i = slot_number (arg_at tmp i)

abbrev pub kinds_from : Option (List Operand) → List Operand → List Operand
kinds_from none os = os
kinds_from (some tmp) os = retag_all tmp os

-- The writes to the slots 4 and 5 fall past `nargs`, which is 2 at most.
unfoldable pub emit_op : Opcode → ℕ → Option (List Operand) → ℤ → ℕ → Parse ℕ
unfolding emit edit
emit_op o t tmp d n = do
  ix ← emit o t (slot_at tmp 0) (slot_at tmp 1) (slot_at tmp 2) (slot_at tmp 3) n
  edit ix (λ (e : Instr). record e { dst = d; args = kinds_from tmp e.args })
  ret ix

-- The byte that an escape stands for.
abbrev pub escaped : ℕ → ℕ
escaped e =
    if e == b'n'
    then 10
    else if e == b't'
    then 9
    else if e == b'r'
    then 13
    else if e == b'0'
    then 0
    else e

abbrev pub keep_byte : ℕ → List ℕ × String → List ℕ × String
keep_byte c r = (c ∷ r.0, r.1)

-- The loop of `read_string_literal`, after the opening quote; the flag says that a backslash was read. At the
-- end of the file an escape stands for (char)-1.
unfoldable pub read_chars : Bool → String → List ℕ × String
read_chars false String.[] = ([], "")
read_chars true String.[] = (255 ∷ [], "")
read_chars true (String.◌∷◌ c s) = keep_byte (escaped (code c)) (read_chars false s)
read_chars false (String.◌∷◌ c s) = elim (code c == b'"') [
  | true ↦ ([], s)
  | false ↦ elim (code c == b'\\') [
    | true ↦ read_chars true s
    | false ↦ keep_byte (code c) (read_chars false s)
  ]
]

-- `none` where the first byte is no quote, which is read all the same.
unfoldable pub read_string_literal : String → Option (List ℕ) × String
unfolding read_chars
read_string_literal String.[] = (none, "")
read_string_literal (String.◌∷◌ c s) =
    let r = read_chars false s in if code c == b'"' then (some r.0, r.1) else (none, s)
