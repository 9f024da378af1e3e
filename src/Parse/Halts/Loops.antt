-- ===== src/Parse/Halts/Loops.antt =====
-- src/ir/ir_parse.c: the writes to the module halt, and so do the tables, the types and the loops over fields, arguments
-- and parameters, which read something in each round.
use Prim.Native.String.{String}
use mini_asm.Base.{
  ℕ, zero, suc, ◌<◌, ◌≡◌, List, [], ◌∷◌, ◌++◌, Bool, true, false, Option, none, some, length, ◌==◌,
  leb, Bool-cases, Option-cases, inl, inr, arith, if◌then◌else◌,
}
use mini_asm.Base.Int.{ℤ}
use mini_asm.Ir.{Opcode, Instr}
use mini_asm.Builder.State.{block_at}
use mini_asm.Builder.Layout.{IrType}
use mini_asm.Parse.State.{Parse, ◌>>=◌, ◌>>◌, ret, word, filled, fgetc, emit, edit, TypeCell}
use mini_asm.Parse.Names.{
  sym_lookup, type_lookup, type_define, sym_add, sym_intern, numbered_reg, named_reg,
}
use mini_asm.Parse.Types.{
  new_type, type_at, other_ty, or_i32, lookup_ty, lookup_word, next_field, field_step, read_fields,
  fuel_here, shapes_of,
}
use mini_asm.Parse.Halts.{
  left, Halts, Within, WithinAt, EatsAt, ret-Halts, bind-Halts, bind-EatsAt, Halts-Within, eat_then,
}
use mini_asm.Parse.Halts.Words.{word-Halts, filled-Halts, fgetc-EatsAt, word-EatsAt, peek_then}

-- A choice between two parts that halt.
pub if-Halts :
    {A : Type 0} (c : Bool) (m k : Parse A) → Halts m → Halts k → Halts (if c then m else k)
if-Halts true m k g h = g
if-Halts false m k g h = h

pub emit-Halts : (o : Opcode) (t : ℕ) (a0 a1 a2 a3 : ℤ) (n : ℕ) → Halts (emit o t a0 a1 a2 a3 n)
unfolding emit
emit-Halts o t a0 a1 a2 a3 n p = elim (Option-cases p.cur_block) [
  | inl e ↦ rw (emit, e) (λ x. cc)
  | inr (b, e) ↦ elim (Option-cases (block_at p.m b)) [
    | inl f ↦ rw (emit, e, f) (λ x. cc)
    | inr (blk, f) ↦ rw (emit, e, f) (omega arith)
  ]
]

pub edit-Halts : (ix : ℕ) (g : Instr → Instr) → Halts (edit ix g)
unfolding edit
edit-Halts ix g p = elim (Option-cases p.cur_block) [
  | inl e ↦ rw (edit, e) (λ x. cc)
  | inr (b, e) ↦ elim (Option-cases (block_at p.m b)) [
    | inl f ↦ rw (edit, e, f) (λ x. cc)
    | inr (blk, f) ↦ rw (edit, e, f) (omega arith)
  ]
]

pub new_type-Halts : (c : TypeCell) → Halts (new_type c)
unfolding new_type
new_type-Halts c p = omega arith

pub type_at-Halts : (t : ℕ) → Halts (type_at t)
unfolding type_at
type_at-Halts t p = omega arith

type_lookup-Halts : (n : String) → Halts (type_lookup n)
unfolding type_lookup
type_lookup-Halts n p = omega arith

pub type_define-Halts : (n : String) (t : ℕ) → Halts (type_define n t)
unfolding type_define
type_define-Halts n t p = elim (Bool-cases (leb 128 (length p.g_types))) [
  | inl e ↦ rw (type_define, e) (omega arith)
  | inr e ↦ rw (type_define, e) (omega arith)
]

or_i32-Halts : (o : Option ℕ) → Halts (or_i32 o)
or_i32-Halts none = new_type-Halts _
or_i32-Halts (some t) = ret-Halts t

other_ty-Halts : (n : String) (o : Option IrType) → Halts (other_ty n o)
unfolding other_ty
other_ty-Halts n none = search (bind-Halts, type_lookup-Halts, or_i32-Halts)
other_ty-Halts n (some k) = search new_type-Halts

pub lookup_ty-Halts : (n : String) → Halts (lookup_ty n)
unfolding lookup_ty
lookup_ty-Halts n = search (if-Halts, ret-Halts, other_ty-Halts)

pub sym_intern-Halts : (n : String) → Halts (sym_intern n)
unfolding sym_intern sym_add
sym_intern-Halts n p = elim (Option-cases (sym_lookup n p)) [
  | inl e ↦ elim (Bool-cases (leb 1024 (length p.symtab))) [
    | inl f ↦ rw (sym_intern, e, sym_add, f) (omega arith)
    | inr f ↦ rw (sym_intern, e, sym_add, f) (omega arith)
  ]
  | inr (v, e) ↦ rw (sym_intern, e) (omega arith)
]

numbered_reg-Halts : (v : ℤ) → Halts (numbered_reg v)
unfolding numbered_reg
numbered_reg-Halts v p = omega arith

pub named_reg-Halts : (b : String) → Halts (named_reg b)
unfolding named_reg
named_reg-Halts b = search (if-Halts, bind-Halts, ret-Halts, numbered_reg-Halts, sym_intern-Halts)

pub buffer-EatsAt : (size : ℕ) → EatsAt (word size >>= filled)
buffer-EatsAt size = bind-EatsAt (word size) filled (word-EatsAt size) filled-Halts

pub lookup_word-EatsAt : (size : ℕ) → EatsAt (lookup_word size)
unfolding lookup_word
lookup_word-EatsAt size =
    bind-EatsAt (word size) _ (word-EatsAt size)
      (λ w. bind-Halts (filled w) lookup_ty (filled-Halts w) lookup_ty-Halts)

pub lookup_word-Halts : (size : ℕ) → Halts (lookup_word size)
unfolding lookup_word
lookup_word-Halts size =
    bind-Halts (word size) _ (word-Halts size)
      (λ w. bind-Halts (filled w) lookup_ty (filled-Halts w) lookup_ty-Halts)

pub shapes_of-Halts : (ts : List ℕ) → Halts (shapes_of ts)
unfolding shapes_of
shapes_of-Halts ts p = omega arith

-- A loop whose fuel is more than the bytes left.
pub fuel_then :
    {B : Type 0} (loop : ℕ → Parse B)
    → ((k n : ℕ) → n < k → Within n (loop k))
    → Halts (fuel_here >>= loop)
unfolding fuel_here
fuel_then loop h p = h (suc (left p)) (left p) (omega arith) p (omega arith)

next_field-Within :
    (n : ℕ) (again : List ℕ → Parse (List ℕ)) (fs : List ℕ) (t : ℕ)
    → ((gs : List ℕ) → Within n (again gs))
    → Within n (next_field again fs t)
unfolding next_field
next_field-Within n again fs t h = elim (Bool-cases (leb 15 (length fs))) [
  | inl e ↦ rw (next_field, e) (Halts-Within n (ret (fs ++ t ∷ [])) (ret-Halts (fs ++ t ∷ [])))
  | inr e ↦ rw (next_field, e) (h _)
]

-- The byte after a peek closes the loop, is a comma, or starts a word.
pub three_ways :
    {A : Type 0} (n : ℕ) (c d : Bool) (m k l : Parse A)
    → WithinAt n m
    → WithinAt n k
    → WithinAt n l
    → WithinAt n (elim c [ true ↦ m | false ↦ elim d [ true ↦ k | false ↦ l ] ])
three_ways n true d m k l f g h = f
three_ways n false true m k l f g h = g
three_ways n false false m k l f g h = h

pub ret_Within : {A : Type 0} (n : ℕ) (a : A) → Within n (ret a)
ret_Within n a = Halts-Within n (ret a) (ret-Halts a)

-- A part that reads the byte peeked, and the rest of a loop on fewer bytes.
pub fgetc_then :
    {B : Type 0} (n : ℕ) (m : Parse B)
    → ((j : ℕ) → n ≡ suc j → Within j m)
    → WithinAt n (fgetc >> m)
fgetc_then n m h = eat_then n fgetc (λ u. m) fgetc-EatsAt (λ u. h)

field_step-WithinAt :
    (n : ℕ) (again : List ℕ → Parse (List ℕ)) (fs : List ℕ) (c : ℕ)
    → ((gs : List ℕ) (j : ℕ) → n ≡ suc j → Within j (again gs))
    → WithinAt n (field_step again fs (some c))
unfolding field_step
field_step-WithinAt n again fs c h =
    three_ways n (c == b'}') (c == b',') (fgetc >> ret fs) (fgetc >> again fs)
      (lookup_word 64 >>= next_field again fs) (fgetc_then n (ret fs) (λ j e. ret_Within j fs))
      (fgetc_then n (again fs) (h fs))
      (eat_then n (lookup_word 64) (next_field again fs) (lookup_word-EatsAt 64)
        (λ t j e. next_field-Within j again fs t (λ gs. h gs j e)))

pub read_fields-Within : (k n : ℕ) (fs : List ℕ) → n < k → Within n (read_fields k fs)
unfolding read_fields field_step
read_fields-Within zero n fs h = absurd (omega arith)
read_fields-Within (suc k) n fs h =
    peek_then n (field_step (λ gs. read_fields k gs) fs) (ret_Within n fs) (λ c.
      field_step-WithinAt n (λ gs. read_fields k gs) fs c
        (λ gs j e. read_fields-Within k j gs (omega (arith, e, h))))
