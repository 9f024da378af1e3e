-- ===== src/Ir/Build.antt =====
-- src/ir/ir.c: the functions that build a module. Each returns the changed structure; `ir_emit` and
-- `ir_add_string` return the index too. Names are not NULL. The label ".Lstr_N" of a string is its number
-- N, and the byte 0 that the code puts after the `len` bytes is left out.
use Prim.Native.String.{String}
use mini_asm.Base.{
  ℕ, zero, suc, ◌<◌, ◌≡◌, refl, ap, ◌∙◌, List, [], ◌∷◌, ◌++◌, none, false, length, get_or,
  length-append, arith, replicate, lt_suc_cases, inl, inr,
}
use mini_asm.Base.Int.{ℤ, pos, negsuc}
use mini_asm.Ir.{Opcode, Operand, absent, Block, Func, StringLit, Module}

unfoldable pub ir_module_new : Module
ir_module_new = record { funcs = []; strings = [] }

unfoldable pub ir_add_string : Module → List ℕ → Module × ℕ
ir_add_string m bytes = (
  record m { strings = m.strings ++ record { label = length m.strings; bytes = bytes } ∷ [] },
  length m.strings,
)

-- `memset` to 0, then the name, the result type and no block.
unfoldable pub ir_func_new : Module → String → ℕ → Module
ir_func_new m n r = record m {
  funcs =
      m.funcs
      ++ record {
        name = n;
        ret = r;
        params = [];
        nparams = 0;
        blocks = [];
        nvregs = pos 0;
        nlocals = pos 0;
        vararg = false;
        va_list_off = pos 0;
        vararg_save_off = pos 0;
      }
        ∷ [];
}

unfoldable pub ir_block_new : Func → String → Func
ir_block_new f n = record f {
  blocks = f.blocks ++ record { name = n; instrs = []; nvregs = pos 0 } ∷ [];
}

abbrev pub take_args : ℕ → List Operand → List Operand
take_args zero os = []
take_args (suc n) [] = []
take_args (suc n) (o ∷ os) = o ∷ take_args n os

-- The first four slots are given, the others 0, and every tag is ARG_NONE.
unfoldable pub ir_emit : Block → Opcode → ℕ → ℤ → ℤ → ℤ → ℤ → ℕ → Block × ℕ
ir_emit b o t a0 a1 a2 a3 n = (
  record b {
    instrs =
        b.instrs
        ++ record {
          op = o;
          type = t;
          dst = negsuc 0;
          args =
              take_args n
                (absent a0 ∷ absent a1 ∷ absent a2 ∷ absent a3 ∷ replicate 12 (absent (pos 0)));
          pred = 0;
          callee = none;
          label = none;
          label2 = none;
        }
          ∷ [];
  },
  length b.instrs,
)

abbrev pub no_string : StringLit
no_string = record { label = 0; bytes = [] }

abbrev pub string_at : Module → ℕ → StringLit
string_at m i = get_or m.strings i no_string

-- The label of each string is its index.
abbrev pub IsLabelled : Module → Type 0
IsLabelled m = (i : ℕ) → i < length m.strings → (string_at m i).label ≡ i

get_or-append_old :
    {A : Type 0} (xs ys : List A) (i : ℕ) (d : A)
    → i < length xs
    → get_or (xs ++ ys) i d ≡ get_or xs i d
get_or-append_old [] ys i d h = absurd (omega arith)
get_or-append_old (x ∷ xs) ys zero d h = refl
get_or-append_old (x ∷ xs) ys (suc i) d h = get_or-append_old xs ys i d (omega arith)

get_or-append_new : {A : Type 0} (xs : List A) (y d : A) → get_or (xs ++ y ∷ []) (length xs) d ≡ y
get_or-append_new [] y d = refl
get_or-append_new (x ∷ xs) y d = get_or-append_new xs y d

label_new : (m : Module) (bytes : List ℕ) → IsLabelled m → IsLabelled (ir_add_string m bytes).0
unfolding ir_add_string
label_new m bytes h i lt =
    elim (lt_suc_cases i (length m.strings) (
      omega (
        arith,
        lt,
        length-append m.strings (record { label = length m.strings; bytes = bytes } ∷ []),
      ))) [
        | inl l ↦
            ap (λ (s : StringLit). s.label) (get_or-append_old m.strings _ i no_string l) ∙ h i l
        | inr e ↦ rw e (
            ap (λ (s : StringLit). s.label)
              (get_or-append_new m.strings (record { label = length m.strings; bytes = bytes })
                no_string))
      ]

-- In a module where each string's label is its index, an added string is found under the index
-- returned, the strings before it stay where they are, and each label is still the index.
pub ir_add_string_lem :
    (m : Module) (bytes : List ℕ)
    → IsLabelled m
    → ((string_at (ir_add_string m bytes).0 (ir_add_string m bytes).1).bytes ≡ bytes)
      × ((i : ℕ) → i < length m.strings → string_at (ir_add_string m bytes).0 i ≡ string_at m i)
      × IsLabelled (ir_add_string m bytes).0
unfolding ir_add_string
ir_add_string_lem m bytes h = (
  ap (λ (s : StringLit). s.bytes)
      (get_or-append_new m.strings (record { label = length m.strings; bytes = bytes }) no_string),
  (λ i l. get_or-append_old m.strings _ i no_string l),
  label_new m bytes h,
)
