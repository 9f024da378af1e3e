-- ===== src/Backend/Dispatch/Table.antt =====
-- src/backend/backend.c: the dispatch follows the table of the targets.
use Prim.Native.String.{String}
use text.Mathlib.Text.{◌==◌ as str_eq}
use mini_asm.Base.{◌≡◌, refl, some, Bool-cases, inl, inr, List, [], ◌∷◌, if◌then◌else◌}
use mini_asm.Base.Int.{ℤ}
use mini_asm.Ir.{Module}
use mini_asm.Opt.Run.{ir_optimize}
use mini_asm.Opt.Run.Total.{ir_optimize_total}
use mini_asm.Backend.Dispatch.{
  TargetDesc, target_x86, target_x86_64, target_arm, target_arm64, target_riscv, backend_lookup,
  Emitter, Emitters, not_emitted, emit_for, target_emit_dispatch,
}

-- Each target with its emitter.
abbrev pub table : Emitters → List (TargetDesc × Emitter)
table es =
    (target_x86, es.x86_emit)
    ∷ (target_x86_64, es.x86_64_emit)
    ∷ (target_arm, es.arm_emit)
    ∷ (target_arm64, es.arm64_emit)
    ∷ (target_riscv, es.riscv_emit)
    ∷ []

-- What the first entry of a name emits.
abbrev pub emit_named : List (TargetDesc × Emitter) → String → Module → ℤ × String
emit_named [] n m = not_emitted
emit_named (e ∷ es) n m = if str_eq n e.0.name then e.1 m e.0 else emit_named es n m

lookup-named :
    (es : Emitters) (m : Module) (n : String)
    → emit_for es m (backend_lookup (some n)) ≡ emit_named (table es) n m
unfolding backend_lookup emit_for
lookup-named es m n = elim (Bool-cases (str_eq n "x86")) [
  | inl a ↦ rw a
  | inr a ↦ elim (Bool-cases (str_eq n "x86_64")) [
    | inl b ↦ rw (a, b)
    | inr b ↦ elim (Bool-cases (str_eq n "arm")) [
      | inl c ↦ rw (a, b, c)
      | inr c ↦ elim (Bool-cases (str_eq n "arm64")) [
        | inl d ↦ rw (a, b, c, d)
        | inr d ↦ elim (Bool-cases (str_eq n "riscv")) [
          | inl e ↦ rw (a, b, c, d, e)
          | inr e ↦ rw (a, b, c, d, e)
        ]
      ]
    ]
  ]
]

-- For every emitters, level, module and name, the optimizer returns a module twice in a row, and the
-- dispatch on the target that the lookup finds returns what the emitter beside that name in the table
-- of targets makes of the second module and its description, and the code 1 with no text if the name is
-- not in the table.
pub target_emit_dispatch_lem :
    (es : Emitters) (level : ℤ) (m : Module) (n : String)
    → (once : Module) × (twice : Module) × (ir_optimize level m ≡ some once)
      × (ir_optimize level once ≡ some twice)
      × (target_emit_dispatch es level m (backend_lookup (some n))
          ≡ some (emit_named (table es) n twice))
unfolding target_emit_dispatch
target_emit_dispatch_lem es level m n =
    let (once, e) = ir_optimize_total level m in
    let (twice, k) = ir_optimize_total level once in
    (once, twice, e, k, rw (e, k, lookup-named es twice n) refl)
