-- ===== src/Backend/Dispatch.antt =====
-- src/backend/backend.c and the target descriptions of src/targets/*/abi.c. The five emitters are parameters: what
-- they return and print. The dump of CC_DUMP_IR only prints.
pub mod Table
use Prim.Native.String.{String}
use text.Mathlib.Text.{◌==◌ as str_eq}
use mini_asm.Base.{ℕ, Option, none, some, Bool, true, false, if◌then◌else◌}
use mini_asm.Base.Int.{ℤ, pos}
use mini_asm.Ir.{Module}
use mini_asm.Opt.Run.{◌>>=◌, ir_optimize}

pub record TargetDesc : Type 0 where
  pub name : String
  pub triple : String
  pub assembler : String
  pub obj_ext : String
  pub linker : String
  pub ptr_size : ℕ
  pub stack_align : ℕ
  pub little : Bool

abbrev pub target_x86 : TargetDesc
target_x86 = record {
  name = "x86";
  triple = "i386-linux-gnu";
  assembler = "as --32";
  obj_ext = ".o";
  linker = "ld -m elf_i386";
  ptr_size = 4;
  stack_align = 16;
  little = true;
}

abbrev pub target_x86_64 : TargetDesc
target_x86_64 = record {
  name = "x86_64";
  triple = "x86_64-linux-gnu";
  assembler = "as --64";
  obj_ext = ".o";
  linker = "ld";
  ptr_size = 8;
  stack_align = 16;
  little = true;
}

abbrev pub target_arm : TargetDesc
target_arm = record {
  name = "arm";
  triple = "arm-linux-gnueabihf";
  assembler = "arm-linux-gnueabihf-as";
  obj_ext = ".o";
  linker = "arm-linux-gnueabihf-ld";
  ptr_size = 4;
  stack_align = 8;
  little = true;
}

abbrev pub target_arm64 : TargetDesc
target_arm64 = record {
  name = "arm64";
  triple = "aarch64-linux-gnu";
  assembler = "aarch64-linux-gnu-as";
  obj_ext = ".o";
  linker = "aarch64-linux-gnu-ld";
  ptr_size = 8;
  stack_align = 16;
  little = true;
}

abbrev pub target_riscv : TargetDesc
target_riscv = record {
  name = "riscv";
  triple = "riscv64-linux-gnu";
  assembler = "riscv64-linux-gnu-as";
  obj_ext = ".o";
  linker = "riscv64-linux-gnu-ld";
  ptr_size = 8;
  stack_align = 16;
  little = true;
}

unfoldable pub backend_lookup : Option String → Option TargetDesc
backend_lookup none = none
backend_lookup (some n) =
    if str_eq n "x86"
    then some target_x86
    else if str_eq n "x86_64"
    then some target_x86_64
    else if str_eq n "arm"
    then some target_arm
    else if str_eq n "arm64"
    then some target_arm64
    else if str_eq n "riscv"
    then some target_riscv
    else none

-- The code that an emitter returns, and the text it writes.
abbrev pub Emitter : Type 0
Emitter = Module → TargetDesc → ℤ × String

pub record Emitters : Type 0 where
  pub x86_emit : Emitter
  pub x86_64_emit : Emitter
  pub arm_emit : Emitter
  pub arm64_emit : Emitter
  pub riscv_emit : Emitter

-- `return 1` with nothing written.
abbrev pub not_emitted : ℤ × String
not_emitted = (pos 1, "")

-- `if(!t)return 1;` and the tests of the name.
unfoldable pub emit_for : Emitters → Module → Option TargetDesc → ℤ × String
emit_for es m none = not_emitted
emit_for es m (some t) =
    if str_eq t.name "x86"
    then es.x86_emit m t
    else if str_eq t.name "x86_64"
    then es.x86_64_emit m t
    else if str_eq t.name "arm"
    then es.arm_emit m t
    else if str_eq t.name "arm64"
    then es.arm64_emit m t
    else if str_eq t.name "riscv"
    then es.riscv_emit m t
    else not_emitted

unfoldable pub target_emit_dispatch :
    Emitters → ℤ → Module → Option TargetDesc → Option (ℤ × String)
target_emit_dispatch es level m t = do
  once ← ir_optimize level m
  twice ← ir_optimize level once
  some (emit_for es twice t)
