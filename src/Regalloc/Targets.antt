-- ===== src/Regalloc/Targets.antt =====
-- src/backend/regalloc.c: TargetRegInfo, the pools of the five targets and the register names.
-- `g_target` is an argument; `none` is NULL.
use Prim.Native.String.{String}
use mini_asm.Base.{ℕ, zero, suc, List, [], ◌∷◌, Option, none, some, ltb, if◌then◌else◌}
use mini_asm.Base.Int.{ℤ, pos, negsuc}

pub record TargetRegInfo : Type 0 where
  pub names : List String
  pub nregs : ℕ
  pub n_caller_saved : ℕ

abbrev pub x86_64_reginfo : TargetRegInfo
x86_64_reginfo = record {
  names = "%rsi" ∷ "%rdi" ∷ "%r8" ∷ "%r9" ∷ "%rbx" ∷ "%r12" ∷ "%r13" ∷ "%r14" ∷ "%r15" ∷ [];
  nregs = 9;
  n_caller_saved = 4;
}

abbrev pub arm64_reginfo : TargetRegInfo
arm64_reginfo = record {
  names = "x12" ∷ "x13" ∷ "x14" ∷ "x19" ∷ "x20" ∷ "x21" ∷ "x22" ∷ "x23" ∷ [];
  nregs = 8;
  n_caller_saved = 3;
}

abbrev pub riscv_reginfo : TargetRegInfo
riscv_reginfo = record {
  names = "t2" ∷ "t3" ∷ "t4" ∷ "t5" ∷ "s1" ∷ "s2" ∷ "s3" ∷ "s4" ∷ "s5" ∷ [];
  nregs = 9;
  n_caller_saved = 4;
}

abbrev pub x86_reginfo : TargetRegInfo
x86_reginfo = record { names = "%ebx" ∷ "%esi" ∷ "%edi" ∷ []; nregs = 3; n_caller_saved = 0 }

abbrev pub arm_reginfo : TargetRegInfo
arm_reginfo = record {
  names = "r4" ∷ "r5" ∷ "r6" ∷ "r7" ∷ "r8" ∷ "r9" ∷ "r10" ∷ "r11" ∷ [];
  nregs = 8;
  n_caller_saved = 0;
}

-- `g_target ? g_target : &x86_64_reginfo`.
abbrev pub target_or_default : Option TargetRegInfo → TargetRegInfo
target_or_default none = x86_64_reginfo
target_or_default (some info) = info

-- `info->names[idx]`.
abbrev pub name_at : List String → ℕ → Option String
name_at [] i = none
name_at (n ∷ ns) zero = some n
name_at (n ∷ ns) (suc i) = name_at ns i

-- `(idx >= 0 && idx < info->nregs) ? info->names[idx] : NULL`.
unfoldable pub regalloc_regname_for : ℤ → Option TargetRegInfo → Option String
regalloc_regname_for (pos i) target =
    if ltb i (target_or_default target).nregs
    then name_at (target_or_default target).names i
    else none
regalloc_regname_for (negsuc i) target = none

unfoldable pub regalloc_nregs : Option TargetRegInfo → ℕ
regalloc_nregs target = (target_or_default target).nregs
