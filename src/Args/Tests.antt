-- ===== src/Args/Tests.antt =====
-- syscall.c on a process of 64 bytes, and the theorems at inputs that meet their hypotheses.
use cse3320_proj1_ahmed_bahb.Common.{
  ◌+◌, ◌-◌, ◌^◌, ◌&&◌, ◌≤◌, ◌<◌, ◌≡◌, refl, ◌↔◌, none, some, ltb, ◌==◌, if◌then◌else◌, arith,
}
use cse3320_proj1_ahmed_bahb.Args.{
  User, fetchint, argint, check_range, argptr, fetchstr, scan, argstr,
}
use cse3320_proj1_ahmed_bahb.Args.Words.{argptr-eq-some_iff, argptr_negative_lem}
use cse3320_proj1_ahmed_bahb.Args.Text.{FirstNul, argstr-eq-some_iff}

-- The stack is at 40: a return address, the pointer 16 and the int -8. The string "a" is at 16.
abbrev caller : User
caller = record {
  sz = 64;
  mem = λ a.
      if a == 44
      then 16
      else (if a == 16
          then 97
          else (if a == 48 then 248 else (if ltb 48 a && ltb a 52 then 255 else 0)));
  esp = 40;
}

first_arg : argint caller 0 ≡ some 16
unfolding argint fetchint
first_arg = refl

argint_negative : argint caller 1 ≡ some (2 ^ 32 - 8)
unfolding argint fetchint
argint_negative = refl

argint_off_stack : argint caller 5 ≡ none
unfolding argint fetchint
argint_off_stack = refl

argptr_too_long : argptr caller 0 49 ≡ none
unfolding argint fetchint argptr check_range
argptr_too_long = refl

argstr-caller : argstr caller 0 ≡ some (16, 1)
unfolding argint fetchint argstr fetchstr scan
argstr-caller = refl

argptr-eq-some_iff_example :
    (argptr caller 0 48 ≡ some 16) ↔ ((argint caller 0 ≡ some 16) × (16 < 64) × (16 + 48 ≤ 64))
argptr-eq-some_iff_example = argptr-eq-some_iff caller 0 48 16 (omega arith) (omega arith)

argptr_negative_lem_example : argptr caller 0 (2 ^ 32 - 8) ≡ some 16
argptr_negative_lem_example =
    argptr_negative_lem caller 0 (2 ^ 32 - 8) 16 (omega arith) first_arg (omega arith) (omega arith)
      (omega arith)

argstr-eq-some_iff_example :
    (argstr caller 0 ≡ some (16, 1))
    ↔ ((argint caller 0 ≡ some 16) × (16 + 1 < caller.sz) × FirstNul caller.mem 16 1)
argstr-eq-some_iff_example = argstr-eq-some_iff caller 0 16 1
