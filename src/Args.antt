-- ===== src/Args.antt =====
-- syscall.c: the arguments of a system call, in the memory of the calling process.
-- `none` stands for the result -1. A pointer and a 32-bit word are numbers below 2 ^ 32, an int that is
-- negative stands there as its two's complement. The memory is in bytes.
pub mod Words
pub mod Text
mod Tests
use cse3320_proj1_ahmed_bahb.Common.{
  ℕ, zero, suc, ◌+◌, ◌-◌, ◌*◌, ◌%◌, ◌^◌, ◌||◌, Option, none, some, ltb, leb, ◌==◌, if◌then◌else◌,
}

-- What the functions use of `proc`: its size, its memory and the user's %esp.
pub record User : Type 0 where
  pub sz : ℕ
  pub mem : ℕ → ℕ
  pub esp : ℕ

-- `*(int*)(addr)`
abbrev pub load : (ℕ → ℕ) → ℕ → ℕ
load mem a = mem a + mem (a + 1) * 2 ^ 8 + mem (a + 2) * 2 ^ 16 + mem (a + 3) * 2 ^ 24

unfoldable pub fetchint : User → ℕ → Option ℕ
fetchint u addr =
    if leb u.sz addr || ltb u.sz ((addr + 4) % 2 ^ 32) then none else some (load u.mem addr)

unfoldable pub argint : User → ℕ → Option ℕ
argint u n = fetchint u ((u.esp + 4 + 4 * n) % 2 ^ 32)

-- The test of `argptr`, for a pointer `i`.
unfoldable pub check_range : User → ℕ → ℕ → Option ℕ
check_range u size i = if leb u.sz i || ltb u.sz ((i + size) % 2 ^ 32) then none else some i

unfoldable pub argptr : User → ℕ → ℕ → Option ℕ
argptr u n size = elim (argint u n) [ none ↦ none | some i ↦ check_range u size i ]

-- The loop of `fetchstr`, with `k` bytes behind it and `n` bytes left below `ep`.
pub scan : ℕ → (ℕ → ℕ) → ℕ → ℕ → Option ℕ
scan zero mem s k = none
scan (suc n) mem s k = let rest = scan n mem (s + 1) (k + 1) in if mem s == 0 then some k else rest

unfoldable pub fetchstr : User → ℕ → Option ℕ
fetchstr u addr = if leb u.sz addr then none else scan (u.sz - addr) u.mem addr 0

-- The string's address and its length.
unfoldable pub argstr : User → ℕ → Option (ℕ × ℕ)
argstr u n = elim (argint u n) [
  | none ↦ none
  | some addr ↦ elim (fetchstr u addr) [ none ↦ none | some k ↦ some (addr, k) ]
]
