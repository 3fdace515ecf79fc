-- ===== src/Args/Words.antt =====
-- syscall.c: the bounds of fetchint, argint and argptr.
use cse3320_proj1_ahmed_bahb.Common.{
  ℕ, ◌+◌, ◌^◌, ◌≤◌, ◌<◌, ◌≡◌, refl, ◌∙◌, ◌↔◌, none, some, Option-cases, leb, if◌then◌else◌, arith,
  inl, inr,
}
use cse3320_proj1_ahmed_bahb.Args.{User, load, fetchint, argint, check_range, argptr}

-- For a process of at most KERNBASE bytes, `fetchint` returns the word at `addr` if its four bytes lie
-- within the process, and fails otherwise.
pub fetchint_lem :
    (u : User) (addr : ℕ)
    → u.sz ≤ 2 ^ 31
    → fetchint u addr ≡ (if leb (addr + 4) u.sz then some (load u.mem addr) else none)
unfolding fetchint
fetchint_lem u addr small = ground arith

check_range_lem :
    (u : User) (size i : ℕ)
    → u.sz ≤ 2 ^ 31
    → size < 2 ^ 31
    → check_range u size i
      ≡ (if leb (i + 1) u.sz then (if leb (i + size) u.sz then some i else none) else none)
unfolding check_range
check_range_lem u size i small pos = ground arith

argptr-eq-some :
    (u : User) (n size i : ℕ) → argint u n ≡ some i → argptr u n size ≡ check_range u size i
unfolding argptr
argptr-eq-some u n size i e = rw (e, argptr) refl

argptr-eq-none : (u : User) (n size : ℕ) → argint u n ≡ none → argptr u n size ≡ none
unfolding argptr
argptr-eq-none u n size e = rw (e, argptr) refl

-- For a process of at most KERNBASE bytes and a size that is not negative, `argptr` returns `p` exactly
-- if `p` is the argument, lies within the process, and so do the `size` bytes from `p` on.
pub argptr-eq-some_iff :
    (u : User) (n size p : ℕ)
    → u.sz ≤ 2 ^ 31
    → size < 2 ^ 31
    → (argptr u n size ≡ some p) ↔ ((argint u n ≡ some p) × (p < u.sz) × (p + size ≤ u.sz))
argptr-eq-some_iff u n size p small pos = elim (Option-cases (argint u n)) [
  | inl missing ↦ let e = argptr-eq-none u n size missing in ((λ a. cc), (λ b. let a = b.0 in cc))
  | inr (i, found) ↦
      let e = argptr-eq-some u n size i found in
      let c = check_range_lem u size i small pos in
      ((λ a. ground arith), (λ b. let x = b.0 in let y = b.1 in let z = b.2 in ground arith))
]

-- If the argument `i` lies within a process of at most KERNBASE bytes, `argptr` lets every negative
-- size of a magnitude of at most `i` pass: the sum wraps to an address below `i`.
pub argptr_negative_lem :
    (u : User) (n size i : ℕ)
    → u.sz ≤ 2 ^ 31
    → argint u n ≡ some i
    → i < u.sz
    → size < 2 ^ 32
    → 2 ^ 32 ≤ i + size
    → argptr u n size ≡ some i
unfolding check_range
argptr_negative_lem u n size i small e inside word wraps =
    argptr-eq-some u n size i e ∙ ground arith
