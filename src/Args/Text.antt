-- ===== src/Args/Text.antt =====
-- syscall.c: the strings of fetchstr and argstr.
use cse3320_proj1_ahmed_bahb.Common.{
  ℕ, zero, suc, ◌+◌, ◌-◌, ◌≤◌, ◌<◌, ◌≡◌, ◌≢◌, refl, sym, ap, ◌∙◌, ◌↔◌, Option-cases, none, some,
  leb, Bool-cases, arith, inl, inr, ℕ_discrete,
}
use cse3320_proj1_ahmed_bahb.Args.{User, fetchstr, scan, argint, argstr}

-- The first NUL of a memory from `s` on is `k` bytes behind `s`.
abbrev pub FirstNul : (ℕ → ℕ) → ℕ → ℕ → Type 0
FirstNul mem s k = (mem (s + k) ≡ 0) × ((i : ℕ) → s ≤ i → i < s + k → mem i ≢ 0)

scan-FirstNul :
    (n : ℕ) (mem : ℕ → ℕ) (s j k : ℕ)
    → scan n mem s j ≡ some k
    → (j ≤ k) × (k < j + n) × FirstNul mem s (k - j)
unfolding scan
scan-FirstNul zero mem s j k e = cc
scan-FirstNul (suc n) mem s j k e = elim (ℕ_discrete (mem s) 0) [
  | yes nul ↦
      let is : j ≡ k = ground arith in
      rw (← is) (
        omega arith,
        omega arith,
        ((let z : s + (j - j) ≡ s = omega arith in rw z nul), λ i lo hi. absurd (omega arith)),
      )
  | no byte ↦
      let rest : scan n mem (s + 1) (j + 1) ≡ some k = ground arith in
      let r = scan-FirstNul n mem (s + 1) (j + 1) k rest in
      let below = r.0 in
      let place : s + 1 + (k - (j + 1)) ≡ s + (k - j) = omega arith in
      (
        omega arith,
        omega (arith, r.1),
        (
          rw (← place) r.2.0,
          λ i lo hi. elim (ℕ_discrete s i) [
            | yes e ↦ rw (← e) byte
            | no ne ↦ r.2.1 i (omega arith) (omega arith)
          ],
        ),
      )
]

scan-eq-some :
    (n : ℕ) (mem : ℕ → ℕ) (s j k : ℕ) → k < n → FirstNul mem s k → scan n mem s j ≡ some (j + k)
unfolding scan
scan-eq-some zero mem s j k lt f = absurd (omega arith)
scan-eq-some (suc n) mem s j zero lt (nul, before) =
    let z : s + 0 ≡ s = omega arith in let here : mem s ≡ 0 = rw z at nul in ground arith
scan-eq-some (suc n) mem s j (suc k) lt (nul, before) =
    let byte = before s (omega arith) (omega arith) in
    let place : s + suc k ≡ s + 1 + k = omega arith in
    let r =
      scan-eq-some n mem (s + 1) (j + 1) k (omega arith)
        (rw (← place) nul, λ i lo hi. before i (omega arith) (omega arith)) in
    let sum : j + 1 + k ≡ j + suc k = omega arith in
    let r' : scan n mem (s + 1) (j + 1) ≡ some (j + suc k) = r ∙ ap (λ (m : ℕ). some m) sum in
    ground arith

-- `fetchstr` returns `k` exactly if the first NUL from `addr` on lies `k` bytes behind it and within
-- the process.
pub fetchstr-eq-some_iff :
    (u : User) (addr k : ℕ)
    → (fetchstr u addr ≡ some k) ↔ ((addr + k < u.sz) × FirstNul u.mem addr k)
unfolding fetchstr
fetchstr-eq-some_iff u addr k = elim (Bool-cases (leb u.sz addr)) [
  | inl outside ↦ rw outside (
    (λ e. cc),
    (λ b. let out : u.sz ≤ addr = ground arith in let lt = b.0 in absurd (omega arith)),
  )
  | inr inside ↦ rw inside (
    (λ e.
        let r = scan-FirstNul (u.sz - addr) u.mem addr 0 k e in
        let z : k - 0 ≡ k = omega arith in let lt = r.1 in (ground arith, rw z at (r.2))),
    (λ b.
        let z : 0 + k ≡ k = omega arith in
        let i = b.0 in
        scan-eq-some (u.sz - addr) u.mem addr 0 k (omega arith) b.1 ∙ ap (λ (m : ℕ). some m) z),
  )
]

argstr-eq-none : (u : User) (n : ℕ) → argint u n ≡ none → argstr u n ≡ none
unfolding argstr
argstr-eq-none u n e = rw (e, argstr) refl

argstr-eq-elim :
    (u : User) (n p : ℕ)
    → argint u n ≡ some p
    → argstr u n ≡ (elim (fetchstr u p) [ none ↦ none | some k ↦ some (p, k) ])
unfolding argstr
argstr-eq-elim u n p e = rw (e, argstr) refl

argstr-eq-some :
    (u : User) (n p k : ℕ) → argint u n ≡ some p → fetchstr u p ≡ some k → argstr u n ≡ some (p, k)
argstr-eq-some u n p k e f = argstr-eq-elim u n p e ∙ rw f refl

argstr-eq-some_fails :
    (u : User) (n p : ℕ) → argint u n ≡ some p → fetchstr u p ≡ none → argstr u n ≡ none
argstr-eq-some_fails u n p e f = argstr-eq-elim u n p e ∙ rw f refl

-- `argstr` returns the string at `p` of length `k` exactly if `p` is the argument and the first NUL from
-- `p` on lies `k` bytes behind it and within the process.
pub argstr-eq-some_iff :
    (u : User) (n p k : ℕ)
    → (argstr u n ≡ some (p, k)) ↔ ((argint u n ≡ some p) × (p + k < u.sz) × FirstNul u.mem p k)
argstr-eq-some_iff u n p k = (
  (λ e. elim (Option-cases (argint u n)) [
    | inl missing ↦ let f = argstr-eq-none u n missing in cc
    | inr (i, found) ↦ elim (Option-cases (fetchstr u i)) [
      | inl bad ↦ let f = argstr-eq-some_fails u n i found bad in cc
      | inr (j, good) ↦
          let f = argstr-eq-some u n i j found good in
          let is : some (i, j) ≡ some (p, k) = sym f ∙ e in
          let ip : i ≡ p = cc in
          let jk : j ≡ k = cc in
          let good' : fetchstr u p ≡ some k = rw (ip, jk) at good in
          let r = (fetchstr-eq-some_iff u p k).0 good' in (rw ip at found, r.0, r.1)
    ]
  ]),
  (λ b. argstr-eq-some u n p k b.0 ((fetchstr-eq-some_iff u p k).1 (b.1, b.2))),
)
