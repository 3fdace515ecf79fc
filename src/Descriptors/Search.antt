-- ===== src/Descriptors/Search.antt =====
-- file.c and sysfile.c: the searches of filealloc, fdalloc and argfd.
use cse3320_proj1_ahmed_bahb.Common.{
  ℕ, zero, suc, ◌+◌, ◌≤◌, ◌<◌, ◌≡◌, ◌≢◌, refl, ◌∙◌, ◌⊎◌, inl, inr, true, false, Option, none, some,
  leb, ◌==◌, arith, Option-cases, ℕ_discrete, dec_lt,
}
use cse3320_proj1_ahmed_bahb.Args.{User, argint}
use cse3320_proj1_ahmed_bahb.Descriptors.{File, Ftable, nofile, free_file, free_fd, argfd}

pub free_fd-cases :
    (n : ℕ) (t : ℕ → Option ℕ) (i : ℕ)
    → ((fd : ℕ) × (free_fd n t i ≡ some fd)
        × (i ≤ fd)
        × (fd < i + n)
        × (t fd ≡ none)
        × ((j : ℕ) → i ≤ j → j < fd → t j ≢ none))
      ⊎ ((free_fd n t i ≡ none) × ((j : ℕ) → i ≤ j → j < i + n → t j ≢ none))
unfolding free_fd
free_fd-cases zero t i = inr (refl, λ j lo hi. absurd (omega arith))
free_fd-cases (suc n) t i = elim (Option-cases (t i)) [
  | inl free ↦
      inl (
        i,
        rw (free_fd, free) refl,
        omega arith,
        omega arith,
        free,
        λ j lo hi. absurd (omega arith),
      )
  | inr (f, e) ↦
      let now : free_fd (suc n) t i ≡ free_fd n t (i + 1) = rw (free_fd, e) refl in
      let taken : t i ≢ none = λ z. cc (e, z) in
      let before : (j : ℕ) → i ≤ j → (i + 1 ≤ j → t j ≢ none) → t j ≢ none = λ j lo rest.
        elim (ℕ_discrete i j) [ yes s ↦ rw (← s) taken | no ne ↦ rest (omega arith) ] in
      elim (free_fd-cases n t (i + 1)) [
        | inl (fd, r, lo, hi, free, low) ↦
            inl
              (fd, now ∙ r, omega arith, omega arith, free, λ j l h. before j l (λ l'. low j l' h))
        | inr (r, all) ↦ inr (now ∙ r, λ j l h. before j l (λ l'. all j l' (omega arith)))
      ]
]

pub free_file-cases :
    (n : ℕ) (t : ℕ → File) (i : ℕ)
    → ((f : ℕ) × (free_file n t i ≡ some f) × (i ≤ f) × (f < i + n) × ((t f).ref ≡ 0))
      ⊎ ((free_file n t i ≡ none) × ((j : ℕ) → i ≤ j → j < i + n → (t j).ref ≢ 0))
unfolding free_file
free_file-cases zero t i = inr (refl, λ j lo hi. absurd (omega arith))
free_file-cases (suc n) t i = elim (ℕ_discrete (t i).ref 0) [
  | yes z ↦ inl (i, rw z refl, omega arith, omega arith, z)
  | no ne ↦
      let b : ((t i).ref == 0) ≡ false = ground arith in
      elim (free_file-cases n t (i + 1)) [
        | inl (f, r, lo, hi, z) ↦ inl (f, rw (b, r) refl, omega arith, omega arith, z)
        | inr (r, all) ↦ inr (
          rw (b, r) refl,
          λ j l h. elim (ℕ_discrete i j) [
            | yes s ↦ rw (← s) ne
            | no other ↦ all j (omega arith) (omega arith)
          ],
        )
      ]
]

pub argfd-cases :
    (u : User) (s : Ftable) (p n : ℕ)
    → ((fd f : ℕ) × (argfd u s p n ≡ some (fd, f)) × (fd < nofile) × (s.ofile p fd ≡ some f))
      ⊎ (argfd u s p n ≡ none)
unfolding argfd
argfd-cases u s p n = elim (Option-cases (argint u n)) [
  | inl bad ↦ inr (rw (argfd, bad) refl)
  | inr (fd, e) ↦ elim (dec_lt fd nofile) [
    | no big ↦ let b : leb nofile fd ≡ true = ground arith in inr (rw (argfd, e, b) refl)
    | yes lt ↦
        let b : leb nofile fd ≡ false = ground arith in
        elim (Option-cases (s.ofile p fd)) [
          | inr (f, o) ↦
              let found : argfd u s p n ≡ some (fd, f) = rw (argfd, e, b, o) refl in
              inl (fd, f, found, lt, o)
          | inl o ↦ inr (rw (argfd, e, b, o) refl)
        ]
  ]
]
