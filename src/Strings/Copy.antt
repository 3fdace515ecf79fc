-- ===== src/Strings/Copy.antt =====
-- string.c: strncpy and safestrcpy, for a source that the target does not overlap.
use cse3320_proj1_ahmed_bahb.Common.{
  ℕ, zero, suc, ◌+◌, ◌≤◌, ◌<◌, ◌≡◌, refl, sym, ap, ◌∙◌, ◌⊎◌, inl, inr, List, ◌∷◌, arith, ◌==◌,
  Bool-cases, length, get_or, ℕ_discrete,
}
use cse3320_proj1_ahmed_bahb.Common.Maps.{update}
use cse3320_proj1_ahmed_bahb.Strings.{
  Memory, same, strncmp, zero_fill, strncpy, safe_copy, safestrcpy,
}
use cse3320_proj1_ahmed_bahb.Strings.Compare.{c_prefix, strncmp-eq-same_iff}

-- The `n` bytes from `s` on and the `m` bytes from `t` on have no byte in common.
abbrev pub Apart : ℕ → ℕ → ℕ → ℕ → Type 0
Apart s n t m = (s + n ≤ t) ⊎ (t + m ≤ s)

abbrev pub Outside : ℕ → ℕ → ℕ → Type 0
Outside a s n = (a < s) ⊎ (s + n ≤ a)

c_prefix-agree :
    (n : ℕ) (mem mem' : Memory) (t : ℕ)
    → ((a : ℕ) → t ≤ a → a < t + n → mem' a ≡ mem a)
    → c_prefix n mem' t ≡ c_prefix n mem t
c_prefix-agree zero mem mem' t h = refl
c_prefix-agree (suc n) mem mem' t h = rw (
  h t (omega arith) (omega arith),
  c_prefix-agree n mem mem' (t + 1) (λ a lo hi. h a (omega arith) (omega arith)),
)

zero_fill-Outside : (n : ℕ) (mem : Memory) (s a : ℕ) → Outside a s n → zero_fill n mem s a ≡ mem a
unfolding zero_fill
zero_fill-Outside zero mem s a h = refl
zero_fill-Outside (suc n) mem s a h =
    zero_fill-Outside n (update mem s 0) (s + 1) a (omega arith) ∙ ground arith

zero_fill-at : (n : ℕ) (mem : Memory) (s a : ℕ) → s ≤ a → a < s + n → zero_fill n mem s a ≡ 0
unfolding zero_fill
zero_fill-at zero mem s a lo hi = absurd (omega arith)
zero_fill-at (suc n) mem s a lo hi = elim (ℕ_discrete s a) [
  | yes e ↦ zero_fill-Outside n (update mem s 0) (s + 1) a (omega arith) ∙ ground arith
  | no ne ↦ zero_fill-at n (update mem s 0) (s + 1) a (omega arith) (omega arith)
]

pub strncpy-Outside :
    (n : ℕ) (mem : Memory) (s t a : ℕ) → Outside a s n → strncpy n mem s t a ≡ mem a
unfolding strncpy
strncpy-Outside zero mem s t a h = refl
strncpy-Outside (suc n) mem s t a h = elim (Bool-cases (mem t == 0)) [
  | inl nul ↦
      rw nul (zero_fill-Outside n (update mem s (mem t)) (s + 1) a (omega arith) ∙ ground arith)
  | inr byte ↦
      rw byte
        (strncpy-Outside n (update mem s (mem t)) (s + 1) (t + 1) a (omega arith) ∙ ground arith)
]

-- If the `n` bytes from `s` on and from `t` on have none in common, `strncpy` puts at each place `i` below
-- `n` of the target the byte `i` of the string at `t`, cut after `n` bytes, or a NUL behind its end.
pub strncpy-at :
    (n : ℕ) (mem : Memory) (s t i : ℕ)
    → Apart s n t n
    → i < n
    → strncpy n mem s t (s + i) ≡ get_or (c_prefix n mem t) i 0
unfolding strncpy
strncpy-at zero mem s t i h lt = elim lt [ ]
strncpy-at (suc n) mem s t zero h lt =
    let mem' = update mem s (mem t) in
    elim (Bool-cases (mem t == 0)) [
      | inl nul ↦ rw nul (zero_fill-Outside n mem' (s + 1) (s + 0) (omega arith) ∙ ground arith)
      | inr byte ↦
          rw byte (strncpy-Outside n mem' (s + 1) (t + 1) (s + 0) (omega arith) ∙ ground arith)
    ]
strncpy-at (suc n) mem s t (suc j) h lt =
    let mem' = update mem s (mem t) in
    let e : s + suc j ≡ s + 1 + j = omega arith in
    elim (Bool-cases (mem t == 0)) [
      | inl nul ↦ rw nul (zero_fill-at n mem' (s + 1) (s + suc j) (omega arith) (omega arith))
      | inr byte ↦
          rw (byte, e)
            (strncpy-at n mem' (s + 1) (t + 1) j (omega arith) (omega arith)
              ∙ ap (λ (xs : List ℕ). get_or xs j 0)
                  (c_prefix-agree n mem mem' (t + 1) (λ a lo hi. ground arith)))
    ]

strncpy-prefix :
    (n : ℕ) (mem : Memory) (s t : ℕ)
    → Apart s n t n
    → c_prefix n (strncpy n mem s t) s ≡ c_prefix n mem t
unfolding strncpy
strncpy-prefix zero mem s t h = refl
strncpy-prefix (suc n) mem s t h =
    let mem' = update mem s (mem t) in
    elim (Bool-cases (mem t == 0)) [
      | inl nul ↦ rw nul (
          let z : zero_fill n mem' (s + 1) s ≡ mem t =
            zero_fill-Outside n mem' (s + 1) s (omega arith) ∙ ground arith in
          rw (z, nul) refl)
      | inr byte ↦ rw byte (
          let first : strncpy n mem' (s + 1) (t + 1) s ≡ mem t =
            strncpy-Outside n mem' (s + 1) (t + 1) s (omega arith) ∙ ground arith in
          rw (first, byte)
            (ap (λ (xs : List ℕ). mem t ∷ xs)
              (strncpy-prefix n mem' (s + 1) (t + 1) (omega arith)
                ∙ c_prefix-agree n mem mem' (t + 1) (λ a lo hi. ground arith))))
    ]

-- If the `n` bytes from `s` on and from `t` on have none in common, `strncmp` with the bound `n` finds
-- what `strncpy` with that bound has copied equal to its source.
pub strncmp-strncpy :
    (n : ℕ) (mem : Memory) (s t : ℕ) → Apart s n t n → strncmp n (strncpy n mem s t) t s ≡ same
strncmp-strncpy n mem s t h = (strncmp-eq-same_iff n (strncpy n mem s t) t s).1 (
    c_prefix-agree n mem (strncpy n mem s t) t
      (λ a lo hi. strncpy-Outside n mem s t a (omega arith))
    ∙ sym (strncpy-prefix n mem s t h))

safe_copy-Outside :
    (n : ℕ) (mem : Memory) (s t a : ℕ) → Outside a s (suc n) → safe_copy n mem s t a ≡ mem a
unfolding safe_copy
safe_copy-Outside zero mem s t a h = ground arith
safe_copy-Outside (suc n) mem s t a h = elim (Bool-cases (mem t == 0)) [
  | inl nul ↦ rw nul (ground arith)
  | inr byte ↦
      rw byte
        (safe_copy-Outside n (update mem s (mem t)) (s + 1) (t + 1) a (omega arith) ∙ ground arith)
]

safe_copy-prefix :
    (n : ℕ) (mem : Memory) (s t : ℕ)
    → Apart s (suc n) t n
    → (c_prefix (suc n) (safe_copy n mem s t) s ≡ c_prefix n mem t)
      × (safe_copy n mem s t (s + length (c_prefix n mem t)) ≡ 0)
unfolding safe_copy
safe_copy-prefix zero mem s t h = (ground arith, ground arith)
safe_copy-prefix (suc n) mem s t h =
    let mem' = update mem s (mem t) in
    elim (Bool-cases (mem t == 0)) [
      | inl nul ↦
          let z : update mem' (s + 1) 0 s ≡ 0 = ground arith in
          rw nul (rw z refl, (let e : s + 0 ≡ s = omega arith in rw (e, z) refl))
      | inr byte ↦
          let first : safe_copy n mem' (s + 1) (t + 1) s ≡ mem t =
            safe_copy-Outside n mem' (s + 1) (t + 1) s (omega arith) ∙ ground arith in
          let ih = safe_copy-prefix n mem' (s + 1) (t + 1) (omega arith) in
          let tail = c_prefix-agree n mem mem' (t + 1) (λ a lo hi. ground arith) in
          rw byte (
            rw (first, byte) (ap (λ (xs : List ℕ). mem t ∷ xs) (ih.0 ∙ tail)),
            (let e : s + suc (length (c_prefix n mem (t + 1)))
                    ≡ s + 1 + length (c_prefix n mem (t + 1)) =
                  omega arith in
                rw (e, ← tail) ih.1),
          )
    ]

-- After `safestrcpy` into `n` bytes, `n` not 0, from `n - 1` bytes apart from them: the target holds the
-- string at `t` cut after `n - 1` bytes and ends in a NUL that lies within the `n` bytes; no byte outside
-- them changes.
pub safestrcpy_lem :
    (n : ℕ) (mem : Memory) (s t : ℕ)
    → Apart s (suc n) t n
    → (c_prefix (suc n) (safestrcpy (suc n) mem s t) s ≡ c_prefix n mem t)
      × (length (c_prefix n mem t) < suc n)
      × (safestrcpy (suc n) mem s t (s + length (c_prefix n mem t)) ≡ 0)
      × ((a : ℕ) → Outside a s (suc n) → safestrcpy (suc n) mem s t a ≡ mem a)
unfolding safestrcpy
safestrcpy_lem n mem s t h =
    let p = safe_copy-prefix n mem s t h in
    (p.0, short n mem t, p.1, λ a o. safe_copy-Outside n mem s t a o)
  where
    short : (m : ℕ) (mem : Memory) (t : ℕ) → length (c_prefix m mem t) < suc m
    short zero mem t = omega arith
    short (suc m) mem t = ground (arith, short m mem (t + 1))
