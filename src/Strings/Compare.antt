-- ===== src/Strings/Compare.antt =====
-- string.c: memcmp, strncmp and strlen against the bytes that they look at.
use cse3320_proj1_ahmed_bahb.Common.{
  ℕ, zero, suc, ◌+◌, ◌≤◌, ◌<◌, ◌≡◌, ◌≢◌, refl, ◌↔◌, List, [], ◌∷◌, arith, ◌==◌, if◌then◌else◌, some,
  ℕ_discrete,
}
use cse3320_proj1_ahmed_bahb.Strings.{
  Memory, Difference, same, byte_diff, memcmp, strncmp, strlen, strlen_from,
}

-- The `n` bytes from `p` on.
abbrev pub bytes_at : ℕ → Memory → ℕ → List ℕ
bytes_at zero mem p = []
bytes_at (suc n) mem p = mem p ∷ bytes_at n mem (p + 1)

-- The bytes from `p` on up to a NUL, at most `n` of them.
abbrev pub c_prefix : ℕ → Memory → ℕ → List ℕ
c_prefix zero mem p = []
c_prefix (suc n) mem p =
    let rest = c_prefix n mem (p + 1) in if mem p == 0 then [] else mem p ∷ rest

-- The first difference of two lists of bytes, one that has ended counting as NUL.
abbrev pub first_difference : List ℕ → List ℕ → Difference
first_difference [] [] = same
first_difference [] (y ∷ ys) = byte_diff 0 y
first_difference (x ∷ xs) [] = byte_diff x 0
first_difference (x ∷ xs) (y ∷ ys) =
    let rest = first_difference xs ys in if x == y then rest else byte_diff x y

-- `memcmp` returns the difference of the first two bytes that differ among the first `n`, 0 if none do.
pub memcmp_lem :
    (n : ℕ) (mem : Memory) (p q : ℕ)
    → memcmp n mem p q ≡ first_difference (bytes_at n mem p) (bytes_at n mem q)
unfolding memcmp
memcmp_lem zero mem p q = refl
memcmp_lem (suc n) mem p q = ground (arith, memcmp_lem n mem (p + 1) (q + 1))

-- `strncmp` compares the two strings, cut after `n` bytes, at the first place where they differ.
pub strncmp_lem :
    (n : ℕ) (mem : Memory) (p q : ℕ)
    → strncmp n mem p q ≡ first_difference (c_prefix n mem p) (c_prefix n mem q)
unfolding strncmp
strncmp_lem zero mem p q = refl
strncmp_lem (suc n) mem p q = ground (arith, strncmp_lem n mem (p + 1) (q + 1))

no_difference :
    (n : ℕ) (mem mem' : Memory) (p q : ℕ)
    → first_difference (c_prefix n mem p) (c_prefix n mem' q) ≡ same
    → c_prefix n mem p ≡ c_prefix n mem' q
no_difference zero mem mem' p q e = refl
no_difference (suc n) mem mem' p q e = ground (arith, no_difference n mem mem' (p + 1) (q + 1))

pub first_difference_self : (xs : List ℕ) → first_difference xs xs ≡ same
first_difference_self [] = refl
first_difference_self (x ∷ xs) = ground (arith, first_difference_self xs)

-- `strncmp` returns 0 exactly when the two strings, cut after `n` bytes, are equal.
pub strncmp-eq-same_iff :
    (n : ℕ) (mem : Memory) (p q : ℕ)
    → (strncmp n mem p q ≡ same) ↔ (c_prefix n mem p ≡ c_prefix n mem q)
strncmp-eq-same_iff n mem p q = (
  λ e. no_difference n mem mem p q (rw (← strncmp_lem n mem p q) e),
  λ e. rw (strncmp_lem n mem p q, e) (first_difference_self (c_prefix n mem q)),
)

-- `strlen` returns the place of the first NUL, given more fuel than that.
strlen_from_lem :
    (fuel : ℕ) (mem : Memory) (s n k : ℕ)
    → ((i : ℕ) → n ≤ i → i < k → mem (s + i) ≢ 0)
    → mem (s + k) ≡ 0
    → n ≤ k
    → k < n + fuel
    → strlen_from fuel mem s n ≡ some k
unfolding strlen_from
strlen_from_lem zero mem s n k before at le fits = absurd (omega arith)
strlen_from_lem (suc fuel) mem s n k before at le fits = elim (ℕ_discrete n k) [
  | yes e ↦ ground arith
  | no ne ↦
      let here = before n (omega arith) (omega arith) in
      let rest =
        strlen_from_lem fuel mem s (n + 1) k (λ i lo hi. before i (omega arith) hi) at (omega arith)
          (omega arith) in
      ground arith
]

-- If the first NUL of a string is at `k`, `strlen` returns `k`, as soon as the fuel is more than `k`.
pub strlen_lem :
    (fuel : ℕ) (mem : Memory) (s k : ℕ)
    → ((i : ℕ) → i < k → mem (s + i) ≢ 0)
    → mem (s + k) ≡ 0
    → k < fuel
    → strlen fuel mem s ≡ some k
unfolding strlen
strlen_lem fuel mem s k before at fits =
    strlen_from_lem fuel mem s 0 k (λ i lo hi. before i hi) at (omega arith) (omega arith)
