-- ===== src/Buffers/Search.antt =====
-- bio.c: what the two loops of `bget` find on the list of buffers.
use mathlib.Core.Path.{subst}
use cse3320_proj1_ahmed_bahb.Common.{
  sym, ℕ, zero, suc, ◌+◌, ◌<◌, ◌≡◌, ◌≢◌, refl, ap, ◌∙◌, ◌⊎◌, inl, inr, Bool, true, false,
  if◌then◌else◌, ◌==◌, Option, none, some, List, [], ◌∷◌, ◌++◌, All, arith, length, Bool-cases,
}
use cse3320_proj1_ahmed_bahb.Buffers.{Buf, Bcache, head, caches, is_clean, find_cached, find_clean}
use cse3320_proj1_ahmed_bahb.Buffers.Ring.{Seg, Lacks}

-- The first and the last of a list that pass a test.
abbrev pub first_in : (ℕ → Bool) → List ℕ → Option ℕ
first_in p [] = none
first_in p (b ∷ l) = let rest = first_in p l in if p b then some b else rest

abbrev pub or_else : Option ℕ → Option ℕ → Option ℕ
or_else (some b) o = some b
or_else none o = o

abbrev pub last_in : (ℕ → Bool) → List ℕ → Option ℕ
last_in p [] = none
last_in p (b ∷ l) = or_else (last_in p l) (if p b then some b else none)

abbrev pub Fails : (ℕ → Bool) → List ℕ → Type 0
Fails p = All (λ b. p b ≡ false)

-- The buffer is of the block; the buffer can be taken for another block.
abbrev pub IsFor : ℕ → ℕ → Buf → Type 0
IsFor dev blockno v = (v.dev ≡ dev) × (v.blockno ≡ blockno)

abbrev pub IsSpare : Buf → Type 0
IsSpare v = (v.busy ≡ false) × (v.dirty ≡ false)

abbrev pub Without : (ℕ → Type 0) → List ℕ → Type 0
Without P = All (λ b. ¬ (P b))

pub Fails-Without :
    (p : ℕ → Bool) (P : ℕ → Type 0)
    → ((b : ℕ) → P b → p b ≡ true)
    → (l : List ℕ) → Fails p l
    → Without P l
Fails-Without p P to [] f = tt
Fails-Without p P to (b ∷ l) (e, f) =
    (λ h. let q = to b h in absurd (ground arith), Fails-Without p P to l f)

pub Without-Lacks : (P : ℕ → Type 0) (b : ℕ) (l : List ℕ) → P b → Without P l → Lacks b l
Without-Lacks P b [] h w = tt
Without-Lacks P b (x ∷ l) h (n, w) = (λ z. n (subst P (sym z) h), Without-Lacks P b l h w)

pub caches_hit :
    (dev blockno : ℕ) (v : Buf) → v.dev ≡ dev → v.blockno ≡ blockno → caches dev blockno v ≡ true
caches_hit dev blockno v e e' = ground arith

pub hit_IsFor : (dev blockno : ℕ) (v : Buf) → caches dev blockno v ≡ true → IsFor dev blockno v
hit_IsFor dev blockno v h = (ground arith, ground arith)

pub clean_IsSpare : (v : Buf) → is_clean v ≡ true → IsSpare v
clean_IsSpare v h = (ground arith, ground arith)

pub spare_is_clean : (v : Buf) → v.busy ≡ false → v.dirty ≡ false → is_clean v ≡ true
spare_is_clean v e e' = ground arith

pub first_in-cases :
    (p : ℕ → Bool) (l : List ℕ)
    → ((xs : List ℕ) × (b : ℕ) × (ys : List ℕ) × (l ≡ xs ++ (b ∷ ys))
        × (p b ≡ true)
        × Fails p xs
        × (first_in p l ≡ some b))
      ⊎ (Fails p l × (first_in p l ≡ none))
first_in-cases p [] = inr (tt, refl)
first_in-cases p (b ∷ l) = elim (Bool-cases (p b)) [
  | inl e ↦ inl ([], b, l, refl, e, tt, rw (e) refl)
  | inr e ↦ elim (first_in-cases p l) [
    | inl (xs, c, ys, el, pc, fails, r) ↦
        inl (b ∷ xs, c, ys, ap (λ k. b ∷ k) el, pc, (e, fails), rw (e) r)
    | inr (fails, r) ↦ inr ((e, fails), rw (e) r)
  ]
]

pub last_in-cases :
    (p : ℕ → Bool) (l : List ℕ)
    → ((xs : List ℕ) × (b : ℕ) × (ys : List ℕ) × (l ≡ xs ++ (b ∷ ys))
        × (p b ≡ true)
        × Fails p ys
        × (last_in p l ≡ some b))
      ⊎ (Fails p l × (last_in p l ≡ none))
last_in-cases p [] = inr (tt, refl)
last_in-cases p (b ∷ l) = elim (last_in-cases p l) [
  | inl (xs, c, ys, el, pc, fails, r) ↦
      inl (b ∷ xs, c, ys, ap (λ k. b ∷ k) el, pc, fails, rw (r) refl)
  | inr (fails, r) ↦ elim (Bool-cases (p b)) [
    | inl e ↦ inl ([], b, l, refl, e, fails, rw (r, e) refl)
    | inr e ↦ inr ((e, fails), rw (r, e) refl)
  ]
]

module _ (s : Bcache) where
  find_clean-cons :
      (n a b : ℕ) (l : List ℕ)
      → b ≢ head
      → s.prev b ≡ a
      → or_else (last_in (λ c. is_clean (s.buf c)) l) (find_clean (suc n) s b)
        ≡ or_else (last_in (λ c. is_clean (s.buf c)) (b ∷ l)) (find_clean n s a)
  unfolding find_clean
  find_clean-cons n a b l nb e =
      let other : (b == head) ≡ false = ground arith in
      elim (last_in-cases (λ c. is_clean (s.buf c)) l) [
        | inl (xs, c, ys, el, pc, fails, r) ↦ rw (r) refl
        | inr (fails, r) ↦ elim (Bool-cases (is_clean (s.buf b))) [
          | inl y ↦ rw (r, find_clean, other, y) refl
          | inr y ↦ rw (r, find_clean, other, y, e) refl
        ]
      ]

  pub find_cached_lem :
      (dev blockno n a : ℕ) (l : List ℕ)
      → Seg s.next s.prev a l head
      → Lacks head l
      → length l < n
      → find_cached n s dev blockno (s.next a) ≡ first_in (λ b. caches dev blockno (s.buf b)) l
  unfolding find_cached
  find_cached_lem dev blockno zero a l g lh h = ground arith
  find_cached_lem dev blockno (suc n) a [] (e, e') lh h = rw (e) refl
  find_cached_lem dev blockno (suc n) a (b ∷ l) (e, e', g) (nb, lh) h =
      let rest = find_cached_lem dev blockno n b l g lh (omega arith) in
      let other : (b == head) ≡ false = ground arith in rw (find_cached, e, other, rest) refl

  pub find_clean_lem :
      (m n a : ℕ) (l : List ℕ) (z : ℕ)
      → m ≡ length l + n
      → Seg s.next s.prev a l z
      → Lacks head l
      → find_clean m s (s.prev z) ≡ or_else (last_in (λ b. is_clean (s.buf b)) l) (find_clean n s a)
  find_clean_lem m n a [] z em (e, e') lh = let same : m ≡ n = omega arith in rw (same, e') refl
  find_clean_lem m n a (b ∷ l) z em (e, e', g) (nb, lh) =
      let rest = find_clean_lem m (suc n) b l z (omega arith) g lh in
      rest ∙ find_clean-cons n a b l nb e'
