-- ===== src/Bitmap/Scan.antt =====
-- fs.c: the search of balloc for a clear bit.
use cse3320_proj1_ahmed_bahb.Common.{
  ℕ, zero, suc, ◌+◌, ◌≤◌, ◌<◌, ◌≡◌, inl, inr, true, false, none, some, ltb, arith, ℕ_discrete,
  Bool-cases,
}
use cse3320_proj1_ahmed_bahb.Strings.{Memory}
use cse3320_proj1_ahmed_bahb.Bitmap.{bit_at, find_free}

pub find_free-eq-some :
    (n : ℕ) (mem : Memory) (b bi size k : ℕ)
    → find_free n mem b bi size ≡ some k
    → (bi ≤ k)
      × (k < bi + n)
      × (b + k < size)
      × (bit_at mem k ≡ false)
      × ((j : ℕ) → bi ≤ j → j < k → bit_at mem j ≡ true)
unfolding find_free
find_free-eq-some zero mem b bi size k e = cc
find_free-eq-some (suc n) mem b bi size k e = elim (Bool-cases (ltb (b + bi) size)) [
  | inr past ↦ cc (rw past at e)
  | inl inside ↦ elim (Bool-cases (bit_at mem bi)) [
    | inr free ↦
        let is : bi ≡ k = cc (rw (inside, free) at e) in
        rw (← is) (omega arith, omega arith, ground arith, free, λ j lo hi. absurd (omega arith))
    | inl taken ↦
        let r = find_free-eq-some n mem b (bi + 1) size k (rw (inside, taken) at e) in
        let lo' = r.0 in
        let hi' = r.1 in
        (
          omega arith,
          omega arith,
          r.2,
          r.3,
          λ j lo hi. elim (ℕ_discrete bi j) [
            | yes same ↦ rw (← same) taken
            | no ne ↦ r.4 j (omega arith) hi
          ],
        )
  ]
]

pub find_free-eq-none :
    (n : ℕ) (mem : Memory) (b bi size : ℕ)
    → find_free n mem b bi size ≡ none
    → (j : ℕ) → bi ≤ j
    → j < bi + n
    → b + j < size
    → bit_at mem j ≡ true
unfolding find_free
find_free-eq-none zero mem b bi size e j lo hi lt = absurd (omega arith)
find_free-eq-none (suc n) mem b bi size e j lo hi lt =
    let inside : ltb (b + bi) size ≡ true = ground arith in
    elim (Bool-cases (bit_at mem bi)) [
      | inr free ↦ cc (rw (inside, free) at e)
      | inl taken ↦ elim (ℕ_discrete bi j) [
        | yes same ↦ rw (← same) taken
        | no ne ↦
            find_free-eq-none n mem b (bi + 1) size (rw (inside, taken) at e) j (omega arith)
              (omega arith) lt
      ]
    ]
