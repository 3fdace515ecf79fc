-- ===== src/Strings/Move.antt =====
-- string.c: memset and memmove, byte by byte.
use cse3320_proj1_ahmed_bahb.Common.{
  ℕ, zero, suc, ◌+◌, ◌-◌, ◌*◌, ◌/◌, ◌%◌, ◌≤◌, ◌<◌, ◌≡◌, ◌≢◌, ap, dec_lt, ℕ_discrete, ◌∙◌, ◌⊎◌, inl,
  inr, arith, Bool, ◌&&◌, ltb, leb, ◌==◌, if◌then◌else◌, Bool-cases,
}
use cse3320_proj1_ahmed_bahb.Common.Maps.{update}
use cse3320_proj1_ahmed_bahb.Strings.{
  Memory, stosb, stosl, store32, four_times, memset, move_up, move_down, memmove,
}

-- Whether an address lies in the `n` bytes from `d` on.
abbrev pub within : ℕ → ℕ → ℕ → Bool
within a d n = leb d a && ltb a (d + n)

stosb-at :
    (n : ℕ) (mem : Memory) (d c a : ℕ)
    → stosb n mem d c a ≡ (if within a d n then c % 256 else mem a)
unfolding stosb
stosb-at zero mem d c a = ground arith
stosb-at (suc n) mem d c a = ground (arith, stosb-at n (update mem d (c % 256)) (d + 1) c a)

store32-at :
    (mem : Memory) (d c a : ℕ)
    → c < 256
    → store32 mem d (four_times c) a ≡ (if within a d 4 then c else mem a)
store32-at mem d c a h = ground arith

stosl-at :
    (n : ℕ) (mem : Memory) (d c a : ℕ)
    → c < 256
    → stosl n mem d (four_times c) a ≡ (if within a d (4 * n) then c else mem a)
unfolding stosl
stosl-at zero mem d c a h = ground arith
stosl-at (suc n) mem d c a h =
    stosl-at n (store32 mem d (four_times c)) (d + 4) c a h
    ∙ (let one = store32-at mem d c a h in ground (arith, one))

-- `memset` sets each of the `n` bytes from `d` on to the low byte of `c` and no other byte, whether it
-- stores words or bytes.
pub memset-at :
    (mem : Memory) (d c n a : ℕ) → memset mem d c n a ≡ (if within a d n then c % 256 else mem a)
unfolding memset
memset-at mem d c n a = elim (Bool-cases (d % 4 == 0 && n % 4 == 0)) [
  | inl words ↦
      let whole : 4 * (n / 4) ≡ n = ground arith in
      rw words (
        stosl-at (n / 4) mem d (c % 256) a (omega arith)
        ∙ ap (λ (k : ℕ). if within a d k then c % 256 else mem a) whole)
  | inr single ↦ rw single (stosb-at n mem d c a)
]

move_up-at :
    (n : ℕ) (mem : Memory) (d s a : ℕ)
    → (d ≤ s) ⊎ (s + n ≤ d)
    → move_up n mem d s a ≡ (if within a d n then mem (s + (a - d)) else mem a)
unfolding move_up
move_up-at zero mem d s a h = ground arith
move_up-at (suc n) mem d s a h =
    move_up-at n (update mem d (mem s)) (d + 1) (s + 1) a (omega arith) ∙ elim (dec_lt d a) [
      | yes above ↦
          let e : s + 1 + (a - (d + 1)) ≡ s + (a - d) = omega arith in
          rw e (elim (dec_lt a (d + suc n)) [
            | yes inside ↦ let ne : d ≢ s + (a - d) = omega arith in ground arith
            | no outside ↦ ground arith
          ])
      | no not_above ↦ elim (ℕ_discrete a d) [
        | yes e ↦ let z : s + (a - d) ≡ s = omega arith in rw (z, e) (ground arith)
        | no below ↦ ground arith
      ]
    ]

move_down-at :
    (n : ℕ) (mem : Memory) (d s a : ℕ)
    → s ≤ d
    → move_down n mem d s a ≡ (if within a d n then mem (s + (a - d)) else mem a)
unfolding move_down
move_down-at zero mem d s a h = ground arith
move_down-at (suc n) mem d s a h =
    move_down-at n (update mem (d + n) (mem (s + n))) d s a h ∙ elim (ℕ_discrete a (d + n)) [
      | yes e ↦ let z : s + (a - d) ≡ s + n = omega arith in rw z (ground arith)
      | no other ↦ elim (dec_lt (s + (a - d)) (d + n)) [
        | yes before ↦ ground arith
        | no past ↦ ground arith
      ]
    ]

-- Also where the ranges overlap, `memmove` puts at each of the `n` places from `d` on the byte that the
-- place at the same distance from `s` held before the call, and changes no other byte.
pub memmove-at :
    (mem : Memory) (d s n a : ℕ)
    → memmove mem d s n a ≡ (if within a d n then mem (s + (a - d)) else mem a)
unfolding memmove
memmove-at mem d s n a = elim (Bool-cases (ltb s d && ltb d (s + n))) [
  | inl overlap ↦ rw overlap (move_down-at n mem d s a (ground arith))
  | inr apart ↦ rw apart (move_up-at n mem d s a (ground arith))
]
