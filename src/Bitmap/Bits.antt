-- ===== src/Bitmap/Bits.antt =====
-- fs.c: the bits of a byte of the bitmap.
use cse3320_proj1_ahmed_bahb.Common.{
  ℕ, zero, suc, ◌/◌, ◌%◌, ◌<◌, ◌≡◌, refl, sym, ap, ◌∙◌, Bool, true, false, not, ◌&&◌, ◌||◌, ltb,
  ◌==◌, if◌then◌else◌, Bool-cases, inl, inr, arith, ℕ_discrete,
}
use cse3320_proj1_ahmed_bahb.Common.Maps.{update}
use cse3320_proj1_ahmed_bahb.Strings.{Memory}
use cse3320_proj1_ahmed_bahb.Bitmap.{bit, with_bit, without_bit, bit_at}

-- A test at the numbers from 0 to `n - 1`.
checked : (ℕ → Bool) → ℕ → Bool
checked test zero = true
checked test (suc n) = let smaller = checked test n in if test n then smaller else false

checked-at : (test : ℕ → Bool) (n i : ℕ) → i < n → checked test n ≡ true → test i ≡ true
unfolding checked
checked-at test zero i below e = elim below [ ]
checked-at test (suc n) i below e = elim (Bool-cases (test n)) [
  | inr fails ↦ cc (rw fails at e)
  | inl passes ↦ elim (ℕ_discrete i n) [
    | yes last ↦ rw last passes
    | no earlier ↦ checked-at test n i (omega arith) (rw passes at e)
  ]
]

abbrev same : Bool → Bool → Bool
same true b = b
same false b = not b

same-eq : (a b : Bool) → same a b ≡ true → a ≡ b
same-eq true b e = ground arith
same-eq false b e = ground arith

-- Checked for all bytes and all pairs of places in them.
abbrev right : ℕ → ℕ → ℕ → Bool
right x k j =
    (ltb (with_bit x k) 256 && ltb (without_bit x k) 256)
    && (same (bit (with_bit x k) j) (j == k || bit x j)
        && same (bit (without_bit x k) j) (not (j == k) && bit x j))

abbrev right_in : ℕ → ℕ → Bool
right_in x k = checked (λ j. right x k j) 8

all_right : checked (λ x. checked (λ k. right_in x k) 8) 256 ≡ true
unfolding checked bit with_bit without_bit
all_right = refl

is_right : (x k j : ℕ) → x < 256 → k < 8 → j < 8 → right x k j ≡ true
is_right x k j hx hk hj =
    let byte = checked-at (λ x. checked (λ k. right_in x k) 8) 256 x hx all_right in
    checked-at (λ j. right x k j) 8 j hj (checked-at (λ k. right_in x k) 8 k hk byte)

module _ (x k j : ℕ) (hx : x < 256) (hk : k < 8) (hj : j < 8) where
  bit-with_bit : bit (with_bit x k) j ≡ (j == k || bit x j)
  bit-with_bit = let r = is_right x k j hx hk hj in same-eq _ _ (ground arith)

  bit-without_bit : bit (without_bit x k) j ≡ (not (j == k) && bit x j)
  bit-without_bit = let r = is_right x k j hx hk hj in same-eq _ _ (ground arith)

with_bit-lt : (x k : ℕ) → x < 256 → k < 8 → with_bit x k < 256
with_bit-lt x k hx hk = let r = is_right x k 0 hx hk (omega arith) in ground arith

without_bit-lt : (x k : ℕ) → x < 256 → k < 8 → without_bit x k < 256
without_bit-lt x k hx hk = let r = is_right x k 0 hx hk (omega arith) in ground arith

-- A block of bytes.
abbrev pub AreBytes : Memory → Type 0
AreBytes mem = (a : ℕ) → mem a < 256

module _ (mem : Memory) (bytes : AreBytes mem) (bi : ℕ) where
  pub bit_at-with_bit :
      (j : ℕ)
      → bit_at (update mem (bi / 8) (with_bit (mem (bi / 8)) (bi % 8))) j
        ≡ (j == bi || bit_at mem j)
  bit_at-with_bit j =
      let b =
        bit-with_bit (mem (bi / 8)) (bi % 8) (j % 8) (bytes (bi / 8)) (omega arith) (omega arith) in
      elim (ℕ_discrete (bi / 8) (j / 8)) [
        | yes e ↦
            let f : mem (j / 8) ≡ mem (bi / 8) = ap mem (sym e) in
            let t : (j % 8 == bi % 8) ≡ (j == bi) = ground arith in
            let u : update mem (bi / 8) (with_bit (mem (bi / 8)) (bi % 8)) (j / 8)
                ≡ with_bit (mem (bi / 8)) (bi % 8) =
              ground arith in
            rw (u, f) (b ∙ rw t refl)
        | no ne ↦
            let t : (j == bi) ≡ false = ground arith in
            let u : update mem (bi / 8) (with_bit (mem (bi / 8)) (bi % 8)) (j / 8) ≡ mem (j / 8) =
              ground arith in
            rw (u, t) refl
      ]

  pub bit_at-without_bit :
      (j : ℕ)
      → bit_at (update mem (bi / 8) (without_bit (mem (bi / 8)) (bi % 8))) j
        ≡ (not (j == bi) && bit_at mem j)
  bit_at-without_bit j =
      let b =
        bit-without_bit (mem (bi / 8)) (bi % 8) (j % 8) (bytes (bi / 8)) (omega arith)
          (omega arith) in
      elim (ℕ_discrete (bi / 8) (j / 8)) [
        | yes e ↦
            let f : mem (j / 8) ≡ mem (bi / 8) = ap mem (sym e) in
            let t : (j % 8 == bi % 8) ≡ (j == bi) = ground arith in
            let u : update mem (bi / 8) (without_bit (mem (bi / 8)) (bi % 8)) (j / 8)
                ≡ without_bit (mem (bi / 8)) (bi % 8) =
              ground arith in
            rw (u, f) (b ∙ rw t refl)
        | no ne ↦
            let t : (j == bi) ≡ false = ground arith in
            let u : update mem (bi / 8) (without_bit (mem (bi / 8)) (bi % 8)) (j / 8)
                ≡ mem (j / 8) =
              ground arith in
            rw (u, t) refl
      ]

  pub with_bit-AreBytes : AreBytes (update mem (bi / 8) (with_bit (mem (bi / 8)) (bi % 8)))
  with_bit-AreBytes a =
      let r = with_bit-lt (mem (bi / 8)) (bi % 8) (bytes (bi / 8)) (omega arith) in
      let b = bytes a in ground arith

  pub without_bit-AreBytes : AreBytes (update mem (bi / 8) (without_bit (mem (bi / 8)) (bi % 8)))
  without_bit-AreBytes a =
      let r = without_bit-lt (mem (bi / 8)) (bi % 8) (bytes (bi / 8)) (omega arith) in
      let b = bytes a in ground arith
