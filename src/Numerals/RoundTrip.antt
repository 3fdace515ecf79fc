-- ===== src/Numerals/RoundTrip.antt =====
-- printf.c and ulib.c: atoi of what printint writes.
use cse3320_proj1_ahmed_bahb.Common.{
  ℕ, zero, suc, ◌+◌, ◌-◌, ◌*◌, ◌/◌, ◌%◌, ◌^◌, ◌≤◌, ◌<◌, ◌≡◌, ◌≢◌, refl, ◌∙◌, List, [], ◌∷◌, Bool,
  true, false, ◌&&◌, some, ltb, leb, ◌==◌, arith, ℕ_discrete, Bool-cases, ◌⊎◌, inl, inr,
}
use cse3320_proj1_ahmed_bahb.Numerals.{
  buf_size, digit, fill, backwards, is_negative, printint, atoi_from, atoi,
}

-- The powers of ten.
abbrev tens : ℕ → ℕ
tens zero = 1
tens (suc n) = 10 * tens n

-- `fill` of a number with at most `n` digits finds room, and `atoi` reads the digits back.
fill_lem :
    (n m x : ℕ)
    → 0 < n
    → n + 5 ≤ m
    → x < tens n
    → x < 2 ^ 32
    → (cs : List ℕ) × (left : ℕ) × (fill m 10 x ≡ some (cs, left))
      × (5 ≤ left)
      × ((text : List ℕ) → atoi_from 0 (backwards cs text) ≡ atoi_from x text)
unfolding fill atoi_from
fill_lem zero m x pos le h small = absurd (omega arith)
fill_lem (suc n) zero x pos le h small = absurd (omega arith)
fill_lem (suc n) (suc m) x pos le h small = elim (ℕ_discrete (x / 10) 0) [
  | yes z ↦
      let t : (x / 10 == 0) ≡ true = ground arith in
      let d : x % 10 ≡ x = omega arith in
      let lt : ltb x 10 ≡ true = ground arith in
      let one : (leb 48 (48 + x) && leb (48 + x) 57) ≡ true = ground arith in
      let v : (0 * 10 + (48 + x) - 48) % 2 ^ 32 ≡ x = omega arith in
      (
        digit (x % 10) ∷ [],
        m,
        rw (fill, t) refl,
        omega arith,
        λ text. rw (d, lt, atoi_from, one, v) refl,
      )
  | no nz ↦
      let t : (x / 10 == 0) ≡ false = ground arith in
      let some_left : 0 < n = more n x nz h in
      let r = fill_lem n m (x / 10) some_left (omega arith) (omega arith) (omega arith) in
      let lt : ltb (x % 10) 10 ≡ true = ground arith in
      let one : (leb 48 (48 + x % 10) && leb (48 + x % 10) 57) ≡ true = ground arith in
      let v : (x / 10 * 10 + (48 + x % 10) - 48) % 2 ^ 32 ≡ x = omega arith in
      (
        digit (x % 10) ∷ r.0,
        r.1,
        rw (fill, t, r.2) refl,
        r.3,
        λ text. r.4 (digit (x % 10) ∷ text) ∙ rw (lt, atoi_from, one, v) refl,
      )
]
  where
    more : (n x : ℕ) → x / 10 ≢ 0 → x < tens (suc n) → 0 < n
    more zero x ne h = absurd (omega arith)
    more (suc n) x ne h = omega arith

-- What `printint` writes in base ten, and what `atoi` reads from it.
abbrev pub Printed : ℕ → Bool → Type 0
Printed xx sgn =
    (text : List ℕ) × (printint xx 10 sgn ≡ some text)
    × (((is_negative xx sgn ≡ false) × (atoi text ≡ xx))
        ⊎ ((is_negative xx sgn ≡ true)
            × ((ds : List ℕ) × (text ≡ b'-' ∷ ds) × (atoi ds ≡ 2 ^ 32 - xx))))

module _ (xx : ℕ) (sgn : Bool) (cs : List ℕ) (left : ℕ) where
  positive-Printed :
      is_negative xx sgn ≡ false
      → fill buf_size 10 xx ≡ some (cs, left)
      → ((text : List ℕ) → atoi_from 0 (backwards cs text) ≡ atoi_from xx text)
      → Printed xx sgn
  unfolding printint atoi_from
  positive-Printed pos e reads =
      (backwards cs [], rw (printint, pos, e, pos) refl, inl (pos, reads []))

  negative-Printed :
      is_negative xx sgn ≡ true
      → (2 ^ 32 - xx) % 2 ^ 32 ≡ 2 ^ 32 - xx
      → fill buf_size 10 (2 ^ 32 - xx) ≡ some (cs, left)
      → 5 ≤ left
      → ((text : List ℕ) → atoi_from 0 (backwards cs text) ≡ atoi_from (2 ^ 32 - xx) text)
      → Printed xx sgn
  unfolding printint atoi_from
  negative-Printed neg abs e room reads =
      let r : (left == 0) ≡ false = ground arith in
      (
        b'-' ∷ backwards cs [],
        rw (printint, neg, abs, e, r, neg) refl,
        inr (neg, (backwards cs [], refl, reads [])),
      )

-- In base ten `printint` writes any int without running over its buffer, a minus sign first for a negative
-- one if signs are asked for, and `atoi` reads from the digits the number that was written: the int, or its
-- absolute value behind the sign.
pub atoi-printint : (xx : ℕ) (sgn : Bool) → xx < 2 ^ 32 → Printed xx sgn
atoi-printint xx sgn h = elim (Bool-cases (is_negative xx sgn)) [
  | inl neg ↦
      let (cs, left, e, room, reads) =
        fill_lem 11 16 (2 ^ 32 - xx) (omega arith) (omega arith) (ground arith) (ground arith) in
      negative-Printed xx sgn cs left neg (ground arith) e room reads
  | inr pos ↦
      let (cs, left, e, room, reads) =
        fill_lem 11 16 xx (omega arith) (omega arith) (omega arith) h in
      positive-Printed xx sgn cs left pos e reads
]
