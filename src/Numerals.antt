-- ===== src/Numerals.antt =====
-- printf.c and ulib.c: printint and atoi.
-- An int is its word, a number below 2 ^ 32, so that a negative one is 2 ^ 31 or more. The text that is
-- written and a string up to its NUL are lists of bytes. `none` means that `buf` is full.
pub mod RoundTrip
mod Tests
use cse3320_proj1_ahmed_bahb.Common.{
  ℕ, zero, suc, ◌+◌, ◌-◌, ◌*◌, ◌/◌, ◌%◌, ◌^◌, List, [], ◌∷◌, Bool, ◌&&◌, Option, none, some, ltb,
  leb, ◌==◌, if◌then◌else◌,
}

-- The size of `buf`.
abbrev pub buf_size : ℕ
buf_size = 16

-- `digits[d]`
abbrev pub digit : ℕ → ℕ
digit d = if ltb d 10 then 48 + d else 55 + d

-- The loop that fills `buf` from place `i` on, with `n` places left: what it puts there and how many places
-- are left then.
unfoldable pub fill : ℕ → ℕ → ℕ → Option (List ℕ × ℕ)
fill zero base x = none
fill (suc n) base x =
    let rest : Option (List ℕ × ℕ) = elim (fill n base (x / base)) [
      | none ↦ none
      | some r ↦ some (digit (x % base) ∷ r.0, r.1)
    ] in
    if x / base == 0 then some (digit (x % base) ∷ [], n) else rest

-- The last loop, which writes `buf` from its end: `text` is what it writes after these bytes.
abbrev pub backwards : List ℕ → List ℕ → List ℕ
backwards [] text = text
backwards (c ∷ cs) text = backwards cs (c ∷ text)

abbrev pub is_negative : ℕ → Bool → Bool
is_negative xx sgn = sgn && leb (2 ^ 31) xx

-- The minus sign comes last into `buf` and is the first byte that is written.
unfoldable pub printint : ℕ → ℕ → Bool → Option (List ℕ)
printint xx base sgn =
    let neg = is_negative xx sgn in
    let x = if neg then (2 ^ 32 - xx) % 2 ^ 32 else xx in
    elim (fill buf_size base x) [
      | none ↦ none
      | some (cs, left) ↦
          if neg
          then (if left == 0 then none else some (b'-' ∷ backwards cs []))
          else some (backwards cs [])
    ]

-- The loop of `atoi`.
unfoldable pub atoi_from : ℕ → List ℕ → ℕ
atoi_from n [] = n
atoi_from n (c ∷ s) =
    let rest = atoi_from ((n * 10 + c - 48) % 2 ^ 32) s in if leb 48 c && leb c 57 then rest else n

abbrev pub atoi : List ℕ → ℕ
atoi s = atoi_from 0 s
