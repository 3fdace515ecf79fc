-- ===== src/Bitmap/Search.antt =====
-- fs.c: the loop of balloc over the blocks of the bitmap.
use cse3320_proj1_ahmed_bahb.Common.{
  ℕ, zero, suc, ◌+◌, ◌-◌, ◌*◌, ◌/◌, ◌%◌, ◌≤◌, ◌<◌, ◌≡◌, refl, ◌⊎◌, inl, inr, true, false,
  Option-cases, ltb, arith, dec_lt, Bool-cases,
}
use cse3320_proj1_ahmed_bahb.Common.Outcome.{ok, panic, ◌>>=◌}
use cse3320_proj1_ahmed_bahb.Bitmap.{
  Super, Disk, bpb, bblock, bit_at, find_free, take_block, balloc_from, Returns,
}
use cse3320_proj1_ahmed_bahb.Bitmap.Scan.{find_free-eq-some, find_free-eq-none}
use cse3320_proj1_ahmed_bahb.Bitmap.Marks.{used}

-- A free block that the search has found, with the disk that `balloc` leaves.
abbrev pub Found : Super → Disk → ℕ → ℕ → Type 0
Found sb d fuel b =
    (c : ℕ) × (balloc_from fuel sb d b
      ≡ (take_block sb d (c / bpb * bpb) (c % bpb) >>= λ e. ok (c, e)))
    × (c < sb.size)
    × (used sb d c ≡ false)
    × ((j : ℕ) → j < c → used sb d j ≡ true)

-- The blocks of a bitmap block that starts at `b`.
used-below :
    (sb : Super) (d : Disk) (b k : ℕ)
    → b % bpb ≡ 0
    → k ≤ bpb
    → ((j : ℕ) → j < b → j < sb.size → used sb d j ≡ true)
    → ((j : ℕ) → 0 ≤ j → j < k → b + j < sb.size → bit_at (d (bblock b sb)) j ≡ true)
    → (j : ℕ) → j < b + k
    → j < sb.size
    → used sb d j ≡ true
used-below sb d b k whole le before here j lt lt' = elim (dec_lt j b) [
  | yes h ↦ before j h lt'
  | no h ↦
      let e : b + (j - b) ≡ j = omega arith in
      let i : j % bpb ≡ j - b = omega arith in
      let q : j / bpb ≡ b / bpb = omega arith in
      rw (i, q) (here (j - b) (omega arith) (omega arith) (omega arith))
]

pub balloc_from-cases :
    (fuel : ℕ) (sb : Super) (d : Disk) (b : ℕ)
    → Returns sb
    → b % bpb ≡ 0
    → sb.size < b + fuel
    → ((j : ℕ) → j < b → j < sb.size → used sb d j ≡ true)
    → Found sb d fuel b
      ⊎ ((balloc_from fuel sb d b ≡ panic) × ((j : ℕ) → j < sb.size → used sb d j ≡ true))
unfolding balloc_from
balloc_from-cases zero sb d b calls whole fits before =
    inr (refl, λ j lt. before j (omega arith) lt)
balloc_from-cases (suc fuel) sb d b calls whole fits before = elim (Bool-cases (ltb b sb.size)) [
  | inr past ↦ inr (rw past refl, λ j lt. before j (ground arith) lt)
  | inl inside ↦
      let ready = (calls (bblock b sb)).0 in
      elim (Option-cases (find_free bpb (d (bblock b sb)) b 0 sb.size)) [
        | inr (k, found) ↦
            let r = find_free-eq-some bpb (d (bblock b sb)) b 0 sb.size k found in
            let hi = r.1 in
            let start : (b + k) / bpb * bpb ≡ b = omega arith in
            let place : (b + k) % bpb ≡ k = omega arith in
            let row : (b + k) / bpb ≡ b / bpb = omega arith in
            inl (
              b + k,
              rw (inside, ready, found, start, place) refl,
              r.2,
              rw (place, row) r.3,
              λ j lt.
                  used-below sb d b k whole (omega arith) before (λ j' lo' hi' lt'. r.4 j' lo' hi')
                    j lt (let z = r.2 in omega arith),
            )
        | inl full ↦
            let here = find_free-eq-none bpb (d (bblock b sb)) b 0 sb.size full in
            let rest =
              balloc_from-cases fuel sb d (b + bpb) calls (omega arith) (omega arith)
                (λ j lt lt'. used-below sb d b bpb whole (omega arith) before here j lt lt') in
            rw (inside, ready, full) rest
      ]
]
