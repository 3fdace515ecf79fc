-- ===== src/Bitmap/Alloc.antt =====
-- fs.c: balloc as a change of the set of used blocks.
use cse3320_proj1_ahmed_bahb.Common.{
  ℕ, ◌+◌, ◌%◌, ◌<◌, ◌≡◌, ◌≢◌, refl, sym, ap, ◌∙◌, ◌⊎◌, inl, inr, true, false, ◌||◌, ◌==◌, arith,
  ℕ_discrete,
}
use cse3320_proj1_ahmed_bahb.Common.Maps.{update_ne}
use cse3320_proj1_ahmed_bahb.Common.Outcome.{ok, panic}
use cse3320_proj1_ahmed_bahb.Strings.{Memory}
use cse3320_proj1_ahmed_bahb.Bitmap.{
  Super, Disk, bpb, block_size, bblock, bit_at, with_bit, zeroed_block, balloc, Returns,
}
use cse3320_proj1_ahmed_bahb.Bitmap.Bits.{AreBytes, with_bit-AreBytes}
use cse3320_proj1_ahmed_bahb.Bitmap.Marks.{
  used, IsBitmap, rewritten, zeroed_block-ne, zeroed_block-at, take_block-eq, used-with_bit,
  AreBytes-rewritten,
}
use cse3320_proj1_ahmed_bahb.Bitmap.Search.{balloc_from-cases}

-- What `balloc` does to the disk when it returns block `c`.
pub record Allocated (sb : Super) (d : Disk) (c : ℕ) (e : Disk) : Type 0 where
  pub inside : c < sb.size
  pub was_free : used sb d c ≡ false
  pub lowest : (j : ℕ) → j < c → used sb d j ≡ true
  pub now_used : (j : ℕ) → j < sb.size → used sb e j ≡ (j == c || used sb d j)
  pub zeroed : (a : ℕ) → a < block_size → e c a ≡ 0
  pub others : (b : ℕ) → b ≢ c → b ≢ bblock c sb → e b ≡ d b
  pub keeps : IsBitmap sb e

module _ (sb : Super) (d : Disk) (v : IsBitmap sb d) (c : ℕ) (lt : c < sb.size) where
  -- Zeroing a free block leaves the bitmap alone.
  used-zeroed_block :
      (e : Disk)
      → used sb d c ≡ false
      → (j : ℕ) → j < sb.size
      → used sb (zeroed_block e c) j ≡ used sb e j
  used-zeroed_block e free j lt' =
      let ne : c ≢ bblock j sb = λ same. cc (rw same at free, v.reserved j lt') in
      ap (λ (m : Memory). bit_at m (j % bpb)) (zeroed_block-ne e c (bblock j sb) ne)

  AreBytes-zeroed_block :
      (e : Disk) → ((b : ℕ) → AreBytes (e b)) → (b : ℕ) → AreBytes (zeroed_block e c b)
  AreBytes-zeroed_block e bytes b a = elim (ℕ_discrete c b) [
    | yes same ↦ let x = bytes c a in rw (← same, zeroed_block-at e c a) (ground arith)
    | no ne ↦ rw (zeroed_block-ne e c b ne) (bytes b a)
  ]

  taken-Allocated :
      used sb d c ≡ false
      → ((j : ℕ) → j < c → used sb d j ≡ true)
      → Allocated sb d c (zeroed_block (rewritten sb d c with_bit) c)
  taken-Allocated free lowest =
      let e = rewritten sb d c with_bit in
      let now =
        λ (j : ℕ) (h : j < sb.size). used-zeroed_block e free j h ∙ used-with_bit sb d v c lt j in
      record {
        inside = lt;
        was_free = free;
        lowest = lowest;
        now_used = now;
        zeroed = λ a h. zeroed_block-at e c a ∙ ground arith;
        others = λ b ne nb.
            zeroed_block-ne e c b (λ s. ne (sym s))
            ∙ update_ne d (bblock c sb) b _ (λ s. nb (sym s));
        keeps = record {
          bytes =
              AreBytes-zeroed_block e
                (AreBytes-rewritten sb d v c lt with_bit (λ m bs bi. with_bit-AreBytes m bs bi));
          inside = v.inside;
          reserved = λ j h. now (bblock j sb) (v.inside j h) ∙ rw (v.reserved j h) (ground arith);
        };
      }

-- On a disk whose bitmap is in order, where no call of `bread` or `log_write` panics, `balloc` takes the
-- lowest free block, marks it and no other block as used, fills it with zeros, and changes no other block
-- but that of its bit; it panics exactly if no block is free.
pub balloc-Allocated :
    (sb : Super) (d : Disk)
    → Returns sb
    → IsBitmap sb d
    → ((c : ℕ) × (e : Disk) × (balloc sb d ≡ ok (c, e)) × Allocated sb d c e)
      ⊎ ((balloc sb d ≡ panic) × ((j : ℕ) → j < sb.size → used sb d j ≡ true))
unfolding balloc
balloc-Allocated sb d calls v =
    elim (balloc_from-cases (sb.size + 1) sb d 0 calls refl (omega arith)
      (λ j lt. absurd (omega arith))) [
        | inr full ↦ inr full
        | inl (c, e, lt, free, lowest) ↦ inl (
          c,
          zeroed_block (rewritten sb d c with_bit) c,
          e ∙ rw (take_block-eq sb d c calls) refl,
          taken-Allocated sb d v c lt free lowest,
        )
      ]
