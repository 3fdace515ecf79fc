-- ===== src/Bitmap/Free.antt =====
-- fs.c: bfree as a change of the set of used blocks.
use cse3320_proj1_ahmed_bahb.Common.{
  ℕ, ◌<◌, ◌≡◌, ◌≢◌, refl, sym, ◌⊎◌, inl, inr, true, false, not, ◌&&◌, ◌==◌, Bool-cases,
}
use cse3320_proj1_ahmed_bahb.Common.Maps.{update_ne}
use cse3320_proj1_ahmed_bahb.Common.Outcome.{ok, panic}
use cse3320_proj1_ahmed_bahb.Bitmap.{Super, Disk, bblock, without_bit, bfree}
use cse3320_proj1_ahmed_bahb.Bitmap.Marks.{used, IsBitmap, rewritten, used-without_bit}

-- What `bfree` does to the disk.
pub record Freed (sb : Super) (d : Disk) (c : ℕ) (e : Disk) : Type 0 where
  pub was_used : used sb d c ≡ true
  pub now_used : (j : ℕ) → used sb e j ≡ (not (j == c) && used sb d j)
  pub others : (b : ℕ) → b ≢ bblock c sb → e b ≡ d b

bfree-eq-ok :
    (sb : Super) (d : Disk) (c : ℕ)
    → used sb d c ≡ true
    → bfree sb d c ≡ ok (rewritten sb d c without_bit)
unfolding bfree
bfree-eq-ok sb d c e = rw e refl

bfree-eq-panic : (sb : Super) (d : Disk) (c : ℕ) → used sb d c ≡ false → bfree sb d c ≡ panic
unfolding bfree
bfree-eq-panic sb d c e = rw e refl

-- On a disk whose bitmap is in order `bfree` of a block that is marked as used marks it and no other block
-- as free and changes only the block of its bit; it panics exactly if the block is free.
pub bfree-Freed :
    (sb : Super) (d : Disk) (c : ℕ)
    → IsBitmap sb d
    → c < sb.size
    → ((e : Disk) × (bfree sb d c ≡ ok e) × Freed sb d c e)
      ⊎ ((bfree sb d c ≡ panic) × (used sb d c ≡ false))
bfree-Freed sb d c v lt = elim (Bool-cases (used sb d c)) [
  | inr free ↦ inr (bfree-eq-panic sb d c free, free)
  | inl in_use ↦ inl (
    rewritten sb d c without_bit,
    bfree-eq-ok sb d c in_use,
    record {
      was_used = in_use;
      now_used = used-without_bit sb d v c lt;
      others = λ b ne. update_ne d (bblock c sb) b _ (λ s. ne (sym s));
    },
  )
]
