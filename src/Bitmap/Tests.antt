-- ===== src/Bitmap/Tests.antt =====
-- fs.c: the bitmap of a disk of ten blocks, and the theorems at inputs that meet their hypotheses.
use cse3320_proj1_ahmed_bahb.Common.{
  ℕ, ◌+◌, ◌/◌, ◌<◌, ◌≡◌, refl, ◌⊎◌, true, false, some, ◌==◌, if◌then◌else◌, arith,
}
use cse3320_proj1_ahmed_bahb.Common.Outcome.{ok, panic}
use cse3320_proj1_ahmed_bahb.Bitmap.{Super, Disk, bpb, bit, balloc, find_free}
use cse3320_proj1_ahmed_bahb.Bitmap.Marks.{used, IsBitmap}
use cse3320_proj1_ahmed_bahb.Bitmap.Alloc.{Allocated, balloc-Allocated}

abbrev small : Super
small = record {
  size = 10;
  nblocks = 7;
  ninodes = 8;
  nlog = 0;
  logstart = 2;
  inodestart = 1;
  bmapstart = 2;
  reads = λ b. true;
  logs = λ b. true;
}

-- Blocks 0 to 4 are used.
abbrev disk : Disk
disk b a = if b == 2 then (if a == 0 then 31 else 0) else 7

disk-IsBitmap : IsBitmap small disk
unfolding bit
disk-IsBitmap = record {
  bytes = λ b a. ground arith;
  inside = λ c lt. omega arith;
  reserved = λ c lt. let e : c / bpb + 2 ≡ 2 = omega arith in rw e refl;
}

free_bit : used small disk 5 ≡ false
unfolding bit
free_bit = refl

search_finds : find_free bpb (disk 2) 0 0 10 ≡ some 5
unfolding find_free bit
search_finds = refl

balloc-Allocated_example :
    ((c : ℕ) × (e : Disk) × (balloc small disk ≡ ok (c, e)) × Allocated small disk c e)
    ⊎ ((balloc small disk ≡ panic) × ((j : ℕ) → j < 10 → used small disk j ≡ true))
balloc-Allocated_example = balloc-Allocated small disk (λ b. (refl, refl)) disk-IsBitmap
