-- ===== src/Bitmap.antt =====
-- fs.c: the bitmap of free blocks, for balloc and bfree.
-- A disk is the contents of its blocks as `bread` returns them, each a memory of BSIZE bytes. What
-- `log_write` does beside keeping the changed buffer is in Log.
pub mod Bits
pub mod Scan
pub mod Marks
pub mod Search
pub mod Alloc
pub mod Free
mod Tests
use cse3320_proj1_ahmed_bahb.Common.{
  ℕ, zero, suc, ◌≡◌, ◌+◌, ◌-◌, ◌*◌, ◌/◌, ◌%◌, ◌^◌, Bool, true, false, Option, none, some, ltb, ◌==◌,
  if◌then◌else◌,
}
use cse3320_proj1_ahmed_bahb.Common.Maps.{update}
use cse3320_proj1_ahmed_bahb.Common.Outcome.{Outcome, ok, panic, calling, ◌>>=◌}
use cse3320_proj1_ahmed_bahb.Strings.{Memory, memset}

-- `struct superblock`, and the calls that fs.c makes of the buffers and of the log: `reads b` and `logs b` tell
-- whether `bread` and `log_write` of block `b` return or panic.
pub record Super : Type 0 where
  pub size : ℕ
  pub nblocks : ℕ
  pub ninodes : ℕ
  pub nlog : ℕ
  pub logstart : ℕ
  pub inodestart : ℕ
  pub bmapstart : ℕ
  pub reads : ℕ → Bool
  pub logs : ℕ → Bool

-- No call of `bread` or `log_write` panics.
abbrev pub Returns : Super → Type 0
Returns sb = (b : ℕ) → (sb.reads b ≡ true) × (sb.logs b ≡ true)

abbrev pub Disk : Type 0
Disk = ℕ → Memory

abbrev pub block_size : ℕ
block_size = 512

abbrev pub bpb : ℕ
bpb = 4096

abbrev pub bblock : ℕ → Super → ℕ
bblock b sb = b / bpb + sb.bmapstart

-- `(byte & (1 << k)) != 0`, `byte | (1 << k)` and `byte & ~(1 << k)`.
unfoldable pub bit : ℕ → ℕ → Bool
bit byte k = byte / 2 ^ k % 2 == 1

pub with_bit : ℕ → ℕ → ℕ
unfolding bit
with_bit byte k = if bit byte k then byte else byte + 2 ^ k

pub without_bit : ℕ → ℕ → ℕ
unfolding bit
without_bit byte k = if bit byte k then byte - 2 ^ k else byte

-- Bit `bi` of a bitmap block.
abbrev pub bit_at : Memory → ℕ → Bool
bit_at mem bi = bit (mem (bi / 8)) (bi % 8)

abbrev pub zeroed_block : Disk → ℕ → Disk
zeroed_block d b = update d b (memset (d b) 0 0 block_size)

unfoldable pub bzero : Super → Disk → ℕ → Outcome Disk
bzero sb d b = calling (sb.reads b) (calling (sb.logs b) (ok (zeroed_block d b)))

-- The inner loop of `balloc`, with `n` rounds left before `bi` is BPB.
pub find_free : ℕ → Memory → ℕ → ℕ → ℕ → Option ℕ
find_free zero mem b bi size = none
find_free (suc n) mem b bi size =
    let rest = find_free n mem b (bi + 1) size in
    if ltb (b + bi) size then (if bit_at mem bi then rest else some bi) else none

-- The bit is set and logged, and the block filled with zeros.
unfoldable pub take_block : Super → Disk → ℕ → ℕ → Outcome Disk
unfolding with_bit bzero
take_block sb d b bi =
    let data_ = d (bblock b sb) in
    let marked = update data_ (bi / 8) (with_bit (data_ (bi / 8)) (bi % 8)) in
    calling (sb.logs (bblock b sb)) (bzero sb (update d (bblock b sb) marked) (b + bi))

-- The outer loop from block `b` on. The source's `b` and `bi` are ints, which hold the numbers of the blocks of
-- a disk of up to 2 ^ 31 blocks.
pub balloc_from : ℕ → Super → Disk → ℕ → Outcome (ℕ × Disk)
balloc_from zero sb d b = panic
balloc_from (suc fuel) sb d b =
    let rest = balloc_from fuel sb d (b + bpb) in
    let round =
      calling (sb.reads (bblock b sb)) (elim (find_free bpb (d (bblock b sb)) b 0 sb.size) [
        | some bi ↦ take_block sb d b bi >>= λ e. ok (b + bi, e)
        | none ↦ rest
      ]) in
    if ltb b sb.size then round else panic

-- `size` rounds are enough, since each adds BPB to `b`.
unfoldable pub balloc : Super → Disk → Outcome (ℕ × Disk)
unfolding balloc_from
balloc sb d = balloc_from (sb.size + 1) sb d 0

unfoldable pub bfree : Super → Disk → ℕ → Outcome Disk
unfolding without_bit
bfree sb d b =
    let data_ = d (bblock b sb) in
    let bi = b % bpb in
    if bit_at data_ bi
    then ok (update d (bblock b sb) (update data_ (bi / 8) (without_bit (data_ (bi / 8)) (bi % 8))))
    else panic
