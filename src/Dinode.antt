-- ===== src/Dinode.antt =====
-- fs.c: inodes on the disk, as ialloc, iupdate and ilock read and write them (struct dinode of fs.h).
-- A short and an uint of the disk are numbers below 2 ^ 16 and 2 ^ 32, their low byte first.
pub mod Words
pub mod Layout
pub mod Update
mod Tests
use cse3320_proj1_ahmed_bahb.Common.{
  ℕ, zero, suc, ◌+◌, ◌-◌, ◌*◌, ◌/◌, ◌%◌, List, [], ◌∷◌, ltb, ◌==◌, if◌then◌else◌, replicate,
}
use cse3320_proj1_ahmed_bahb.Common.Maps.{update}
use cse3320_proj1_ahmed_bahb.Common.Outcome.{Outcome, ok, panic}
use cse3320_proj1_ahmed_bahb.Strings.{Memory, store32}
use cse3320_proj1_ahmed_bahb.Args.{load}
use cse3320_proj1_ahmed_bahb.Bitmap.{Super, Disk}

pub record Dinode : Type 0 where
  pub type : ℕ
  pub major : ℕ
  pub minor : ℕ
  pub nlink : ℕ
  pub size : ℕ
  pub addrs : List ℕ

abbrev pub ndirect : ℕ
ndirect = 12

abbrev pub ipb : ℕ
ipb = 8

abbrev pub dinode_size : ℕ
dinode_size = 64

abbrev pub iblock : ℕ → Super → ℕ
iblock i sb = i / ipb + sb.inodestart

-- `(struct dinode*)bp->data + inum%IPB`
abbrev pub slot : ℕ → ℕ
slot i = i % ipb * dinode_size

abbrev pub load16 : Memory → ℕ → ℕ
load16 mem a = mem a + mem (a + 1) * 256

abbrev pub store16 : Memory → ℕ → ℕ → Memory
store16 mem a w = update (update mem a (w % 256)) (a + 1) (w / 256 % 256)

pub load_words : ℕ → Memory → ℕ → List ℕ
load_words zero mem a = []
load_words (suc n) mem a = load mem a ∷ load_words n mem (a + 4)

pub store_words : List ℕ → Memory → ℕ → Memory
store_words [] mem a = mem
store_words (w ∷ ws) mem a = store_words ws (store32 mem a w) (a + 4)

unfoldable pub read_dinode : Memory → ℕ → Dinode
read_dinode mem a = record {
  type = load16 mem a;
  major = load16 mem (a + 2);
  minor = load16 mem (a + 4);
  nlink = load16 mem (a + 6);
  size = load mem (a + 8);
  addrs = load_words (ndirect + 1) mem (a + 12);
}

-- The assignments of `iupdate` to `dip`.
unfoldable pub write_dinode : Memory → ℕ → Dinode → Memory
unfolding store_words
write_dinode mem a d =
    let m1 = store16 mem a d.type in
    let m2 = store16 m1 (a + 2) d.major in
    let m3 = store16 m2 (a + 4) d.minor in
    let m4 = store16 m3 (a + 6) d.nlink in
    let m5 = store32 m4 (a + 8) d.size in store_words d.addrs m5 (a + 12)

-- The inode `i` on the disk.
unfoldable pub dinode_at : Super → Disk → ℕ → Dinode
dinode_at sb disk i = read_dinode (disk (iblock i sb)) (slot i)

-- `iupdate` of an in-memory inode with the number `i` and these fields.
unfoldable pub iupdate : Super → Disk → ℕ → Dinode → Disk
iupdate sb disk i d = update disk (iblock i sb) (write_dinode (disk (iblock i sb)) (slot i) d)

-- `memset(dip, 0, sizeof(*dip)); dip->type = type;`
abbrev pub blank : ℕ → Dinode
blank type = record {
  type = type;
  major = 0;
  minor = 0;
  nlink = 0;
  size = 0;
  addrs = replicate (ndirect + 1) 0;
}

-- The loop of `ialloc` from inode `i` on, with `n` inodes left. The block is as after an `iupdate` of a
-- blank inode. The call `iget` at the end is in Icache.
pub ialloc_from : ℕ → Super → Disk → ℕ → ℕ → Outcome (ℕ × Disk)
ialloc_from zero sb disk i type = panic
ialloc_from (suc n) sb disk i type =
    let rest = ialloc_from n sb disk (i + 1) type in
    if (dinode_at sb disk i).type == 0 then ok (i, iupdate sb disk i (blank type)) else rest

unfoldable pub ialloc : Super → Disk → ℕ → Outcome (ℕ × Disk)
ialloc sb disk type = ialloc_from (sb.ninodes - 1) sb disk 1 type
