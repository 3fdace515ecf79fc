-- ===== src/Content/Places.antt =====
-- fs.c: the block numbers of an inode, its direct and indirect ones, as one table of 141 places.
-- Places 0 to 11 are the direct blocks, 12 is the indirect block and the others are its entries.
use cse3320_proj1_ahmed_bahb.Common.{
  ℕ, ◌+◌, ◌-◌, ◌*◌, ◌^◌, ◌≤◌, ◌<◌, ◌≡◌, ◌≢◌, true, length, get_or, ltb, ◌==◌, if◌then◌else◌,
}
use cse3320_proj1_ahmed_bahb.Args.{load}
use cse3320_proj1_ahmed_bahb.Bitmap.{Super, Disk, bblock, Returns}
use cse3320_proj1_ahmed_bahb.Bitmap.Marks.{used, IsBitmap}
use cse3320_proj1_ahmed_bahb.Dinode.{ndirect}
use cse3320_proj1_ahmed_bahb.Content.{Node}

abbrev pub places : ℕ
places = 141

abbrev pub indirect : Node → ℕ
indirect s = get_or s.fields.addrs ndirect 0

-- The block number at a place, 0 if there is none.
unfoldable pub place : Node → ℕ → ℕ
place s p =
    if ltb p 13
    then get_or s.fields.addrs p 0
    else (if indirect s == 0 then 0 else load (s.disk (indirect s)) (4 * (p - 13)))

-- The place of block `bn` of the file.
abbrev pub place_of : ℕ → ℕ
place_of bn = if ltb bn ndirect then bn else bn + 1

-- A block that a file may own: on the disk, marked as used, and none of the bitmap's.
abbrev pub IsOwned : Super → Disk → ℕ → Type 0
IsOwned sb d b = (b < sb.size) × (used sb d b ≡ true) × ((j : ℕ) → j < sb.size → bblock j sb ≢ b)

-- A block in use that is not one of the file's.
abbrev pub IsApart : Super → Node → ℕ → Type 0
IsApart sb s b = (b < sb.size) × (used sb s.disk b ≡ true) × ((p : ℕ) → p < places → place s p ≢ b)

-- No call of `bread` or `log_write` panics, and the file is in order.
pub record IsFile (sb : Super) (s : Node) : Type 0 where
  pub calls : Returns sb
  pub bitmap : IsBitmap sb s.disk
  pub sized : (0 < sb.size) × (sb.size ≤ 2 ^ 32)
  pub boot : used sb s.disk 0 ≡ true
  pub count : length s.fields.addrs ≡ 13
  pub owned : (p : ℕ) → p < places → place s p ≢ 0 → IsOwned sb s.disk (place s p)
  pub distinct : (p q : ℕ) → p < places → q < places → place s p ≢ 0 → place s p ≡ place s q → p ≡ q
