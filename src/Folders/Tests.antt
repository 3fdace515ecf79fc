-- ===== src/Folders/Tests.antt =====
-- fs.c: a directory with a free entry and one for the name "a", and the theorem at it.
use cse3320_proj1_ahmed_bahb.Common.{
  ℕ, ◌/◌, ◌<◌, ◌≡◌, ◌≢◌, refl, false, Option, none, ◌==◌, if◌then◌else◌, arith,
}
use cse3320_proj1_ahmed_bahb.Strings.{Memory}
use cse3320_proj1_ahmed_bahb.Strings.Compare.{c_prefix}
use cse3320_proj1_ahmed_bahb.Bitmap.{block_size}
use cse3320_proj1_ahmed_bahb.Content.{Node, Device}
use cse3320_proj1_ahmed_bahb.Content.Places.{place, place_of}
use cse3320_proj1_ahmed_bahb.Content.Samples.{small_disk, sample, place-sample, sample-IsFile}
use cse3320_proj1_ahmed_bahb.Icache.{Inode, Fs}
use cse3320_proj1_ahmed_bahb.Icache.Get.{IsCache}
use cse3320_proj1_ahmed_bahb.Paths.{dirsiz}
use cse3320_proj1_ahmed_bahb.Folders.{dirlookup}
use cse3320_proj1_ahmed_bahb.Folders.Entries.{IsFolder}
use cse3320_proj1_ahmed_bahb.Folders.Lookup.{LooksUp, dirlookup_lem}

abbrev entries : Memory
entries a = if a == 16 then 5 else (if a == 18 then b'a' else 0)

abbrev folder : Node
folder = sample 1 32 entries

abbrev sought : Memory
sought a = if a == 16 then b'a' else 0

folder-dense : (x : ℕ) → x < 32 → place folder (place_of (x / block_size)) ≢ 0
folder-dense x h =
    let e : x / block_size ≡ 0 = omega arith in
    let p = place-sample 1 32 entries 0 in rw (e) (λ z. ground arith)

folder-IsFolder : IsFolder small_disk folder 2
folder-IsFolder = record {
  file = sample-IsFile 1 32 entries (λ a. ground arith);
  type = refl;
  size = refl;
  fits = omega arith;
  dense = folder-dense;
}

abbrev no_device : ℕ → Option Device
no_device major = none

abbrev no_inode : Inode
no_inode = record {
  dev = 0;
  inum = 0;
  ref = 0;
  busy = false;
  valid = false;
  fields = folder.fields;
}

-- The directory itself is the one inode in use.
abbrev cache : Fs
cache = record {
  sb = small_disk;
  disk = folder.disk;
  inodes = λ i. if i == 0 then record no_inode { dev = 1; inum = 1; ref = 1 } else no_inode;
}

cache-IsCache : IsCache cache
cache-IsCache i j hi hj ui uj ed ei = ground arith

dirlookup_example :
    LooksUp small_disk cache 1 folder 2
      (c_prefix dirsiz sought 16)
      (dirlookup no_device small_disk cache 1 folder sought 16)
dirlookup_example =
    dirlookup_lem no_device small_disk 2 16 (omega arith) cache 1 folder sought folder-IsFolder
      cache-IsCache
