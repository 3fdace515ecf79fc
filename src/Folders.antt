-- ===== src/Folders.antt =====
-- fs.c: looking up a name in a directory, on the contents of files.
-- A directory is a file of entries of 16 bytes: an inode number, 0 in a free one, and a name of at most
-- DIRSIZ bytes. `de` is at the address 0 of the caller's memory and the name that is sought at `name`.
pub mod Entries
pub mod Rounds
pub mod Lookup
mod Tests
use cse3320_proj1_ahmed_bahb.Common.{
  ℕ, zero, suc, ◌+◌, ◌/◌, Bool, true, false, not, Option, none, some, ltb, ◌==◌, if◌then◌else◌,
}
use cse3320_proj1_ahmed_bahb.Common.Outcome.{Outcome, ok, panic, ◌>>=◌}
use cse3320_proj1_ahmed_bahb.Strings.{Memory, Difference, same, more, less, strncmp}
use cse3320_proj1_ahmed_bahb.Bitmap.{Super}
use cse3320_proj1_ahmed_bahb.Dinode.{load16}
use cse3320_proj1_ahmed_bahb.Icache.{Fs, iget}
use cse3320_proj1_ahmed_bahb.Content.{Node, Device, readi}
use cse3320_proj1_ahmed_bahb.Paths.{dirsiz}

abbrev pub dirent_size : ℕ
dirent_size = 16

abbrev pub t_dir : ℕ
t_dir = 1

abbrev pub namecmp : Memory → ℕ → ℕ → Difference
namecmp mem s t = strncmp dirsiz mem s t

abbrev pub is_same : Difference → Bool
is_same same = true
is_same (more d) = false
is_same (less d) = false

-- The loop of `dirlookup` from the offset `off` on: the offset and the inode number of the entry.
unfoldable pub lookup_from :
    ℕ → (ℕ → Option Device) → Super → Node → Memory → ℕ → ℕ → Outcome (Option (ℕ × ℕ) × Node)
lookup_from zero devsw sb s mem name off = ok (none, s)
lookup_from (suc n) devsw sb s mem name off =
    let entry = readi devsw sb s mem 0 off dirent_size >>= λ r. elim r.0 [
      | none ↦ panic
      | some (k, m) ↦
          let rest = lookup_from n devsw sb r.1 m name (off + dirent_size) in
          if not (k == dirent_size)
          then panic
          else if load16 m 0 == 0
          then rest
          else if is_same (namecmp m name 2)
          then ok (some (off, load16 m 0), r.1)
          else rest
    ] in
    if ltb off s.fields.size then entry else ok (none, s)

-- `*poff = off; return iget(dp->dev, inum);`, or 0 after the loop. The cache `fs` has the disk of the node.
unfoldable pub lookup_end : Fs → ℕ → Option (ℕ × ℕ) × Node → Outcome (Option (ℕ × ℕ) × Node × Fs)
lookup_end fs dev (none, t) = ok (none, t, fs)
lookup_end fs dev (some (off, inum), t) =
    iget (record fs { disk = t.disk }) dev inum >>= λ r. ok (some (off, r.0), t, r.1)

-- There is a round for each entry, and one that ends the loop. The result is the offset of the entry and the
-- index of the inode in the cache.
unfoldable pub dirlookup :
    (ℕ → Option Device) → Super → Fs → ℕ → Node → Memory → ℕ → Outcome (Option (ℕ × ℕ) × Node × Fs)
unfolding lookup_from lookup_end
dirlookup devsw sb fs dev s mem name =
    if s.fields.type == t_dir
    then (lookup_from (s.fields.size / dirent_size + 1) devsw sb s mem name 0 >>= lookup_end fs dev)
    else panic
