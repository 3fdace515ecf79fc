-- ===== src/Folders/Lookup.antt =====
-- fs.c: `dirlookup`, the search and the `iget` that ends it.
use cse3320_proj1_ahmed_bahb.Common.{
  ℕ, ◌+◌, ◌*◌, ◌/◌, ◌<◌, ◌≤◌, ◌≡◌, ◌≢◌, refl, ◌⊎◌, inl, inr, true, Option, none, some, List, ◌==◌,
  arith,
}
use cse3320_proj1_ahmed_bahb.Common.Outcome.{Outcome, ok, panic, ◌>>=◌}
use cse3320_proj1_ahmed_bahb.Strings.{Memory}
use cse3320_proj1_ahmed_bahb.Strings.Compare.{c_prefix}
use cse3320_proj1_ahmed_bahb.Bitmap.{Super}
use cse3320_proj1_ahmed_bahb.Icache.{Fs, ninode}
use cse3320_proj1_ahmed_bahb.Icache.Get.{IsCache, Gained, iget-Gained}
use cse3320_proj1_ahmed_bahb.Content.{Node, Device}
use cse3320_proj1_ahmed_bahb.Paths.{dirsiz}
use cse3320_proj1_ahmed_bahb.Folders.{dirent_size, t_dir, lookup_end, dirlookup}
use cse3320_proj1_ahmed_bahb.Folders.Entries.{IsFolder, inum_at, Matches, Kept}
use cse3320_proj1_ahmed_bahb.Folders.Rounds.{Searched, lookup_from_lem}

-- What `dirlookup` of the name `nm` ends with, from the cache `fs` on.
abbrev pub LooksUp :
    Super → Fs → ℕ → Node → ℕ → List ℕ → Outcome (Option (ℕ × ℕ) × Node × Fs) → Type 0
LooksUp sb fs dev s m nm r =
    ((j : ℕ) × (t : Node) × (j < m)
      × Matches s nm (dirent_size * j)
      × ((i : ℕ) → i < j → ¬ (Matches s nm (dirent_size * i)))
      × Kept s t
      × IsFolder sb t m
      × (((i : ℕ) × (e : Fs) × (r ≡ ok (some (dirent_size * j, i), t, e))
            × Gained (record fs { disk = t.disk }) dev (inum_at s (dirent_size * j)) i e
            × IsCache e)
          ⊎ ((r ≡ panic) × ((i : ℕ) → i < ninode → (fs.inodes i).ref ≢ 0))))
    ⊎ (((i : ℕ) → i < m → ¬ (Matches s nm (dirent_size * i)))
        × ((t : Node) × (r ≡ ok (none, t, fs)) × Kept s t × IsFolder sb t m))

lookup_end-Searched :
    (sb : Super) (fs : Fs) (dev : ℕ) (s : Node) (m : ℕ) (nm : List ℕ)
    (r : Outcome (Option (ℕ × ℕ) × Node))
    → IsCache fs
    → Searched sb s m nm 0 r
    → LooksUp sb fs dev s m nm (r >>= lookup_end fs dev)
unfolding lookup_end
lookup_end-Searched sb fs dev s m nm r v (inl (j, t, lo, hi, hit, first, e, kept, folder)) = inl (
  j,
  t,
  hi,
  hit,
  λ i lt. first i (omega arith) lt,
  kept,
  folder,
  elim (iget-Gained (record fs { disk = t.disk }) dev (inum_at s (dirent_size * j)) v) [
    | inl (i, c, g, gained) ↦ inl (i, c, rw (e, g) refl, gained, gained.keeps)
    | inr (g, all) ↦ inr (rw (e, g) refl, all)
  ],
)
lookup_end-Searched sb fs dev s m nm r v (inr (missing, (t, e, kept, folder))) =
    inr (λ i lt. missing i (omega arith) lt, (t, rw e refl, kept, folder))

-- `dirlookup` in a directory that is in order, whose entries all have blocks, for a name that lies outside
-- of `de`, with a cache of inodes that is in order, where no call of `bread` or `log_write` panics. If an
-- entry is in use and its name, cut at DIRSIZ bytes, is the name sought, it gives the offset of the first
-- such entry and a reference to its inode more, in a cache that is in order; it panics only if there is
-- such an entry and all the entries of the cache are in use. It gives 0, with the cache as before, if there
-- is no such entry. The directory keeps its bytes and stays in order.
pub dirlookup_lem :
    (devsw : ℕ → Option Device) (sb : Super) (m name : ℕ)
    → dirent_size ≤ name
    → (fs : Fs) (dev : ℕ) (s : Node) (mem : Memory) → IsFolder sb s m
    → IsCache fs
    → LooksUp sb fs dev s m (c_prefix dirsiz mem name) (dirlookup devsw sb fs dev s mem name)
unfolding dirlookup
dirlookup_lem devsw sb m name away fs dev s mem v c =
    let size = v.size in
    let type = v.type in
    let is_dir : (s.fields.type == t_dir) ≡ true = ground arith in
    let rounds : s.fields.size / dirent_size + 1 ≡ m + 1 = rw (size) (omega arith) in
    let loop = lookup_from_lem devsw sb m name away (m + 1) s mem 0 (omega arith) (omega arith) v in
    rw (is_dir, rounds) (lookup_end-Searched sb fs dev s m (c_prefix dirsiz mem name) _ c loop)
