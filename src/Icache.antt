-- ===== src/Icache.antt =====
-- fs.c: the cache of inodes in memory: iget, idup, ilock, iunlock, iput, and itrunc, which iput calls.
-- An inode is named by its index in the cache, below NINODE. What runs between two calls of
-- `acquire(&icache.lock)` and `sleep` is one step; `iput` is one step too. `bfree` reads the super block
-- again, which does not change.
pub mod Count
pub mod Get
pub mod Put
pub mod Held
mod Tests
use cse3320_proj1_ahmed_bahb.Common.{
  ℕ, zero, suc, ◌+◌, ◌-◌, Bool, true, false, not, ◌&&◌, ◌||◌, List, [], ◌∷◌, Option, none, some,
  take, get_or, replicate, ltb, ◌==◌, if◌then◌else◌,
}
use cse3320_proj1_ahmed_bahb.Common.Maps.{update}
use cse3320_proj1_ahmed_bahb.Common.Outcome.{Outcome, ok, panic, ◌>>=◌}
use cse3320_proj1_ahmed_bahb.Bitmap.{Super, Disk, bfree}
use cse3320_proj1_ahmed_bahb.Dinode.{Dinode, ndirect, load_words, dinode_at, iupdate}

-- The fields of the disk inode are in `fields`.
pub record Inode : Type 0 where
  pub dev : ℕ
  pub inum : ℕ
  pub ref : ℕ
  pub busy : Bool
  pub valid : Bool
  pub fields : Dinode

pub record Fs : Type 0 where
  pub sb : Super
  pub disk : Disk
  pub inodes : ℕ → Inode

abbrev pub ninode : ℕ
ninode = 50

abbrev pub nindirect : ℕ
nindirect = 128

abbrev pub set_inode : Fs → ℕ → Inode → Fs
set_inode s i ip = record s { inodes = update s.inodes i ip }

abbrev pub is_inode : ℕ → ℕ → Inode → Bool
is_inode dev inum ip = ltb 0 ip.ref && (ip.dev == dev && ip.inum == inum)

-- `if(empty == 0 && ip->ref == 0) empty = ip;`
abbrev pub remember : Option ℕ → ℕ → Inode → Option ℕ
remember none i ip = if ip.ref == 0 then some i else none
remember (some e) i ip = some e

-- The loop of `iget` from entry `i` on: the entry of the inode, or none and the first empty one.
pub iget_scan : ℕ → (ℕ → Inode) → ℕ → ℕ → ℕ → Option ℕ → Option ℕ × Option ℕ
iget_scan zero t i dev inum empty = (none, empty)
iget_scan (suc n) t i dev inum empty =
    let rest = iget_scan n t (i + 1) dev inum (remember empty i (t i)) in
    if is_inode dev inum (t i) then (some i, empty) else rest

abbrev pub recycled : Inode → ℕ → ℕ → Inode
recycled ip dev inum = record ip { dev = dev; inum = inum; ref = 1; busy = false; valid = false }

abbrev pub referenced : Inode → Inode
referenced ip = record ip { ref = ip.ref + 1 }

-- What `iget` does after the loop.
abbrev pub iget_end : Fs → ℕ → ℕ → Option ℕ × Option ℕ → Outcome (ℕ × Fs)
iget_end s dev inum (some i, empty) = ok (i, set_inode s i (referenced (s.inodes i)))
iget_end s dev inum (none, some i) = ok (i, set_inode s i (recycled (s.inodes i) dev inum))
iget_end s dev inum (none, none) = panic

unfoldable pub iget : Fs → ℕ → ℕ → Outcome (ℕ × Fs)
iget s dev inum = iget_end s dev inum (iget_scan ninode s.inodes 0 dev inum none)

unfoldable pub idup : Fs → ℕ → Fs
idup s i = set_inode s i (referenced (s.inodes i))

-- `none` means that the caller sleeps and tries again.
unfoldable pub ilock : Fs → Option ℕ → Outcome (Option Fs)
ilock s none = panic
ilock s (some i) =
    let ip = s.inodes i in
    let dip = dinode_at s.sb s.disk ip.inum in
    if ip.ref == 0
    then panic
    else (if ip.busy
        then ok none
        else (if ip.valid
            then ok (some (set_inode s i (record ip { busy = true })))
            else (if dip.type == 0
                then panic
                else ok (
                    some (set_inode s i (record ip { busy = true; valid = true; fields = dip }))))))

unfoldable pub iunlock : Fs → Option ℕ → Outcome Fs
iunlock s none = panic
iunlock s (some i) =
    let ip = s.inodes i in
    if not ip.busy || ip.ref == 0 then panic else ok (set_inode s i (record ip { busy = false }))

-- `if(addr) bfree(dev, addr);` for each address.
pub free_all : Super → List ℕ → Disk → Outcome Disk
free_all sb [] disk = ok disk
free_all sb (b ∷ bs) disk = (if b == 0 then ok disk else bfree sb disk b) >>= λ d. free_all sb bs d

-- The part of `itrunc` for the indirect block.
unfoldable pub free_indirect : Super → ℕ → Disk → Outcome Disk
free_indirect sb b disk =
    if b == 0
    then ok disk
    else (free_all sb (load_words nindirect (disk b) 0) disk >>= λ d. bfree sb d b)

unfoldable pub itrunc : Fs → ℕ → Outcome Fs
itrunc s i =
    let ip = s.inodes i in
    let f = record ip.fields { addrs = replicate (ndirect + 1) 0; size = 0 } in
    free_all s.sb (take ndirect ip.fields.addrs) s.disk >>= λ d.
    free_indirect s.sb (get_or ip.fields.addrs ndirect 0) d >>= λ e. ok (record s {
      disk = iupdate s.sb e ip.inum f;
      inodes = update s.inodes i (record ip { fields = f });
    })

-- `ip->type = 0; iupdate(ip);` and the reset of the flags.
unfoldable pub free_inode : Fs → ℕ → Fs
free_inode s i =
    let ip = s.inodes i in
    let f = record ip.fields { type = 0 } in
    record s {
      disk = iupdate s.sb s.disk ip.inum f;
      inodes = update s.inodes i (record ip { fields = f; busy = false; valid = false });
    }

abbrev pub drop_ref : Fs → ℕ → Fs
drop_ref s i = set_inode s i (record (s.inodes i) { ref = (s.inodes i).ref - 1 })

unfoldable pub iput : Fs → ℕ → Outcome Fs
iput s i =
    let ip = s.inodes i in
    if ip.ref == 1 && (ip.valid && ip.fields.nlink == 0)
    then (if ip.busy
        then panic
        else (itrunc (set_inode s i (record ip { busy = true })) i >>= λ t.
            ok (drop_ref (free_inode t i) i)))
    else ok (drop_ref s i)

unfoldable pub iunlockput : Fs → ℕ → Outcome Fs
iunlockput s i = iunlock s (some i) >>= λ t. iput t i
