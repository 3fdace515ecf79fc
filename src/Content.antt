-- ===== src/Content.antt =====
-- fs.c: the contents of files: bmap, readi, writei and stati.
-- A node is the in-memory inode that the caller has locked, with the disk. The source and the target of a
-- copy are a block and the caller's memory, which do not overlap, so that `memmove` is `copied`
-- (Strings/Move has `memmove` itself). `tot`, `off` and the pointer move together in the loops: `n` here is
-- what is left of `n - tot`.
pub mod Places
pub mod Grow
pub mod Bmap
pub mod Entry
pub mod Mapping
pub mod Bytes
pub mod Write
pub mod Read
pub mod Files
pub mod Extend
pub mod RoundTrip
pub mod Samples
mod Tests
use cse3320_proj1_ahmed_bahb.Common.{
  ℕ, zero, suc, ◌+◌, ◌-◌, ◌*◌, ◌/◌, ◌%◌, ◌^◌, Bool, ◌&&◌, ◌||◌, Option, none, some, get_or, set,
  min, ltb, leb, ◌==◌, if◌then◌else◌,
}
use cse3320_proj1_ahmed_bahb.Common.Maps.{update}
use cse3320_proj1_ahmed_bahb.Common.Outcome.{Outcome, ok, panic, calling, ◌>>=◌}
use cse3320_proj1_ahmed_bahb.Strings.{Memory, store32}
use cse3320_proj1_ahmed_bahb.Strings.Move.{within}
use cse3320_proj1_ahmed_bahb.Args.{load}
use cse3320_proj1_ahmed_bahb.Bitmap.{Super, Disk, block_size, balloc}
use cse3320_proj1_ahmed_bahb.Dinode.{Dinode, ndirect, iblock, iupdate}
use cse3320_proj1_ahmed_bahb.Icache.{Inode, nindirect}

pub record Node : Type 0 where
  pub disk : Disk
  pub fields : Dinode

abbrev pub set_addr : Dinode → ℕ → ℕ → Dinode
set_addr f k c = record f { addrs = set f.addrs k c }

-- `if((addr = ip->addrs[k]) == 0) ip->addrs[k] = addr = balloc(ip->dev);`
unfoldable pub map_slot : Super → Node → ℕ → Outcome (ℕ × Node)
map_slot sb s k =
    let addr = get_or s.fields.addrs k 0 in
    if addr == 0
    then (balloc sb s.disk >>= λ r.
        ok (r.0, record { disk = r.1; fields = set_addr s.fields k r.0 }))
    else ok (addr, s)

-- The same for the word `a[k]` of the indirect block `b`.
unfoldable pub map_entry : Super → Node → ℕ → ℕ → Outcome (ℕ × Node)
map_entry sb s b k =
    let addr = load (s.disk b) (4 * k) in
    calling (sb.reads b) (
      if addr == 0
      then (balloc sb s.disk >>= λ r.
          calling (sb.logs b)
            (ok (r.0, record s { disk = update r.1 b (store32 (r.1 b) (4 * k) r.0) })))
      else ok (addr, s))

unfoldable pub bmap : Super → Node → ℕ → Outcome (ℕ × Node)
bmap sb s bn =
    if ltb bn ndirect
    then map_slot sb s bn
    else (if ltb (bn - ndirect) nindirect
        then (map_slot sb s ndirect >>= λ r. map_entry sb r.1 r.0 (bn - ndirect))
        else panic)

-- `memmove(dst + d, src + s, n)` from one memory to another.
abbrev pub copied : Memory → ℕ → Memory → ℕ → ℕ → Memory
copied dst d src s n a = if within a d n then src (s + (a - d)) else dst a

-- `m = min(n - tot, BSIZE - off%BSIZE)`
abbrev pub piece : ℕ → ℕ → ℕ
piece off n = min n (block_size - off % block_size)

-- The loop of `readi`; each round moves a byte at least, so that `n` rounds are enough.
pub read_loop : ℕ → Super → Node → Memory → ℕ → ℕ → ℕ → Outcome (Memory × Node)
read_loop zero sb s dst d off n = if n == 0 then ok (dst, s) else panic
read_loop (suc fuel) sb s dst d off n =
    let round = bmap sb s (off / block_size) >>= λ r. calling (sb.reads r.0) (
      read_loop fuel sb r.1 (copied dst d (r.1.disk r.0) (off % block_size) (piece off n))
        (d + piece off n) (off + piece off n) (n - piece off n)) in
    if n == 0 then ok (dst, s) else round

-- The loop of `writei`.
pub write_loop : ℕ → Super → Node → Memory → ℕ → ℕ → ℕ → Outcome Node
write_loop zero sb s src a off n = if n == 0 then ok s else panic
write_loop (suc fuel) sb s src a off n =
    let round = bmap sb s (off / block_size) >>= λ r. calling (sb.reads r.0) (
      calling (sb.logs r.0) (
        write_loop fuel sb
          (record r.1 {
            disk =
                update r.1.disk r.0 (copied (r.1.disk r.0) (off % block_size) src a (piece off n));
          })
          src (a + piece off n) (off + piece off n) (n - piece off n))) in
    if n == 0 then ok s else round

abbrev pub t_dev : ℕ
t_dev = 3

abbrev pub ndev : ℕ
ndev = 10

abbrev pub max_bytes : ℕ
max_bytes = (ndirect + nindirect) * block_size

-- `devsw[major].read`, which may be missing, for a device; a negative `major` is one of 2 ^ 15 or more.
abbrev pub Device : Type 0
Device = Memory → ℕ → ℕ → Option (ℕ × Memory)

abbrev pub device : (ℕ → Option Device) → ℕ → Memory → ℕ → ℕ → Option (ℕ × Memory)
device devsw major mem d n =
    if leb ndev major then none else elim (devsw major) [ none ↦ none | some f ↦ f mem d n ]

-- `off > ip->size || off + n < off`
abbrev pub bad_range : ℕ → ℕ → ℕ → Bool
bad_range size off n = ltb size off || ltb ((off + n) % 2 ^ 32) off

-- `off + n > ip->size`, then `n = ip->size - off`.
abbrev pub cut_off : ℕ → ℕ → ℕ → ℕ
cut_off size off n = if ltb size ((off + n) % 2 ^ 32) then size - off else n

-- `none` stands for -1; otherwise the result and the memory.
unfoldable pub readi :
    (ℕ → Option Device) → Super → Node → Memory → ℕ → ℕ → ℕ → Outcome (Option (ℕ × Memory) × Node)
readi devsw sb s dst d off n =
    let k = cut_off s.fields.size off n in
    if s.fields.type == t_dev
    then ok (device devsw s.fields.major dst d n, s)
    else (if bad_range s.fields.size off n
        then ok (none, s)
        else (read_loop k sb s dst d off k >>= λ r. ok (some (k, r.0), r.1)))

-- `if(n > 0 && off > ip->size)`, with `off` as the loop leaves it.
unfoldable pub grow_size : Super → ℕ → Node → ℕ → ℕ → Outcome Node
grow_size sb inum s off n =
    let f = record s.fields { size = off + n } in
    if ltb 0 n && ltb s.fields.size (off + n)
    then calling (sb.reads (iblock inum sb)) (
        calling (sb.logs (iblock inum sb))
          (ok (record { disk = iupdate sb s.disk inum f; fields = f })))
    else ok s

unfoldable pub writei :
    (ℕ → Option Device) → Super → ℕ → Node → Memory → ℕ → ℕ → ℕ → Outcome (Option ℕ × Node)
writei devsw sb inum s src a off n =
    if s.fields.type == t_dev
    then ok (elim (device devsw s.fields.major src a n) [ none ↦ none | some r ↦ some r.0 ], s)
    else (if bad_range s.fields.size off n || ltb max_bytes ((off + n) % 2 ^ 32)
        then ok (none, s)
        else (write_loop n sb s src a off n >>= λ t.
            grow_size sb inum t off n >>= λ u. ok (some n, u)))

pub record Stat : Type 0 where
  pub dev : ℕ
  pub ino : ℕ
  pub type : ℕ
  pub nlink : ℕ
  pub size : ℕ

unfoldable pub stati : Inode → Stat
stati ip = record {
  dev = ip.dev;
  ino = ip.inum;
  type = ip.fields.type;
  nlink = ip.fields.nlink;
  size = ip.fields.size;
}
