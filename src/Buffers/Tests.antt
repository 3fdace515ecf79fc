-- ===== src/Buffers/Tests.antt =====
-- bio.c: the buffer cache after `binit`, and with one buffer held.
use cse3320_proj1_ahmed_bahb.Common.{ℕ, zero, suc, ◌≤◌, ◌<◌, ◌≡◌, refl, true, false, arith}
use cse3320_proj1_ahmed_bahb.Buffers.{Buf, Bcache, nbuf, no_dev, set_buf, init_from, caches, binit}
use cse3320_proj1_ahmed_bahb.Buffers.Order.{down, binit_lem}
use cse3320_proj1_ahmed_bahb.Buffers.Search.{Fails}
use cse3320_proj1_ahmed_bahb.Buffers.Lookup.{
  Fetched, Has, IsBcache, reassigned, fresh-IsUnique, bget_lem,
}
use cse3320_proj1_ahmed_bahb.Buffers.Reads.{Reading, IsCurrent, hold-IsCurrent, bread_lem}
use cse3320_proj1_ahmed_bahb.Buffers.Release.{Released, binit-IsBcache, brelse-IsBcache}
use cse3320_proj1_ahmed_bahb.Buffers.Writes.{WrittenThrough, write_through}

abbrev zeros : Bcache
zeros = record {
  buf = λ b. record {
    dev = 0;
    blockno = 0;
    busy = false;
    valid = false;
    dirty = false;
    bytes = λ i. 0;
  };
  next = λ b. 0;
  prev = λ b. 0;
  disksize = 1000;
  disk = λ k i. k;
}

abbrev booted : Bcache
booted = binit zeros

booted-IsBcache : IsBcache booted (down nbuf) × IsCurrent booted (down nbuf)
booted-IsBcache = binit-IsBcache zeros (λ k. (refl, refl))

Fails-empty :
    (buf : ℕ → Buf) (n : ℕ)
    → n ≤ nbuf
    → ((k : ℕ) → k < nbuf → (buf k).dev ≡ no_dev)
    → Fails (λ k. caches 1 5 (buf k)) (down n)
Fails-empty buf zero h f = tt
Fails-empty buf (suc n) h f =
    let e = f n (omega arith) in (ground arith, Fails-empty buf n (omega arith) f)

booted_disksize : booted.disksize ≡ 1000
unfolding binit init_from
booted_disksize = refl

-- Buffer 3 holds block 5 for a process, with bytes that wait for the log.
abbrev taken : Buf
taken = record (reassigned (booted.buf 3) 1 5) { valid = true; dirty = true; bytes = λ i. 7 }

abbrev held : Bcache
held = set_buf booted 3 taken

held-IsBcache : IsBcache held (down nbuf)
held-IsBcache =
    let ((r, len, u), cur) = booted-IsBcache in
    (
      r,
      len,
      fresh-IsUnique booted.buf (down nbuf) 3 taken
          (Fails-empty booted.buf nbuf (omega arith) (binit_lem zeros).1) u,
    )

held-IsCurrent : IsCurrent held (down nbuf)
held-IsCurrent = hold-IsCurrent booted (down nbuf) 3 taken refl booted-IsBcache.1

three_in : Has 3 (down nbuf)
three_in h = ground arith

binit-IsBcache_example : IsBcache booted (down nbuf) × IsCurrent booted (down nbuf)
binit-IsBcache_example = binit-IsBcache zeros (λ k. (refl, refl))

bget_example : Fetched booted (down nbuf) 1 5
bget_example = bget_lem booted (down nbuf) booted-IsBcache.0 1 5

bread_example : Reading booted (down nbuf) 5
bread_example =
    bread_lem booted (down nbuf) booted-IsBcache.0 booted-IsBcache.1 5
      (rw (booted_disksize) (omega arith))

write_through_example : WrittenThrough held 3
write_through_example =
    write_through held (down nbuf) 3 held-IsBcache held-IsCurrent three_in refl refl
      (rw (booted_disksize) (omega arith))

brelse-IsBcache_example : Released held (down nbuf) 3
brelse-IsBcache_example =
    brelse-IsBcache held (down nbuf) 3 held-IsBcache held-IsCurrent three_in refl
      (λ z. refl, λ e z e'. ground arith)
