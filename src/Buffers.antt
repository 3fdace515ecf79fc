-- ===== src/Buffers.antt =====
-- bio.c: the buffer cache, on the memory disk of memide.c.
-- A buffer is a number below NBUF and NBUF itself is `bcache.head`; `next` and `prev` are the links of all of them.
pub mod Ring
pub mod Relink
pub mod Search
pub mod Order
pub mod Lookup
pub mod Reads
pub mod Release
pub mod Writes
mod Tests
use cse3320_proj1_ahmed_bahb.Common.{
  ℕ, zero, suc, ◌+◌, ◌-◌, ◌*◌, ◌^◌, Bool, true, false, not, ◌&&◌, ◌||◌, Option, none, some, leb,
  ◌==◌, if◌then◌else◌,
}
use cse3320_proj1_ahmed_bahb.Common.Maps.{update}
use cse3320_proj1_ahmed_bahb.Common.Outcome.{Outcome, ok, panic, ◌>>=◌}
use cse3320_proj1_ahmed_bahb.Strings.{Memory}
use cse3320_proj1_ahmed_bahb.Bitmap.{Disk, block_size}
use cse3320_proj1_ahmed_bahb.Content.{copied}

-- The flags are B_BUSY, B_VALID and B_DIRTY.
pub record Buf : Type 0 where
  pub dev : ℕ
  pub blockno : ℕ
  pub busy : Bool
  pub valid : Bool
  pub dirty : Bool
  pub bytes : Memory

abbrev pub nbuf : ℕ
nbuf = 30

abbrev pub head : ℕ
head = 30

pub record Bcache : Type 0 where
  pub buf : ℕ → Buf
  pub next : ℕ → ℕ
  pub prev : ℕ → ℕ
  pub disksize : ℕ
  pub disk : Disk

abbrev pub set_buf : Bcache → ℕ → Buf → Bcache
set_buf s b v = record s { buf = update s.buf b v }

abbrev pub set_next : Bcache → ℕ → ℕ → Bcache
set_next s b c = record s { next = update s.next b c }

abbrev pub set_prev : Bcache → ℕ → ℕ → Bcache
set_prev s b c = record s { prev = update s.prev b c }

-- The links that put `b` behind the head, as `binit` and `brelse` set them.
abbrev pub push_front : Bcache → ℕ → Bcache
push_front s b =
    let s1 = set_next s b (s.next head) in
    let s2 = set_prev s1 b head in let s3 = set_prev s2 (s2.next head) b in set_next s3 head b

abbrev pub no_dev : ℕ
no_dev = 2 ^ 32 - 1

-- The loop of `binit` from buffer `b` on, with `n` left.
unfoldable pub init_from : ℕ → Bcache → ℕ → Bcache
init_from zero s b = s
init_from (suc n) s b =
    init_from n (set_buf (push_front s b) b (record (s.buf b) { dev = no_dev })) (b + 1)

unfoldable pub binit : Bcache → Bcache
binit s = init_from nbuf (set_next (set_prev s head head) head head) 0

abbrev pub caches : ℕ → ℕ → Buf → Bool
caches dev blockno v = v.dev == dev && v.blockno == blockno

abbrev pub is_clean : Buf → Bool
is_clean v = not v.busy && not v.dirty

-- The two loops of `bget`, from `b` on. A walk over the list ends at the head after NBUF steps at most.
unfoldable pub find_cached : ℕ → Bcache → ℕ → ℕ → ℕ → Option ℕ
find_cached zero s dev blockno b = none
find_cached (suc n) s dev blockno b =
    let rest = find_cached n s dev blockno (s.next b) in
    if b == head then none else (if caches dev blockno (s.buf b) then some b else rest)

unfoldable pub find_clean : ℕ → Bcache → ℕ → Option ℕ
find_clean zero s b = none
find_clean (suc n) s b =
    let rest = find_clean n s (s.prev b) in
    if b == head then none else (if is_clean (s.buf b) then some b else rest)

-- `none` means that the caller sleeps and tries again.
unfoldable pub bget : Bcache → ℕ → ℕ → Outcome (Option ℕ × Bcache)
bget s dev blockno = elim (find_cached (nbuf + 1) s dev blockno (s.next head)) [
  | some b ↦
      if (s.buf b).busy
      then ok (none, s)
      else ok (some b, set_buf s b (record (s.buf b) { busy = true }))
  | none ↦ elim (find_clean (nbuf + 1) s (s.prev head)) [
    | some b ↦ ok (
      some b,
      set_buf s b (record (s.buf b) {
        dev = dev;
        blockno = blockno;
        busy = true;
        valid = false;
        dirty = false;
      }),
    )
    | none ↦ panic
  ]
]

-- memide.c: a copy of BSIZE bytes between the buffer and its block.
unfoldable pub iderw : Bcache → ℕ → Outcome Bcache
iderw s b =
    let v = s.buf b in
    let k = v.blockno in
    if not v.busy || (v.valid && not v.dirty) || not (v.dev == 1) || leb s.disksize k
    then panic
    else (if v.dirty
        then ok (record s {
          buf = update s.buf b (record v { dirty = false; valid = true });
          disk = update s.disk k (copied (s.disk k) 0 v.bytes 0 block_size);
        })
        else ok (
            set_buf s b
              (record v { valid = true; bytes = copied v.bytes 0 (s.disk k) 0 block_size })))

unfoldable pub bread : Bcache → ℕ → ℕ → Outcome (Option ℕ × Bcache)
bread s dev blockno = bget s dev blockno >>= λ r. elim r.0 [
  | none ↦ ok (none, r.1)
  | some b ↦ if (r.1.buf b).valid then ok (some b, r.1) else (iderw r.1 b >>= λ t. ok (some b, t))
]

unfoldable pub bwrite : Bcache → ℕ → Outcome Bcache
bwrite s b =
    if (s.buf b).busy then iderw (set_buf s b (record (s.buf b) { dirty = true })) b else panic

unfoldable pub brelse : Bcache → ℕ → Outcome Bcache
brelse s b =
    let s1 = set_prev s (s.next b) (s.prev b) in
    let s2 = set_next s1 (s1.prev b) (s1.next b) in
    let s3 = push_front s2 b in
    if (s.buf b).busy then ok (set_buf s3 b (record (s3.buf b) { busy = false })) else panic
