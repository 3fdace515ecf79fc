-- ===== src/Pipe.antt =====
-- pipe.c: a pipe of 512 bytes between processes.
-- `nread` and `nwrite` are uints that count bytes for ever and wrap. The pipe's lock is held from
-- the test to `sleep`, which gives it up, so a call is a sequence of runs, each up to the next `sleep`
-- or `return`. A run that sleeps returns what is left to do: the loops test again after a wakeup,
-- so that the call goes on by the same function on the rest.
pub mod Ring
pub mod Transfer
pub mod System
pub mod Stream
mod Tests
use cse3320_proj1_ahmed_bahb.Common.{
  ℕ, zero, suc, ◌+◌, ◌%◌, ◌^◌, Bool, true, false, not, ◌&&◌, ◌||◌, List, [], ◌∷◌, ◌==◌,
  if◌then◌else◌, get_or, set, replicate,
}

abbrev pub pipe_size : ℕ
pipe_size = 512

abbrev pub u32 : ℕ
u32 = 2 ^ 32

pub record Pipe : Type 0 where
  pub buf : List ℕ
  pub nread : ℕ
  pub nwrite : ℕ
  pub readopen : Bool
  pub writeopen : Bool

-- The pipe as `pipealloc` sets it up, in a page that holds anything.
unfoldable pub pipe_init : List ℕ → Pipe
pipe_init page = record { buf = page; nread = 0; nwrite = 0; readopen = true; writeopen = true }

abbrev pub is_full : Pipe → Bool
is_full p = p.nwrite == (p.nread + pipe_size) % u32

abbrev pub is_empty : Pipe → Bool
is_empty p = p.nread == p.nwrite

-- `p->data[p->nwrite++ % PIPESIZE] = x`
abbrev pub put : Pipe → ℕ → Pipe
put p x = record p { buf = set p.buf (p.nwrite % pipe_size) x; nwrite = (p.nwrite + 1) % u32 }

-- `p->data[p->nread++ % PIPESIZE]`
abbrev pub front : Pipe → ℕ
front p = get_or p.buf (p.nread % pipe_size) 0

abbrev pub advance : Pipe → Pipe
advance p = record p { nread = (p.nread + 1) % u32 }

-- How a run of `pipewrite` ends, with the bytes that it has not written.
pub data Written : Type 0 where
  all : Written
  failed : List ℕ → Written
  asleep : List ℕ → Written

-- The channel `&p->nread` is woken before the writer sleeps and at the end, not on failure.
abbrev pub wakes_readers : Written → Bool
wakes_readers all = true
wakes_readers (failed rest) = false
wakes_readers (asleep rest) = true

abbrev pub unwritten : Written → List ℕ
unwritten all = []
unwritten (failed rest) = rest
unwritten (asleep rest) = rest

-- A run of `pipewrite` for a process that is `killed` or not; the list is `addr[i..n)`.
unfoldable pub pipewrite : Bool → Pipe → List ℕ → Pipe × Written
pipewrite killed p [] = (p, all)
pipewrite killed p (x ∷ xs) =
    let rest = pipewrite killed (put p x) xs in
    if is_full p
    then (if not p.readopen || killed then (p, failed (x ∷ xs)) else (p, asleep (x ∷ xs)))
    else rest

pub data Got : Type 0 where
  bytes : List ℕ → Got
  failed : Got
  asleep : Got

-- The loop of `piperead` that copies at most `n` bytes.
unfoldable pub copy_out : ℕ → Pipe → Pipe × List ℕ
copy_out zero p = (p, [])
copy_out (suc n) p =
    let rest = copy_out n (advance p) in if is_empty p then (p, []) else (rest.0, front p ∷ rest.1)

-- A run of `piperead`. Only one that returns bytes wakes the channel `&p->nwrite`.
unfoldable pub piperead : Bool → Pipe → ℕ → Pipe × Got
piperead killed p n =
    let r = copy_out n p in
    if is_empty p && p.writeopen then (p, (if killed then failed else asleep)) else (r.0, bytes r.1)

abbrev pub wakes_writers : Got → Bool
wakes_writers (bytes bs) = true
wakes_writers failed = false
wakes_writers asleep = false

-- `pipeclose`, and whether it frees the page. The end that is closed wakes the sleepers of the other.
unfoldable pub pipeclose : Pipe → Bool → Pipe × Bool
pipeclose p writable =
    let q = if writable then record p { writeopen = false } else record p { readopen = false } in
    (q, not q.readopen && not q.writeopen)
