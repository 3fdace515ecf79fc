-- ===== src/Pipe/System.antt =====
-- pipe.c: readers and writers of one pipe in any interleaving, with those that sleep.
use cse3320_proj1_ahmed_bahb.Common.{
  ℕ, ◌+◌, ◌-◌, ◌<◌, ◌≡◌, List, [], ◌++◌, length, take, Bool, true, false, if◌then◌else◌,
}
use cse3320_proj1_ahmed_bahb.Pipe.{
  Pipe, pipe_size, Written, unwritten, pipewrite, wakes_readers, Got, bytes, piperead,
  wakes_writers, pipeclose,
}
use cse3320_proj1_ahmed_bahb.Pipe.Ring.{IsValid, count, contents}

-- The pipe, the bytes that writers have put into it and readers have taken from it so far, and the
-- numbers of processes that sleep in `piperead` and in `pipewrite`.
pub record Sys : Type 0 where
  pub pipe : Pipe
  pub sent : List ℕ
  pub received : List ℕ
  pub readers : ℕ
  pub writers : ℕ

-- The bytes of a run of `pipewrite` that went into the pipe.
abbrev pub accepted : List ℕ → Written → List ℕ
accepted xs w = take (length xs - length (unwritten w)) xs

abbrev pub delivered : Got → List ℕ
delivered (bytes bs) = bs
delivered Got.failed = []
delivered Got.asleep = []

abbrev pub new_writer : Written → ℕ
new_writer (Written.asleep rest) = 1
new_writer _ = 0

abbrev pub new_reader : Got → ℕ
new_reader Got.asleep = 1
new_reader _ = 0

abbrev pub after_write : Sys → List ℕ → Pipe × Written → Sys
after_write s xs (q, w) = record {
  pipe = q;
  sent = s.sent ++ accepted xs w;
  received = s.received;
  readers = if wakes_readers w then 0 else s.readers;
  writers = s.writers + new_writer w;
}

abbrev pub after_read : Sys → Pipe × Got → Sys
after_read s (q, g) = record {
  pipe = q;
  sent = s.sent;
  received = s.received ++ delivered g;
  readers = s.readers + new_reader g;
  writers = if wakes_writers g then 0 else s.writers;
}

-- A process in `pipewrite` or `piperead` holds its end of the pipe open, so an end is used only while
-- it is open, and closed only while no process sleeps at it. `interrupt` is a `kill` that wakes a
-- sleeper; a process that was woken goes on with a run like any other.
pub data Step (s : Sys) : Sys → Type 0 where
  write :
      (xs : List ℕ)
      → s.pipe.writeopen ≡ true
      → Step s (after_write s xs (pipewrite false s.pipe xs))
  read :
      (killed : Bool) (n : ℕ)
      → s.pipe.readopen ≡ true
      → Step s (after_read s (piperead killed s.pipe n))
  interrupt_reader : Step s (record s { readers = s.readers - 1 })
  interrupt_writer : Step s (record s { writers = s.writers - 1 })
  close_read : s.readers ≡ 0 → Step s (record s { pipe = (pipeclose s.pipe false).0; writers = 0 })
  close_write : s.writers ≡ 0 → Step s (record s { pipe = (pipeclose s.pipe true).0; readers = 0 })

pub data Steps (s : Sys) : Sys → Type 0 where
  here : Steps s s
  next : {t u : Sys} → Steps s t → Step t u → Steps s u

-- The stream is in order, and a process sleeps only while it has to.
pub record Inv (s : Sys) : Type 0 where
  pub valid : IsValid s.pipe
  pub stream : s.sent ≡ s.received ++ contents s.pipe
  pub readers_wait :
      0 < s.readers → (count s.pipe ≡ 0) × (s.pipe.writeopen ≡ true) × (s.pipe.readopen ≡ true)
  pub writers_wait : 0 < s.writers → (count s.pipe ≡ pipe_size) × (s.pipe.readopen ≡ true)
