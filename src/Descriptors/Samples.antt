-- ===== src/Descriptors/Samples.antt =====
-- file.c and sysfile.c: tables for the tests.
use cse3320_proj1_ahmed_bahb.Common.{◌≡◌, refl, true, false, none, some, arith}
use cse3320_proj1_ahmed_bahb.Common.Outcome.{ok}
use cse3320_proj1_ahmed_bahb.Descriptors.{
  fd_none, fd_inode, File, Ftable, set_file, set_fd, filealloc, free_file, fdalloc, free_fd,
  nothing, open_inode,
}
use cse3320_proj1_ahmed_bahb.Descriptors.Order.{IsCounted, more, more-IsCounted}
use cse3320_proj1_ahmed_bahb.Descriptors.Sessions.{
  Reachable, IsBooted, start, after_open, Reachable-IsCounted,
}

abbrev pub unused_file : File
unused_file = record {
  kind = fd_none;
  ref = 0;
  readable = false;
  writable = false;
  pipe = 0;
  ip = 0;
  off = 0;
}

abbrev pub booted : Ftable
booted = record { file = λ f. unused_file; ofile = λ p fd. none }

booted-IsBooted : IsBooted booted
booted-IsBooted = record { no_fds = λ p fd. refl; no_refs = λ f. refl; no_kinds = λ f. refl }

pub booted-IsCounted : IsCounted booted
booted-IsCounted = Reachable-IsCounted booted (start booted booted-IsBooted)

-- Process 0 has opened inode 5 for reading and writing.
abbrev pub one_open : Ftable
one_open =
    set_file (set_fd (set_file booted 0 (record unused_file { ref = 1 })) 0 0 (some 0)) 0 (record {
      kind = fd_inode;
      ref = 1;
      readable = true;
      writable = true;
      pipe = 0;
      ip = 5;
      off = 0;
    })

open-booted : open_inode booted 0 5 2 ≡ ok ((some 0, nothing), one_open)
unfolding open_inode filealloc free_file fdalloc free_fd
open-booted = refl

pub one_open-Reachable : Reachable one_open
one_open-Reachable =
    after_open booted one_open 0 5 2 (some 0, nothing) (start booted booted-IsBooted) (omega arith)
      open-booted

pub one_open-IsCounted : IsCounted one_open
one_open-IsCounted = Reachable-IsCounted one_open one_open-Reachable

-- The process has duplicated the descriptor twice.
abbrev pub three_open : Ftable
three_open = more (more one_open 0 1 0) 0 2 0

pub three_open-IsCounted : IsCounted three_open
three_open-IsCounted =
    let two =
      more-IsCounted one_open one_open-IsCounted 0 1 (omega arith) (omega arith) 0 refl
        (omega arith) (omega arith) in
    more-IsCounted (more one_open 0 1 0) two 0 2 (omega arith) (omega arith) 0 refl (omega arith)
      (omega arith)
