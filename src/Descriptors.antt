-- ===== src/Descriptors.antt =====
-- file.c and sysfile.c: the table of open files and the descriptors of the processes.
-- `Ftable` is `ftable` with the array `ofile` of each entry of `ptable`, of which `none` is a null pointer.
-- What a close has to do with the pipe or the inode once the lock of the table is free is its result.
pub mod Count
pub mod Order
pub mod Search
pub mod Open
pub mod Calls
pub mod Process
pub mod Sessions
pub mod Samples
mod Tests
use cse3320_proj1_ahmed_bahb.Common.{
  ℕ, zero, suc, ◌+◌, ◌-◌, ◌/◌, ◌%◌, List, [], ◌∷◌, Bool, ◌||◌, Option, none, some, ltb, leb, ◌==◌,
  if◌then◌else◌,
}
use cse3320_proj1_ahmed_bahb.Common.Maps.{update}
use cse3320_proj1_ahmed_bahb.Common.Outcome.{Outcome, ok, panic, ◌>>=◌}
use cse3320_proj1_ahmed_bahb.Args.{User, argint}

pub data Kind : Type 0 where
  fd_none : Kind
  fd_pipe : Kind
  fd_inode : Kind

pub record File : Type 0 where
  pub kind : Kind
  pub ref : ℕ
  pub readable : Bool
  pub writable : Bool
  pub pipe : ℕ
  pub ip : ℕ
  pub off : ℕ

abbrev pub nfile : ℕ
nfile = 100

abbrev pub nofile : ℕ
nofile = 16

pub record Ftable : Type 0 where
  pub file : ℕ → File
  pub ofile : ℕ → ℕ → Option ℕ

abbrev pub set_file : Ftable → ℕ → File → Ftable
set_file s f v = record s { file = update s.file f v }

abbrev pub set_fd : Ftable → ℕ → ℕ → Option ℕ → Ftable
set_fd s p fd v = record s { ofile = update s.ofile p (update (s.ofile p) fd v) }

-- The loop of `filealloc` from entry `i` on, with `n` entries left.
unfoldable pub free_file : ℕ → (ℕ → File) → ℕ → Option ℕ
free_file zero t i = none
free_file (suc n) t i = let rest = free_file n t (i + 1) in if (t i).ref == 0 then some i else rest

unfoldable pub filealloc : Ftable → Option (ℕ × Ftable)
filealloc s = elim (free_file nfile s.file 0) [
  | none ↦ none
  | some f ↦ some (f, set_file s f (record (s.file f) { ref = 1 }))
]

unfoldable pub filedup : Ftable → ℕ → Outcome Ftable
filedup s f =
    let v = s.file f in
    if ltb v.ref 1 then panic else ok (set_file s f (record v { ref = v.ref + 1 }))

pub data Closing : Type 0 where
  nothing : Closing
  close_pipe : ℕ → Bool → Closing
  put_inode : ℕ → Closing

-- The end of `fileclose`, from the copy `ff`.
abbrev pub closing_of : Kind → File → Closing
closing_of fd_none ff = nothing
closing_of fd_pipe ff = close_pipe ff.pipe ff.writable
closing_of fd_inode ff = put_inode ff.ip

unfoldable pub fileclose : Ftable → ℕ → Outcome (Closing × Ftable)
fileclose s f =
    let v = s.file f in
    if ltb v.ref 1
    then panic
    else (if ltb 0 (v.ref - 1)
        then ok (nothing, set_file s f (record v { ref = v.ref - 1 }))
        else ok (closing_of v.kind v, set_file s f (record v { ref = 0; kind = fd_none })))

-- The loop of `fdalloc` from descriptor `i` on, with `n` left.
unfoldable pub free_fd : ℕ → (ℕ → Option ℕ) → ℕ → Option ℕ
free_fd zero t i = none
free_fd (suc n) t i = let rest = free_fd n t (i + 1) in elim (t i) [ none ↦ some i | some f ↦ rest ]

unfoldable pub fdalloc : Ftable → ℕ → ℕ → Option (ℕ × Ftable)
fdalloc s p f = elim (free_fd nofile (s.ofile p) 0) [
  | none ↦ none
  | some fd ↦ some (fd, set_fd s p fd (some f))
]

-- Process `p` has the argument words `u`. A negative descriptor is one of 2 ^ 31 or more.
unfoldable pub argfd : User → Ftable → ℕ → ℕ → Option (ℕ × ℕ)
argfd u s p n = elim (argint u n) [
  | none ↦ none
  | some fd ↦
      if leb nofile fd then none else elim (s.ofile p fd) [ none ↦ none | some f ↦ some (fd, f) ]
]

-- `none` stands for -1.
unfoldable pub sys_dup : User → Ftable → ℕ → Outcome (Option ℕ × Ftable)
sys_dup u s p = elim (argfd u s p 0) [
  | none ↦ ok (none, s)
  | some (old, f) ↦ elim (fdalloc s p f) [
    | none ↦ ok (none, s)
    | some (fd, t) ↦ filedup t f >>= λ r. ok (some fd, r)
  ]
]

unfoldable pub sys_close : User → Ftable → ℕ → Outcome (Option Closing × Ftable)
sys_close u s p = elim (argfd u s p 0) [
  | none ↦ ok (none, s)
  | some (fd, f) ↦ fileclose (set_fd s p fd none) f >>= λ r. ok (some r.0, r.1)
]

-- The part of `sys_open` that gives the inode `ip` a file and a descriptor.
unfoldable pub open_inode : Ftable → ℕ → ℕ → ℕ → Outcome ((Option ℕ × Closing) × Ftable)
open_inode s p ip omode = elim (filealloc s) [
  | none ↦ ok ((none, nothing), s)
  | some (f, t) ↦ elim (fdalloc t p f) [
    | none ↦ fileclose t f >>= λ r. ok ((none, r.0), r.1)
    | some (fd, w) ↦ ok (
      (some fd, nothing),
      set_file w f (record (w.file f) {
        kind = fd_inode;
        ip = ip;
        off = 0;
        readable = omode % 2 == 0;
        writable = omode % 2 == 1 || omode / 2 % 2 == 1;
      }),
    )
  ]
]

-- The loop of `fork` over the descriptors, from `i` on with `n` left.
unfoldable pub copy_fds : ℕ → Ftable → ℕ → ℕ → ℕ → Outcome Ftable
copy_fds zero s p np i = ok s
copy_fds (suc n) s p np i =
    let skip = copy_fds n s p np (i + 1) in
    let next = λ (f : ℕ). filedup s f >>= λ t. copy_fds n (set_fd t np i (some f)) p np (i + 1) in
    elim (s.ofile p i) [ none ↦ skip | some f ↦ next f ]

-- The loop of `exit` over the descriptors, with what each close has to do.
unfoldable pub close_fds : ℕ → Ftable → ℕ → ℕ → Outcome (List Closing × Ftable)
close_fds zero s p i = ok ([], s)
close_fds (suc n) s p i =
    let skip = close_fds n s p (i + 1) in
    let next = λ (f : ℕ). fileclose s f >>= λ r.
    close_fds n (set_fd r.1 p i none) p (i + 1) >>= λ q. ok (r.0 ∷ q.0, q.1) in
    elim (s.ofile p i) [ none ↦ skip | some f ↦ next f ]
