-- ===== src/Descriptors/Calls.antt =====
-- sysfile.c: dup, close and open on a table of open files that counts its references.
use cse3320_proj1_ahmed_bahb.Common.{
  ℕ, ◌<◌, ◌≡◌, ◌≢◌, refl, ◌⊎◌, inl, inr, false, none, some, ltb, arith,
}
use cse3320_proj1_ahmed_bahb.Common.Outcome.{ok}
use cse3320_proj1_ahmed_bahb.Procs.{nproc}
use cse3320_proj1_ahmed_bahb.Args.{User}
use cse3320_proj1_ahmed_bahb.Descriptors.{
  Ftable, nofile, set_file, set_fd, filedup, Closing, fdalloc, argfd, sys_dup, sys_close,
}
use cse3320_proj1_ahmed_bahb.Descriptors.Order.{
  IsCounted, GivesUp, cited_file, more, more-IsCounted, fileclose-IsCounted,
}
use cse3320_proj1_ahmed_bahb.Descriptors.Search.{free_fd-cases, argfd-cases}

module _ (u : User) (s : Ftable) (v : IsCounted s) (p : ℕ) (hp : p < nproc) where
  -- On a table whose files count their descriptors `sys_dup` never panics. It fails, changing nothing, if
  -- the argument is no open descriptor or if the process has no free one; otherwise the lowest free
  -- descriptor refers to the same file, which counts one reference more, and the counts are right again.
  pub sys_dup_lem :
      ((sys_dup u s p ≡ ok (none, s))
        × ((argfd u s p 0 ≡ none) ⊎ ((j : ℕ) → j < nofile → s.ofile p j ≢ none)))
      ⊎ ((old : ℕ) × (f : ℕ) × (fd : ℕ) × (fd < nofile)
          × (argfd u s p 0 ≡ some (old, f))
          × (s.ofile p fd ≡ none)
          × ((j : ℕ) → j < fd → s.ofile p j ≢ none)
          × (sys_dup u s p ≡ ok (some fd, more s p fd f))
          × IsCounted (more s p fd f))
  unfolding sys_dup fdalloc filedup
  sys_dup_lem = elim (argfd-cases u s p 0) [
    | inr bad ↦ inl (rw (sys_dup, bad) refl, inl bad)
    | inl (old, f, e, ho, o) ↦
        let cited = cited_file s v p old hp ho f o in
        let b : ltb (s.file f).ref 1 ≡ false = let c = cited.1 in ground arith in
        elim (free_fd-cases nofile (s.ofile p) 0) [
          | inr (r, all) ↦
              inl (rw (sys_dup, e, fdalloc, r) refl, inr (λ j h. all j (omega arith) (omega arith)))
          | inl (fd, r, lo, hi, free, low) ↦
              let done : sys_dup u s p ≡ ok (some fd, more s p fd f) =
                rw (sys_dup, e, fdalloc, r, b) refl in
              inr (
                old,
                f,
                fd,
                hi,
                e,
                free,
                λ j h. low j (omega arith) h,
                done,
                more-IsCounted s v p fd hp hi f free cited.0 cited.1,
              )
        ]
  ]

  -- On such a table `sys_close` never panics. It fails, changing nothing, if the argument is no open
  -- descriptor; otherwise the descriptor is free, the counts are right again, and the pipe or the inode of
  -- the file is given up exactly if no other descriptor refers to the file.
  pub sys_close_lem :
      ((sys_close u s p ≡ ok (none, s)) × (argfd u s p 0 ≡ none))
      ⊎ ((fd : ℕ) × (f : ℕ) × (c : Closing) × (t : Ftable) × (argfd u s p 0 ≡ some (fd, f))
          × (sys_close u s p ≡ ok (some c, t))
          × IsCounted t
          × (t.ofile ≡ (set_fd s p fd none).ofile)
          × GivesUp s f c)
  unfolding sys_close
  sys_close_lem = elim (argfd-cases u s p 0) [
    | inr bad ↦ inl (rw (sys_close, bad) refl, bad)
    | inl (fd, f, e, hf, o) ↦
        let r = fileclose-IsCounted s v p fd hp hf f o in
        let w = set_file (set_fd s p fd none) f r.1 in
        let closed = r.2 (set_fd s p fd none).ofile in
        let done : sys_close u s p ≡ ok (some r.0, w) = rw (sys_close, e, closed) refl in
        inr (fd, f, r.0, w, e, done, r.3, refl, r.4)
  ]
