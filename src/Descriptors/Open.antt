-- ===== src/Descriptors/Open.antt =====
-- sysfile.c: the file and the descriptor that open gives an inode.
use cse3320_proj1_ahmed_bahb.Common.{
  ℕ, ◌/◌, ◌%◌, ◌||◌, ◌<◌, ◌≡◌, ◌≢◌, refl, sym, ap, ◌∙◌, ◌⊎◌, inl, inr, none, some, ◌==◌, arith,
  ℕ_discrete,
}
use cse3320_proj1_ahmed_bahb.Common.Maps.{update_self, update_ne}
use cse3320_proj1_ahmed_bahb.Common.Outcome.{ok}
use cse3320_proj1_ahmed_bahb.Procs.{nproc}
use cse3320_proj1_ahmed_bahb.Descriptors.{
  fd_none, fd_inode, File, Ftable, nfile, nofile, set_file, set_fd, filealloc, nothing, fileclose,
  fdalloc, open_inode,
}
use cse3320_proj1_ahmed_bahb.Descriptors.Count.{refs}
use cse3320_proj1_ahmed_bahb.Descriptors.Order.{IsCounted, changed-IsCounted}
use cse3320_proj1_ahmed_bahb.Descriptors.Search.{free_fd-cases, free_file-cases}

agree-IsCounted :
    (s t : Ftable)
    → IsCounted s
    → t.ofile ≡ s.ofile
    → ((g : ℕ) → (t.file g).ref ≡ (s.file g).ref)
    → ((g : ℕ) → (t.file g).ref ≡ 0 → (t.file g).kind ≡ fd_none)
    → IsCounted t
unfolding refs
agree-IsCounted s t v same counts idle = record {
  counts = λ g h. rw same (counts g ∙ v.counts g h);
  known = λ p fd g hp hfd e. v.known p fd g hp hfd (sym (ap (λ o. o p fd) same) ∙ e);
  idle = idle;
}

abbrev one : Ftable → ℕ → File
one s f = record (s.file f) { ref = 1 }

-- Descriptor `fd` of process `p` refers to file `f`, which is set to the inode `ip`.
abbrev pub opened : Ftable → ℕ → ℕ → ℕ → ℕ → ℕ → Ftable
opened s p ip omode f fd = set_file (set_file (set_fd s p fd (some f)) f (one s f)) f (record {
  kind = fd_inode;
  ref = 1;
  readable = omode % 2 == 0;
  writable = omode % 2 == 1 || omode / 2 % 2 == 1;
  pipe = (s.file f).pipe;
  ip = ip;
  off = 0;
})

module _ (s : Ftable) (v : IsCounted s) (p ip omode : ℕ) (hp : p < nproc) where
  -- The file that was found free, given back.
  abbrev given_back : ℕ → Ftable
  given_back f = set_file (set_file s f (one s f)) f (record (s.file f) { ref = 0; kind = fd_none })

  given_back-IsCounted : (f : ℕ) → (s.file f).ref ≡ 0 → IsCounted (given_back f)
  given_back-IsCounted f z =
      agree-IsCounted s (given_back f) v refl (λ g. ground arith)
        (λ g.
          let i = v.idle g in
          elim (ℕ_discrete f g) [
            | yes e ↦ rw (← e, update_self (set_file s f (one s f)).file f _) (λ x. refl)
            | no ne ↦
                rw
                  (
                    update_ne (set_file s f (one s f)).file f g _ ne,
                    update_ne s.file f g (one s f) ne,
                  )
                  i
          ])

  opened-IsCounted :
      (f fd : ℕ)
      → f < nfile
      → fd < nofile
      → (s.file f).ref ≡ 0
      → s.ofile p fd ≡ none
      → IsCounted (opened s p ip omode f fd)
  opened-IsCounted f fd hf hfd z free =
      let base =
        changed-IsCounted s v p fd hp hfd (some f) f (one s f) hf (rw (free, z) (ground arith))
          (λ g ne. rw free (ground arith)) (λ g e. cc) (λ e. absurd (omega arith)) in
      agree-IsCounted (set_file (set_fd s p fd (some f)) f (one s f)) (opened s p ip omode f fd)
        base refl (λ g. ground arith)
        (λ g.
          let i = base.idle g in
          elim (ℕ_discrete f g) [
            | yes e ↦
                rw (← e, update_self (set_file s f (one s f)).file f _) (λ x. absurd (omega arith))
            | no ne ↦ rw (update_ne (set_file s f (one s f)).file f g _ ne) i
          ])

  -- On a table whose files count their descriptors this part of `open` never panics and gives no inode or
  -- pipe up. It fails if no file is free, or if the process has no free descriptor, and then it leaves the
  -- descriptors and the counts as they were; otherwise a free descriptor refers to a free file, which is
  -- set to the inode and counts one reference, and the counts are in order again.
  pub open_inode_lem :
      ((open_inode s p ip omode ≡ ok ((none, nothing), s))
        × ((f : ℕ) → f < nfile → (s.file f).ref ≢ 0))
      ⊎ ((t : Ftable) × (open_inode s p ip omode ≡ ok ((none, nothing), t))
          × IsCounted t
          × (t.ofile ≡ s.ofile)
          × ((j : ℕ) → j < nofile → s.ofile p j ≢ none))
      ⊎ ((f fd : ℕ) × (f < nfile)
          × (fd < nofile)
          × ((s.file f).ref ≡ 0)
          × (s.ofile p fd ≡ none)
          × (open_inode s p ip omode ≡ ok ((some fd, nothing), opened s p ip omode f fd))
          × IsCounted (opened s p ip omode f fd))
  unfolding open_inode filealloc fdalloc fileclose
  open_inode_lem = elim (free_file-cases nfile s.file 0) [
    | inr (r, all) ↦
        inl (rw (open_inode, filealloc, r) refl, λ f h. all f (omega arith) (omega arith))
    | inl (f, r, lo, hi, z) ↦ elim (free_fd-cases nofile (s.ofile p) 0) [
      | inr (r', full) ↦
          let idle = v.idle f z in
          let closed : fileclose (set_file s f (one s f)) f ≡ ok (nothing, given_back f) =
            rw (fileclose, update_self s.file f (one s f), idle) refl in
          let done : open_inode s p ip omode ≡ ok ((none, nothing), given_back f) =
            rw (open_inode, filealloc, r, fdalloc, r', closed) refl in
          inr (
            inl (
              given_back f,
              done,
              given_back-IsCounted f z,
              refl,
              λ j h. full j (omega arith) (omega arith),
            ))
      | inl (fd, r', lo', hi', free, low) ↦
          let done : open_inode s p ip omode ≡ ok ((some fd, nothing), opened s p ip omode f fd) =
            rw (open_inode, filealloc, r, fdalloc, r', update_self s.file f) refl in
          inr (inr (f, fd, hi, hi', z, free, done, opened-IsCounted f fd hi hi' z free))
    ]
  ]
