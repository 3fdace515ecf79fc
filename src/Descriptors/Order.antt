-- ===== src/Descriptors/Order.antt =====
-- file.c: the table of open files when each file counts the descriptors that refer to it.
use cse3320_proj1_ahmed_bahb.Common.{
  ℕ, ◌+◌, ◌-◌, ◌≤◌, ◌<◌, ◌≡◌, ◌≢◌, refl, sym, ◌∙◌, ◌⊎◌, inl, inr, true, false, Option, none, some,
  ltb, arith, ℕ_discrete, dec_lt,
}
use cse3320_proj1_ahmed_bahb.Common.Maps.{update_self, update_ne}
use cse3320_proj1_ahmed_bahb.Common.Outcome.{ok}
use cse3320_proj1_ahmed_bahb.Procs.{nproc}
use cse3320_proj1_ahmed_bahb.Descriptors.{
  fd_none, File, nfile, nofile, Ftable, set_file, set_fd, Closing, nothing, closing_of, fileclose,
}
use cse3320_proj1_ahmed_bahb.Descriptors.Count.{
  cites, refs, cites-le-refs, ofile-set_fd, ofile-set_fd_ne, refs-set_fd,
}

pub record IsCounted (s : Ftable) : Type 0 where
  pub counts : (f : ℕ) → f < nfile → (s.file f).ref ≡ refs s f
  pub known : (p fd f : ℕ) → p < nproc → fd < nofile → s.ofile p fd ≡ some f → f < nfile
  pub idle : (f : ℕ) → (s.file f).ref ≡ 0 → (s.file f).kind ≡ fd_none

refs-set_file : (s : Ftable) (f : ℕ) (w : File) (g : ℕ) → refs (set_file s f w) g ≡ refs s g
unfolding refs
refs-set_file s f w g = refl

-- Descriptor `fd` of process `p` takes a reference to file `f`.
abbrev pub more : Ftable → ℕ → ℕ → ℕ → Ftable
more s p fd f = set_file (set_fd s p fd (some f)) f (record (s.file f) { ref = (s.file f).ref + 1 })

-- What closing the file of a descriptor gives up: its pipe or inode if no other descriptor refers to it.
abbrev pub GivesUp : Ftable → ℕ → Closing → Type 0
GivesUp s f c =
    ((1 < refs s f) × (c ≡ nothing))
    ⊎ ((refs s f ≡ 1) × (c ≡ closing_of (s.file f).kind (s.file f)))

module _ (s : Ftable) (v : IsCounted s) (p fd : ℕ) (hp : p < nproc) (hfd : fd < nofile) where
  -- A descriptor refers to a file that is in use.
  pub cited_file : (f : ℕ) → s.ofile p fd ≡ some f → (f < nfile) × (1 ≤ (s.file f).ref)
  cited_file f e =
      let lt = v.known p fd f hp hfd e in
      let one : cites (s.ofile p fd) f ≡ 1 = rw e (ground arith) in
      let c = cites-le-refs s p fd hp hfd f in let r = v.counts f lt in (lt, omega arith)

  -- The descriptor becomes `o` and file `f` becomes `w`, with the references as they then are.
  pub changed-IsCounted :
      (o : Option ℕ) (f : ℕ) (w : File)
      → f < nfile
      → w.ref + cites (s.ofile p fd) f ≡ (s.file f).ref + cites o f
      → ((g : ℕ) → g ≢ f → cites (s.ofile p fd) g ≡ cites o g)
      → ((g : ℕ) → o ≡ some g → g ≡ f)
      → (w.ref ≡ 0 → w.kind ≡ fd_none)
      → IsCounted (set_file (set_fd s p fd o) f w)
  unfolding refs
  changed-IsCounted o f w hf here there only rest = record {
    counts = λ g hg.
        let r = refs-set_file (set_fd s p fd o) f w g in
        let c = refs-set_fd s p fd hp hfd o g in
        let old = v.counts g hg in
        elim (ℕ_discrete f g) [
          | yes e ↦ let here' = rw e at here in rw (← e, update_self s.file f w, e, r) (omega arith)
          | no ne ↦
              let same = there g (λ e. ne (sym e)) in
              rw (update_ne s.file f g w ne, r) (omega arith)
        ];
    known = λ q i g hq hi e. elim (ℕ_discrete p q) [
      | yes ep ↦ elim (ℕ_discrete fd i) [
        | yes ei ↦
            let now : (set_fd s p fd o).ofile q i ≡ o =
              rw (← ep, ← ei) (ofile-set_fd s p fd hp hfd o) in
            rw (only g (sym now ∙ e)) hf
        | no ne ↦ v.known q i g hq hi (sym (ofile-set_fd_ne s p fd hp hfd o q i (λ x. ne)) ∙ e)
      ]
      | no ne ↦
          v.known q i g hq hi (sym (ofile-set_fd_ne s p fd hp hfd o q i (λ x. absurd (ne x))) ∙ e)
    ];
    idle = λ g. elim (ℕ_discrete f g) [
      | yes e ↦ rw (← e, update_self s.file f w) rest
      | no ne ↦ rw (update_ne s.file f g w ne) (v.idle g)
    ];
  }

  pub more-IsCounted :
      (f : ℕ) → s.ofile p fd ≡ none → f < nfile → 1 ≤ (s.file f).ref → IsCounted (more s p fd f)
  more-IsCounted f free hf used_ =
      changed-IsCounted (some f) f (record (s.file f) { ref = (s.file f).ref + 1 }) hf
        (rw free (ground arith)) (λ g ne. rw free (ground arith)) (λ g e. cc)
        (λ e. absurd (omega arith))

  -- Closing the file of a descriptor that is given up.
  pub fileclose-IsCounted :
      (f : ℕ)
      → s.ofile p fd ≡ some f
      → (c : Closing) × (w : File) × ((o : ℕ → ℕ → Option ℕ)
          → fileclose (record s { ofile = o }) f ≡ ok (c, set_file (record s { ofile = o }) f w))
        × IsCounted (set_file (set_fd s p fd none) f w)
        × GivesUp s f c
  unfolding fileclose
  fileclose-IsCounted f e =
      let used_ = cited_file f e in
      let r = v.counts f used_.0 in
      let t : ltb (s.file f).ref 1 ≡ false = ground arith in
      elim (dec_lt 1 (s.file f).ref) [
        | yes many ↦
            let m : ltb 0 ((s.file f).ref - 1) ≡ true = ground arith in
            let w : File = record (s.file f) { ref = (s.file f).ref - 1 } in
            (
              nothing,
              w,
              λ o. rw (t, m) refl,
              changed-IsCounted none f w used_.0 (rw e (ground arith)) (λ g ne. rw e (ground arith))
                  (λ g x. cc) (λ z. absurd (omega arith)),
              inl (omega arith, refl),
            )
        | no last ↦
            let m : ltb 0 ((s.file f).ref - 1) ≡ false = ground arith in
            let w : File = record (s.file f) { ref = 0; kind = fd_none } in
            (
              closing_of (s.file f).kind (s.file f),
              w,
              λ o. rw (t, m) refl,
              changed-IsCounted none f w used_.0 (rw e (ground arith)) (λ g ne. rw e (ground arith))
                  (λ g x. cc) (λ z. refl),
              inr (omega arith, refl),
            )
      ]
