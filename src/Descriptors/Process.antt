-- ===== src/Descriptors/Process.antt =====
-- proc.c: the descriptors that fork copies and exit closes.
use cse3320_proj1_ahmed_bahb.Common.{
  ℕ, zero, suc, ◌+◌, ◌≤◌, ◌<◌, ◌≡◌, ◌≢◌, refl, sym, ◌∙◌, ◌⊎◌, inl, inr, false, List, [], ◌∷◌, none,
  some, ltb, arith, ℕ_discrete, Option-cases,
}
use cse3320_proj1_ahmed_bahb.Common.Outcome.{ok}
use cse3320_proj1_ahmed_bahb.Procs.{nproc}
use cse3320_proj1_ahmed_bahb.Descriptors.{
  Ftable, nofile, set_file, set_fd, filedup, Closing, fileclose, copy_fds, close_fds,
}
use cse3320_proj1_ahmed_bahb.Descriptors.Count.{ofile-set_fd, ofile-set_fd_ne}
use cse3320_proj1_ahmed_bahb.Descriptors.Order.{
  IsCounted, cited_file, more, more-IsCounted, fileclose-IsCounted,
}

-- The descriptors of the table `t` outside those of process `p` from `i` to `i + n` are those of `s`.
abbrev pub KeepsOthers : Ftable → Ftable → ℕ → ℕ → ℕ → Type 0
KeepsOthers s t p i n = (q fd : ℕ) → (q ≡ p → (fd < i) ⊎ (i + n ≤ fd)) → t.ofile q fd ≡ s.ofile q fd

-- With the counts in order `fork` does not panic over the descriptors: a child that has none gets those of
-- the parent, the others stay as they are, and the counts are in order again.
pub copy_fds_lem :
    (n : ℕ) (s : Ftable) (p np i : ℕ)
    → IsCounted s
    → p < nproc
    → np < nproc
    → p ≢ np
    → i + n ≤ nofile
    → ((fd : ℕ) → i ≤ fd → fd < i + n → s.ofile np fd ≡ none)
    → (t : Ftable) × (copy_fds n s p np i ≡ ok t)
      × IsCounted t
      × ((fd : ℕ) → i ≤ fd → fd < i + n → t.ofile np fd ≡ s.ofile p fd)
      × KeepsOthers s t np i n
unfolding copy_fds filedup
copy_fds_lem zero s p np i v hp hnp ne h empty =
    (s, refl, v, λ fd lo hi. absurd (omega arith), λ q fd out. refl)
copy_fds_lem (suc n) s p np i v hp hnp ne h empty = elim (Option-cases (s.ofile p i)) [
  | inl e ↦
      let r =
        copy_fds_lem n s p np (i + 1) v hp hnp ne (omega arith)
          (λ fd lo hi. empty fd (omega arith) (omega arith)) in
      let now : copy_fds (suc n) s p np i ≡ ok r.0 = rw (copy_fds, e) r.1 in
      let first : r.0.ofile np i ≡ s.ofile p i =
        r.4 np i (λ x. inl (omega arith)) ∙ empty i (omega arith) (omega arith) ∙ sym e in
      (
        r.0,
        now,
        r.2,
        λ fd lo hi. elim (ℕ_discrete i fd) [
          | yes s ↦ rw (← s) first
          | no other ↦ r.3 fd (omega arith) (omega arith)
        ],
        λ q fd out.
            r.4 q fd
              (λ x. elim (out x) [ inl lt ↦ inl (omega arith) | inr ge ↦ inr (omega arith) ]),
      )
  | inr (f, e) ↦
      let cited = cited_file s v p i hp (omega arith) f e in
      let b : ltb (s.file f).ref 1 ≡ false = let c = cited.1 in ground arith in
      let m = more s np i f in
      let vm =
        more-IsCounted s v np i hnp (omega arith) f (empty i (omega arith) (omega arith)) cited.0
          cited.1 in
      let old : (q fd : ℕ) → (np ≡ q → i ≢ fd) → m.ofile q fd ≡ s.ofile q fd =
        λ q fd o. ofile-set_fd_ne s np i hnp (omega arith) (some f) q fd o in
      let r =
        copy_fds_lem n m p np (i + 1) vm hp hnp ne (omega arith)
          (λ fd lo hi. old np fd (λ x. omega arith) ∙ empty fd (omega arith) (omega arith)) in
      let now : copy_fds (suc n) s p np i ≡ ok r.0 = rw (copy_fds, e, b) r.1 in
      let first : r.0.ofile np i ≡ s.ofile p i =
        r.4 np i (λ x. inl (omega arith))
        ∙ ofile-set_fd s np i hnp (omega arith) (some f)
        ∙ sym e in
      (
        r.0,
        now,
        r.2,
        λ fd lo hi. elim (ℕ_discrete i fd) [
          | yes s ↦ rw (← s) first
          | no other ↦ r.3 fd (omega arith) (omega arith) ∙ old p fd (λ x. absurd (ne (sym x)))
        ],
        λ q fd out.
            r.4 q fd (λ x. elim (out x) [ inl lt ↦ inl (omega arith) | inr ge ↦ inr (omega arith) ])
            ∙ old q fd (λ x y. elim (out (sym x)) [ inl lt ↦ omega arith | inr ge ↦ omega arith ]),
      )
]

-- With the counts in order `exit` does not panic over the descriptors: it leaves the process none, keeps
-- those of the others, and the counts are in order again.
pub close_fds_lem :
    (n : ℕ) (s : Ftable) (p i : ℕ)
    → IsCounted s
    → p < nproc
    → i + n ≤ nofile
    → (cs : List Closing) × (t : Ftable) × (close_fds n s p i ≡ ok (cs, t))
      × IsCounted t
      × ((fd : ℕ) → i ≤ fd → fd < i + n → t.ofile p fd ≡ none)
      × KeepsOthers s t p i n
unfolding close_fds
close_fds_lem zero s p i v hp h =
    ([], s, refl, v, λ fd lo hi. absurd (omega arith), λ q fd out. refl)
close_fds_lem (suc n) s p i v hp h = elim (Option-cases (s.ofile p i)) [
  | inl e ↦
      let r = close_fds_lem n s p (i + 1) v hp (omega arith) in
      let now : close_fds (suc n) s p i ≡ ok (r.0, r.1) = rw (close_fds, e) r.2 in
      let first : r.1.ofile p i ≡ none = r.5 p i (λ x. inl (omega arith)) ∙ e in
      (
        r.0,
        r.1,
        now,
        r.3,
        λ fd lo hi. elim (ℕ_discrete i fd) [
          | yes s ↦ rw (← s) first
          | no other ↦ r.4 fd (omega arith) (omega arith)
        ],
        λ q fd out.
            r.5 q fd
              (λ x. elim (out x) [ inl lt ↦ inl (omega arith) | inr ge ↦ inr (omega arith) ]),
      )
  | inr (f, e) ↦
      let c = fileclose-IsCounted s v p i hp (omega arith) f e in
      let closed : fileclose s f ≡ ok (c.0, set_file s f c.1) = c.2 s.ofile in
      let m = set_file (set_fd s p i none) f c.1 in
      let old : (q fd : ℕ) → (p ≡ q → i ≢ fd) → m.ofile q fd ≡ s.ofile q fd =
        λ q fd o. ofile-set_fd_ne s p i hp (omega arith) none q fd o in
      let r = close_fds_lem n m p (i + 1) c.3 hp (omega arith) in
      let now : close_fds (suc n) s p i ≡ ok (c.0 ∷ r.0, r.1) =
        rw (close_fds, e, closed, r.2) refl in
      let first : r.1.ofile p i ≡ none =
        r.5 p i (λ x. inl (omega arith)) ∙ ofile-set_fd s p i hp (omega arith) none in
      (
        c.0 ∷ r.0,
        r.1,
        now,
        r.3,
        λ fd lo hi. elim (ℕ_discrete i fd) [
          | yes s ↦ rw (← s) first
          | no other ↦ r.4 fd (omega arith) (omega arith)
        ],
        λ q fd out.
            r.5 q fd (λ x. elim (out x) [ inl lt ↦ inl (omega arith) | inr ge ↦ inr (omega arith) ])
            ∙ old q fd (λ x y. elim (out (sym x)) [ inl lt ↦ omega arith | inr ge ↦ omega arith ]),
      )
]
