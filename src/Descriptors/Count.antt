-- ===== src/Descriptors/Count.antt =====
-- file.c: how many descriptors refer to an open file.
use cse3320_proj1_ahmed_bahb.Common.{
  ℕ, zero, suc, ◌+◌, ◌*◌, ◌/◌, ◌%◌, ◌≤◌, ◌<◌, ◌≡◌, ◌≢◌, refl, sym, ap, ◌∙◌, Option, none, some,
  ◌==◌, if◌then◌else◌, arith, ℕ_discrete,
}
use cse3320_proj1_ahmed_bahb.Common.Maps.{update, update_self, update_ne}
use cse3320_proj1_ahmed_bahb.Procs.{nproc}
use cse3320_proj1_ahmed_bahb.Descriptors.{Ftable, nofile, set_fd}

abbrev pub cites : Option ℕ → ℕ → ℕ
cites none f = 0
cites (some g) f = if g == f then 1 else 0

pub count : ℕ → (ℕ → Option ℕ) → ℕ → ℕ
count zero t f = 0
count (suc n) t f = count n t f + cites (t n) f

-- The descriptors of all processes, one process after the other.
abbrev pub all_fds : Ftable → ℕ → Option ℕ
all_fds s k = s.ofile (k / nofile) (k % nofile)

unfoldable pub refs : Ftable → ℕ → ℕ
refs s f = count (nproc * nofile) (all_fds s) f

count-same :
    (n : ℕ) (t u : ℕ → Option ℕ) (f : ℕ) → ((k : ℕ) → k < n → u k ≡ t k) → count n u f ≡ count n t f
unfolding count
count-same zero t u f h = refl
count-same (suc n) t u f h =
    rw (count-same n t u f (λ k lt. h k (omega arith)), h n (omega arith)) refl

count-change :
    (n : ℕ) (t u : ℕ → Option ℕ) (i f : ℕ)
    → i < n
    → ((k : ℕ) → k ≢ i → u k ≡ t k)
    → count n u f + cites (t i) f ≡ count n t f + cites (u i) f
unfolding count
count-change zero t u i f lt h = absurd (omega arith)
count-change (suc n) t u i f lt h = elim (ℕ_discrete i n) [
  | yes e ↦ let r = count-same n t u f (λ k l. h k (omega arith)) in rw (e, r) (omega arith)
  | no ne ↦
      let r = count-change n t u i f (omega arith) h in
      let same = h n (λ e. ne (sym e)) in rw same (omega arith)
]

cites-le : (o : Option ℕ) (f : ℕ) → cites o f ≤ 1
cites-le none f = omega arith
cites-le (some g) f = ground arith

cites-le-count : (n : ℕ) (t : ℕ → Option ℕ) (i f : ℕ) → i < n → cites (t i) f ≤ count n t f
unfolding count
cites-le-count zero t i f lt = absurd (omega arith)
cites-le-count (suc n) t i f lt = elim (ℕ_discrete i n) [
  | yes e ↦ rw e (omega arith)
  | no ne ↦ let r = cites-le-count n t i f (omega arith) in omega arith
]

count-le : (n : ℕ) (t : ℕ → Option ℕ) (f : ℕ) → count n t f ≤ n
unfolding count
count-le zero t f = omega arith
count-le (suc n) t f = let r = count-le n t f in let c = cites-le (t n) f in omega arith

pub refs-le : (s : Ftable) (f : ℕ) → refs s f ≤ nproc * nofile
unfolding refs
refs-le s f = count-le (nproc * nofile) (all_fds s) f

at_fd :
    (s : Ftable) (p fd : ℕ) → p < nproc → fd < nofile → all_fds s (p * nofile + fd) ≡ s.ofile p fd
at_fd s p fd hp hfd =
    let d : (p * nofile + fd) / nofile ≡ p = omega arith in
    let r : (p * nofile + fd) % nofile ≡ fd = omega arith in
    ap (λ (q : ℕ). s.ofile q ((p * nofile + fd) % nofile)) d ∙ ap (λ (i : ℕ). s.ofile p i) r

module _ (s : Ftable) (p fd : ℕ) (hp : p < nproc) (hfd : fd < nofile) where
  pub cites-le-refs : (f : ℕ) → cites (s.ofile p fd) f ≤ refs s f
  unfolding refs
  cites-le-refs f =
      rw (at_fd s p fd hp hfd) at
        (cites-le-count (nproc * nofile) (all_fds s) (p * nofile + fd) f (omega arith))

  pub ofile-set_fd : (v : Option ℕ) → (set_fd s p fd v).ofile p fd ≡ v
  ofile-set_fd v = ground arith

  pub ofile-set_fd_ne :
      (v : Option ℕ) (q i : ℕ) → (p ≡ q → fd ≢ i) → (set_fd s p fd v).ofile q i ≡ s.ofile q i
  ofile-set_fd_ne v q i ne = elim (ℕ_discrete p q) [
    | yes e ↦
        rw (← e, update_self s.ofile p (update (s.ofile p) fd v))
          (update_ne (s.ofile p) fd i v (ne e))
    | no other ↦ rw (update_ne s.ofile p q (update (s.ofile p) fd v) other) refl
  ]

  -- A descriptor that is set takes its old reference away and adds the new one.
  pub refs-set_fd :
      (v : Option ℕ) (f : ℕ)
      → refs (set_fd s p fd v) f + cites (s.ofile p fd) f ≡ refs s f + cites v f
  unfolding refs
  refs-set_fd v f =
      let k : ℕ = p * nofile + fd in
      let c =
        count-change (nproc * nofile) (all_fds s) (all_fds (set_fd s p fd v)) k f (omega arith)
          (λ j ne. ofile-set_fd_ne v (j / nofile) (j % nofile) (λ e e'. ne (omega arith))) in
      rw (at_fd s p fd hp hfd, at_fd (set_fd s p fd v) p fd hp hfd ∙ ofile-set_fd v) at c

count-none : (n : ℕ) (t : ℕ → Option ℕ) (f : ℕ) → ((k : ℕ) → t k ≡ none) → count n t f ≡ 0
unfolding count
count-none zero t f h = refl
count-none (suc n) t f h = rw (count-none n t f h, h n) refl

pub refs-none : (s : Ftable) (f : ℕ) → ((p fd : ℕ) → s.ofile p fd ≡ none) → refs s f ≡ 0
unfolding refs
refs-none s f h = count-none (nproc * nofile) (all_fds s) f (λ k. h (k / nofile) (k % nofile))
