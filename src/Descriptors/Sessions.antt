-- ===== src/Descriptors/Sessions.antt =====
-- file.c, sysfile.c and proc.c: any sequence of the calls on descriptors, from the start of the kernel on.
use cse3320_proj1_ahmed_bahb.Common.{
  ℕ, ◌*◌, ◌≤◌, ◌<◌, ◌≡◌, ◌≢◌, sym, ap, ◌∙◌, inl, inr, List, Option, none, arith,
}
use cse3320_proj1_ahmed_bahb.Common.Outcome.{Outcome, ok, panic}
use cse3320_proj1_ahmed_bahb.Procs.{nproc}
use cse3320_proj1_ahmed_bahb.Args.{User}
use cse3320_proj1_ahmed_bahb.Descriptors.{
  fd_none, Ftable, nfile, nofile, Closing, sys_dup, sys_close, open_inode, copy_fds, close_fds,
}
use cse3320_proj1_ahmed_bahb.Descriptors.Count.{refs, refs-le, refs-none}
use cse3320_proj1_ahmed_bahb.Descriptors.Order.{IsCounted}
use cse3320_proj1_ahmed_bahb.Descriptors.Open.{open_inode_lem}
use cse3320_proj1_ahmed_bahb.Descriptors.Calls.{sys_dup_lem, sys_close_lem}
use cse3320_proj1_ahmed_bahb.Descriptors.Process.{copy_fds_lem, close_fds_lem}

-- The table is all zeros when the kernel starts.
pub record IsBooted (s : Ftable) : Type 0 where
  pub no_fds : (p fd : ℕ) → s.ofile p fd ≡ none
  pub no_refs : (f : ℕ) → (s.file f).ref ≡ 0
  pub no_kinds : (f : ℕ) → (s.file f).kind ≡ fd_none

-- The tables that calls lead to. `fork` copies to an entry without descriptors.
pub data Reachable : Ftable → Type 0 where
  start : (s : Ftable) → IsBooted s → Reachable s
  after_dup :
      (s t : Ftable) (u : User) (p : ℕ) (r : Option ℕ)
      → Reachable s
      → p < nproc
      → sys_dup u s p ≡ ok (r, t)
      → Reachable t
  after_close :
      (s t : Ftable) (u : User) (p : ℕ) (r : Option Closing)
      → Reachable s
      → p < nproc
      → sys_close u s p ≡ ok (r, t)
      → Reachable t
  after_open :
      (s t : Ftable) (p ip omode : ℕ) (r : Option ℕ × Closing)
      → Reachable s
      → p < nproc
      → open_inode s p ip omode ≡ ok (r, t)
      → Reachable t
  after_fork :
      (s t : Ftable) (p np : ℕ)
      → Reachable s
      → p < nproc
      → np < nproc
      → p ≢ np
      → ((fd : ℕ) → s.ofile np fd ≡ none)
      → copy_fds nofile s p np 0 ≡ ok t
      → Reachable t
  after_exit :
      (s t : Ftable) (p : ℕ) (cs : List Closing)
      → Reachable s
      → p < nproc
      → close_fds nofile s p 0 ≡ ok (cs, t)
      → Reachable t

module _ {A : Type 0} where
  table_of : Ftable → Outcome (A × Ftable) → Ftable
  table_of s (ok r) = r.1
  table_of s panic = s

  -- Two results of the same call have the same table.
  same_table :
      (m : Outcome (A × Ftable)) (a b : A) (s t : Ftable)
      → m ≡ ok (a, s)
      → m ≡ ok (b, t)
      → IsCounted s
      → IsCounted t
  unfolding table_of
  same_table m a b s t e e' v =
      let same : s ≡ t = sym (ap (table_of s) e) ∙ ap (table_of s) e' in rw same at v

start-IsCounted : (s : Ftable) → IsBooted s → IsCounted s
start-IsCounted s b = record {
  counts = λ f h. b.no_refs f ∙ sym (refs-none s f b.no_fds);
  known = λ p fd f hp hfd e. let z = b.no_fds p fd in cc (e, z);
  idle = λ f z. b.no_kinds f;
}

pub Reachable-IsCounted : (t : Ftable) → Reachable t → IsCounted t
Reachable-IsCounted t (start _ b) = start-IsCounted t b
Reachable-IsCounted t (after_dup s _ u p r c hp e) =
    let v = Reachable-IsCounted s c in
    elim (sys_dup_lem u s v p hp) [
      | inl (e', why) ↦ same_table (sys_dup u s p) none r s t e' e v
      | inr d ↦ same_table (sys_dup u s p) _ r _ t d.7 e d.8
    ]
Reachable-IsCounted t (after_close s _ u p r c hp e) =
    let v = Reachable-IsCounted s c in
    elim (sys_close_lem u s v p hp) [
      | inl (e', why) ↦ same_table (sys_close u s p) none r s t e' e v
      | inr d ↦ same_table (sys_close u s p) _ r _ t d.5 e d.6
    ]
Reachable-IsCounted t (after_open s _ p ip omode r c hp e) =
    let v = Reachable-IsCounted s c in
    elim (open_inode_lem s v p ip omode hp) [
      | inl (e', why) ↦ same_table (open_inode s p ip omode) _ r s t e' e v
      | inr (inl d) ↦ same_table (open_inode s p ip omode) _ r _ t d.1 e d.2
      | inr (inr d) ↦ same_table (open_inode s p ip omode) _ r _ t d.6 e d.7
    ]
Reachable-IsCounted t (after_fork s _ p np c hp hnp ne empty e) =
    let v = Reachable-IsCounted s c in
    let d = copy_fds_lem nofile s p np 0 v hp hnp ne (omega arith) (λ fd lo hi. empty fd) in
    let same : d.0 ≡ t = fork_table d.0 t (sym d.1 ∙ e) in rw same at d.2
  where
    fork_table : (a b : Ftable) → ok a ≡ ok b → a ≡ b
    fork_table a b x = ap (λ (m : Outcome Ftable). elim m [ ok w ↦ w | panic ↦ a ]) x
Reachable-IsCounted t (after_exit s _ p cs c hp e) =
    let v = Reachable-IsCounted s c in
    let d = close_fds_lem nofile s p 0 v hp (omega arith) in
    same_table (close_fds nofile s p 0) d.0 cs d.1 t d.2 e d.3

-- After any sequence of these calls the count of an open file is the number of descriptors of all
-- processes that refer to it, which is at most 1024, so that the int never overflows.
pub ref_bounded :
    (t : Ftable) (f : ℕ)
    → Reachable t
    → f < nfile
    → ((t.file f).ref ≡ refs t f) × ((t.file f).ref ≤ nproc * nofile)
ref_bounded t f c h =
    let counts = (Reachable-IsCounted t c).counts f h in (counts, rw counts (refs-le t f))
