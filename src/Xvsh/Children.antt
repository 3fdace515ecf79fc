-- ===== src/Xvsh/Children.antt =====
-- xvsh.c: the standard input and output of the shell's children.
use cse3320_proj1_ahmed_bahb.Common.{
  ℕ, ◌^◌, ◌<◌, ◌≡◌, ◌≢◌, refl, sym, ap, ◌∙◌, inl, inr, List, [], ◌∷◌, All, none, some, leb, arith,
  Option-cases, Bool-cases,
}
use cse3320_proj1_ahmed_bahb.Common.Outcome.{ok}
use cse3320_proj1_ahmed_bahb.Procs.{nproc}
use cse3320_proj1_ahmed_bahb.Args.{fetchint, argint}
use cse3320_proj1_ahmed_bahb.Dinode.Words.{load-store32}
use cse3320_proj1_ahmed_bahb.Descriptors.{Ftable, nofile, set_fd, argfd}
use cse3320_proj1_ahmed_bahb.Descriptors.Count.{ofile-set_fd_ne}
use cse3320_proj1_ahmed_bahb.Descriptors.Order.{IsCounted, more}
use cse3320_proj1_ahmed_bahb.Descriptors.Calls.{sys_dup_lem, sys_close_lem}
use cse3320_proj1_ahmed_bahb.Xvsh.Run.{Move, dup, close, redirected_child, caller, move, moves}

argint-caller : (fd : ℕ) → fd < 2 ^ 32 → argint (caller fd) 0 ≡ some fd
unfolding argint fetchint
argint-caller fd h = ap some (load-store32 (λ a. 0) 4 fd h)

-- The descriptor that a call finds is the one it was asked for.
argfd-caller :
    (s : Ftable) (p fd a f : ℕ) → fd < 2 ^ 32 → argfd (caller fd) s p 0 ≡ some (a, f) → a ≡ fd
unfolding argfd
argfd-caller s p fd a f h e =
    let i = argint-caller fd h in
    elim (Bool-cases (leb nofile fd)) [
      | inl big ↦ let bad : argfd (caller fd) s p 0 ≡ none = rw (argfd, i, big) refl in cc (bad, e)
      | inr small ↦ elim (Option-cases (s.ofile p fd)) [
        | inl free ↦
            let bad : argfd (caller fd) s p 0 ≡ none = rw (argfd, i, small, free) refl in
            cc (bad, e)
        | inr (g, o) ↦
            let good : argfd (caller fd) s p 0 ≡ some (fd, g) = rw (argfd, i, small, o) refl in
            let same : some (fd, g) ≡ some (a, f) = sym good ∙ e in cc (same)
      ]
    ]

-- A move whose number is an int and that does not close `k`.
abbrev pub Spares : ℕ → Move → Type 0
Spares k (dup fd) = fd < 2 ^ 32
Spares k (close fd) = (fd < 2 ^ 32) × (fd ≢ k)

module _ (p : ℕ) (hp : p < nproc) (k : ℕ) (hk : k < nofile) (f : ℕ) where
  move-keeps :
      (m : Move) (s : Ftable)
      → IsCounted s
      → s.ofile p k ≡ some f
      → Spares k m
      → (t : Ftable) × (move m s p ≡ ok t) × IsCounted t × (t.ofile p k ≡ some f)
  unfolding move
  move-keeps (dup fd) s v o h = elim (sys_dup_lem (caller fd) s v p hp) [
    | inl (e, why) ↦ (s, rw e refl, v, o)
    | inr (old, g, new, hn, a, free, low, e, v') ↦ (
      more s p new g,
      rw e refl,
      v',
      ofile-set_fd_ne s p new hp hn (some g) p k (λ x same. let z = rw same at free in cc (z, o))
          ∙ o,
    )
  ]
  move-keeps (close fd) s v o (h, ne) = elim (sys_close_lem (caller fd) s v p hp) [
    | inl (e, why) ↦ (s, rw e refl, v, o)
    | inr (a, g, c, t, found, e, v', rest, gives) ↦
        let at = argfd-caller s p fd a g h found in
        let there : t.ofile p k ≡ (set_fd s p a none).ofile p k = ap (λ q. q p k) rest in
        let other : a ≢ k = λ x. ne (sym at ∙ x) in
        let same : (set_fd s p a none).ofile p k ≡ s.ofile p k = ground arith in
        (t, rw e refl, v', there ∙ same ∙ o)
  ]

  -- A child that runs moves none of which closes the descriptor `k`, which is open on the file `f`, runs them
  -- all without a panic, and `k` is still that file: `dup` takes a free descriptor and never `k`.
  pub moves-keep :
      (ms : List Move) (s : Ftable)
      → IsCounted s
      → s.ofile p k ≡ some f
      → All (Spares k) ms
      → (t : Ftable) × (moves ms s p ≡ ok t) × IsCounted t × (t.ofile p k ≡ some f)
  unfolding moves
  moves-keep [] s v o a = (s, refl, v, o)
  moves-keep (m ∷ ms) s v o (h, a) =
      let (t, e, v', o') = move-keeps m s v o h in
      let (u, e', v'', o'') = moves-keep ms t v' o' a in (u, rw (moves, e) e', v'', o'')

-- The redirection of `execute_redirection` is lost, on a table whose files count their descriptors: for every
-- file that was opened as a descriptor other than 1, the child runs its calls without a panic, and its
-- descriptor 1 is then the file that it was in the shell.
pub redirected_child_keeps :
    (s : Ftable) (p fd f : ℕ)
    → IsCounted s
    → p < nproc
    → fd < nofile
    → fd ≢ 1
    → s.ofile p 1 ≡ some f
    → (t : Ftable) × (moves (redirected_child (some fd)) s p ≡ ok t)
      × IsCounted t
      × (t.ofile p 1 ≡ some f)
redirected_child_keeps s p fd f v hp h ne o =
    moves-keep p hp 1 (omega arith) f (redirected_child (some fd)) s v o
      (omega arith, ((omega arith, ne), tt))
