-- ===== src/Procs/Exit.antt =====
-- proc.c: what exit leaves of the table.
use cse3320_proj1_ahmed_bahb.Common.{
  ℕ, ◌<◌, ◌≡◌, ◌≢◌, refl, ◌∙◌, inl, some, Option, Bool, true, if◌then◌else◌, arith, ℕ_discrete,
}
use mathlib.Core.Path.{ap₂}
use cse3320_proj1_ahmed_bahb.Common.Maps.{update}
use cse3320_proj1_ahmed_bahb.Common.Outcome.{ok}
use cse3320_proj1_ahmed_bahb.Procs.{
  Proc, Table, zombie, Chan, of_proc, nproc, is_child, exit, parent_chan, no_files, wakeup1,
  pass_children,
}
use cse3320_proj1_ahmed_bahb.Procs.Scan.{Woken, Woken-trans, woken-Woken}
use cse3320_proj1_ahmed_bahb.Procs.Children.{
  Deserted, Deserted-wakeup1, Deserted-Woken, pass_children-Passed,
}

-- What `exit` leaves.
pub record Exited (t u : Table) (cur : ℕ) : Type 0 where
  pub not_init : cur ≢ t.initproc
  pub init : u.initproc ≡ t.initproc
  pub nextpid : u.nextpid ≡ t.nextpid
  pub self : ((u.procs cur).state ≡ zombie) × ((u.procs cur).pid ≡ (t.procs cur).pid)
  pub others : (k : ℕ) → cur ≢ k → Woken (t.procs k) (u.procs k)
  pub parent :
      (k : ℕ)
      → k < nproc
      → (u.procs k).parent
        ≡ (if is_child cur (t.procs k) then some t.initproc else (t.procs k).parent)
  pub bereaved : Deserted (parent_chan (t.procs cur)) u.procs
  pub told :
      (k : ℕ)
      → k < nproc
      → cur ≢ k
      → is_child cur (t.procs k) ≡ true
      → (t.procs k).state ≡ zombie
      → Deserted (of_proc t.initproc) u.procs

abbrev shut : Table → ℕ → ℕ → Proc
shut t cur =
    update t.procs cur (record (t.procs cur) { ofile = no_files (t.procs cur).ofile; cwd = 0 })

shut-Woken : (t : Table) (cur k : ℕ) → Woken (t.procs k) (shut t cur k)
shut-Woken t cur k = record {
  pid = ground arith;
  chan = ground arith;
  killed = ground arith;
  state = inl (ground arith);
}

abbrev told_parent : Table → ℕ → ℕ → Proc
told_parent t cur = wakeup1 (parent_chan (t.procs cur)) (shut t cur)

told_parent-Woken : (t : Table) (cur k : ℕ) → Woken (t.procs k) (told_parent t cur k)
unfolding wakeup1
told_parent-Woken t cur k =
    Woken-trans (t.procs k) (shut t cur k) _ (shut-Woken t cur k)
      (woken-Woken (parent_chan (t.procs cur)) (shut t cur k))

parent-told_parent : (t : Table) (cur k : ℕ) → (told_parent t cur k).parent ≡ (t.procs k).parent
unfolding wakeup1
parent-told_parent t cur k = ground arith

state-told_parent :
    (t : Table) (cur k : ℕ) → (t.procs k).state ≡ zombie → (told_parent t cur k).state ≡ zombie
unfolding wakeup1
state-told_parent t cur k e = ground arith

child-told_parent :
    (t : Table) (cur k : ℕ) → is_child cur (told_parent t cur k) ≡ is_child cur (t.procs k)
child-told_parent t cur k = rw (parent-told_parent t cur k, is_child) refl

-- Entry `cur` as `exit` leaves it, apart from its state.
parent-update_zombie :
    (procs : ℕ → Proc) (cur k : ℕ)
    → (update procs cur (record (procs cur) { state = zombie }) k).parent ≡ (procs k).parent
parent-update_zombie procs cur k = ground arith

pid-update_zombie :
    (procs : ℕ → Proc) (cur : ℕ)
    → (update procs cur (record (procs cur) { state = zombie }) cur).pid ≡ (procs cur).pid
pid-update_zombie procs cur = ground arith

pub exit-Exited : (t : Table) (cur : ℕ) {u : Table} → exit t cur ≡ ok u → Exited t u cur
unfolding exit
exit-Exited t cur {u} e =
    let before = told_parent t cur in
    let passed = pass_children nproc cur t.initproc before 0 in
    let p = pass_children-Passed nproc cur t.initproc before 0 in
    let each = λ (k : ℕ).
      Woken-trans (t.procs k) (before k) (passed k) (told_parent-Woken t cur k) (p.each k) in
    let after = update passed cur (record (passed cur) { state = zombie }) in
    let not_init : cur ≢ t.initproc = ground arith in
    let is : u ≡ record t { procs = after } = ground arith in
    let same = λ (k : ℕ) (ne : cur ≢ k). let s : after k ≡ passed k = ground arith in s in
    let desert = λ (chan : Chan) (d : Deserted chan passed).
      let all : Deserted chan after = λ j s. elim (ℕ_discrete cur j) [
        | yes eq ↦ absurd (let s' = rw (← eq) at s in ground arith)
        | no ne ↦ rw (same j ne) (d j (rw (same j ne) at s))
      ] in
      all in
    let inherits = λ (k : ℕ).
      let s : (if is_child cur (before k) then some t.initproc else (before k).parent)
          ≡ (if is_child cur (t.procs k) then some t.initproc else (t.procs k).parent) =
        ap₂ (λ (b : Bool) (o : Option ℕ). if b then some t.initproc else o)
          (child-told_parent t cur k) (parent-told_parent t cur k) in
      s in
    rw is (record {
      not_init = not_init;
      init = refl;
      nextpid = refl;
      self = (ground arith, pid-update_zombie passed cur ∙ (each cur).pid);
      others = λ k ne. rw (same k ne) (each k);
      parent = λ k h.
          parent-update_zombie passed cur k ∙ p.inside k (omega arith) (omega arith) ∙ inherits k;
      bereaved = desert (parent_chan (t.procs cur)) (
          Deserted-Woken _ before passed p.each
            (Deserted-wakeup1 (parent_chan (t.procs cur)) (shut t cur)));
      told = λ k h ne child dead. desert (of_proc t.initproc) (
          p.told k (omega arith) (omega arith) (child-told_parent t cur k ∙ child)
            (state-told_parent t cur k dead));
    })
