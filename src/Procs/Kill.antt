-- ===== src/Procs/Kill.antt =====
-- proc.c: kill with the pid 0, which unused entries have.
use cse3320_proj1_ahmed_bahb.Common.{
  ℕ, ◌≡◌, refl, ap, ◌∙◌, arith, ◌==◌, some, true, false, if◌then◌else◌,
}
use cse3320_proj1_ahmed_bahb.Procs.Family.{allocated, allocproc-some}
use cse3320_proj1_ahmed_bahb.Procs.{
  Proc, Table, unused, sleeping, runnable, nproc, is_state, first, fork, kill, set_proc, fork_child,
  embryo,
}

abbrev slain : Table → ℕ → Table
slain t i = set_proc t i (record (t.procs i) {
  killed = true;
  state = if is_state (t.procs i).state sleeping then runnable else (t.procs i).state;
})

kill-some :
    (t : Table) (pid i : ℕ)
    → first nproc (λ p. p.pid == pid) t.procs 0 ≡ some i
    → kill t pid ≡ (slain t i, true)
unfolding kill
kill-some t pid i found = rw (found, kill) refl

abbrev child : Table → ℕ → ℕ → ℕ → ℕ → Proc
child t i cur stack pgdir = (fork t cur stack pgdir).0.procs i

fork-some :
    (t : Table) (i cur stack pgdir : ℕ)
    → first nproc (λ p. is_state p.state unused) t.procs 0 ≡ some i
    → (stack == 0) ≡ false
    → fork t cur stack pgdir ≡ fork_child cur pgdir (allocated t i stack embryo, some i)
unfolding fork
fork-some t i cur stack pgdir free stack_there =
    ap (fork_child cur pgdir) (allocproc-some t stack i free stack_there)

-- A child is killed if its entry was.
killed-fork :
    (t : Table) (i cur stack pgdir : ℕ)
    → first nproc (λ p. is_state p.state unused) t.procs 0 ≡ some i
    → (stack == 0) ≡ false
    → (pgdir == 0) ≡ false
    → ((child t i cur stack pgdir).killed ≡ (t.procs i).killed)
      × ((child t i cur stack pgdir).state ≡ runnable)
unfolding fork_child
killed-fork t i cur stack pgdir free stack_there memory =
    let e = fork-some t i cur stack pgdir free stack_there in
    rw (child, e) (ground arith, ground arith)

-- If the first entry of the table with the pid 0 is an unused one, and the first such, then `kill 0`
-- succeeds, and the next `fork` that does so, with a stack and memory, makes a child that is killed
-- before it runs.
pub fork-kill_zero :
    (t : Table) (i cur stack pgdir : ℕ)
    → first nproc (λ p. p.pid == 0) t.procs 0 ≡ some i
    → is_state (t.procs i).state unused ≡ true
    → first nproc (λ p. is_state p.state unused) (kill t 0).0.procs 0 ≡ some i
    → (stack == 0) ≡ false
    → (pgdir == 0) ≡ false
    → ((kill t 0).1 ≡ true)
      × (((fork (kill t 0).0 cur stack pgdir).0.procs i).killed ≡ true)
      × (((fork (kill t 0).0 cur stack pgdir).0.procs i).state ≡ runnable)
fork-kill_zero t i cur stack pgdir found is free stack_there memory =
    let is_slain = kill-some t 0 i found in
    let c = killed-fork (kill t 0).0 i cur stack pgdir free stack_there memory in
    let marked : ((kill t 0).0.procs i).killed ≡ true = rw is_slain (ground arith) in
    (rw is_slain refl, c.0 ∙ marked, c.1)
