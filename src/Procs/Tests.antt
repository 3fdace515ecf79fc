-- ===== src/Procs/Tests.antt =====
-- proc.c on a table with `init` and one other process, and the theorems at inputs that meet their
-- hypotheses.
use cse3320_proj1_ahmed_bahb.Common.{
  ℕ, zero, suc, ◌≡◌, refl, true, false, [], none, some, ◌==◌, if◌then◌else◌, arith,
}
use cse3320_proj1_ahmed_bahb.Common.Outcome.{panic}
use cse3320_proj1_ahmed_bahb.Procs.{
  Proc, Table, unused, sleeping, runnable, running, zombie, nothing, of_proc, nproc, is_state,
  is_child, first, fork, exit, wait, kill, allocproc, reaped,
}
use cse3320_proj1_ahmed_bahb.Procs.Steps.{Steps, here, next, forks, waits, Live, Inv}
use cse3320_proj1_ahmed_bahb.Procs.Reach.{Step-Inv, pids_distinct, no_lost_exit}
use cse3320_proj1_ahmed_bahb.Procs.Kill.{fork-kill_zero}

abbrev empty_entry : Proc
empty_entry = record {
  sz = 0;
  pgdir = 0;
  kstack = 0;
  state = unused;
  pid = 0;
  parent = none;
  chan = nothing;
  killed = false;
  ofile = [];
  cwd = 0;
  name = [];
}

abbrev init_entry : Proc
init_entry = record empty_entry { state = running; pid = 1; kstack = 4096; pgdir = 8192 }

-- The table after `userinit`, when the scheduler has picked `init`.
abbrev booted : Table
booted = record {
  procs = λ i. if i == 0 then init_entry else empty_entry;
  nextpid = 2;
  initproc = 0;
}

only_init : (k : ℕ) → Live (booted.procs k) → k ≡ 0
only_init zero l = refl
only_init (suc k) l = ground arith

booted-Inv : Inv booted
booted-Inv = record {
  init_in = ground arith;
  init_active = (refl, refl);
  pids = λ k h l. ground arith;
  unique = λ k j hk hj lk lj e. ground (arith, only_init k lk, only_init j lj);
  parents = λ k h l ne. absurd (ne (only_init k l));
  orphans = λ k h e. ground arith;
  own_chan = λ k j h s c. ground arith;
  no_zombies = λ k h s c. ground arith;
}

abbrev forked : Table
forked = (fork booted 0 4096 8192).0

-- `init` forks, then waits for its child.
abbrev waiting : Table
waiting = (wait forked 0).0

boot_forks : Steps booted forked
boot_forks = next here (forks 0 4096 8192 (ground arith) refl (omega arith))

init_runs : (forked.procs 0).state ≡ running
unfolding fork allocproc first
init_runs = refl

boot_waits : Steps booted waiting
boot_waits = next boot_forks (waits 0 (ground arith) init_runs)

fork-booted : (fork booted 0 4096 8192).1 ≡ some 2
unfolding fork allocproc first
fork-booted = refl

child_lives : Live (forked.procs 1)
unfolding fork allocproc first
child_lives = refl

init_sleeps : ((waiting.procs 0).state ≡ sleeping) × ((waiting.procs 0).chan ≡ of_proc 0)
unfolding fork allocproc wait first
init_sleeps = (refl, refl)

child_waits : is_child 0 (waiting.procs 1) ≡ true
unfolding fork allocproc wait first
child_waits = refl

-- The child after the scheduler has run it and it has called `exit`.
abbrev dead_child : Table
dead_child = record forked {
  procs = λ i. if i == 1 then record (forked.procs 1) { state = zombie } else forked.procs i;
}

wait-dead_child : (wait dead_child 0).1 ≡ reaped 2
unfolding fork allocproc wait first
wait-dead_child = refl

exit_init : exit booted 0 ≡ panic
unfolding exit
exit_init = refl

Step-Inv_example : Inv forked
Step-Inv_example = Step-Inv (forks 0 4096 8192 (ground arith) refl (omega arith)) booted-Inv

pids_distinct_example : ◌≡◌ {A = ℕ} 1 1
pids_distinct_example =
    pids_distinct booted-Inv boot_forks 1 1 (ground arith) (ground arith) child_lives child_lives
      refl

not_init : ◌≡◌ {A = ℕ} 1 forked.initproc → ⊥
unfolding fork allocproc first
not_init = ground arith

no_lost_exit_example : is_state (waiting.procs 1).state zombie ≡ false
no_lost_exit_example =
    no_lost_exit booted-Inv boot_waits 0 (ground arith) init_sleeps.0 init_sleeps.1 1 (ground arith)
      child_waits

first_free : first nproc (λ p. is_state p.state unused) (kill booted 0).0.procs 0 ≡ some 1
unfolding kill first
first_free = refl

pid_zero : first nproc (λ p. p.pid == 0) booted.procs 0 ≡ some 1
unfolding first
pid_zero = refl

fork-kill_zero_example :
    ((kill booted 0).1 ≡ true)
    × (((fork (kill booted 0).0 0 4096 8192).0.procs 1).killed ≡ true)
    × (((fork (kill booted 0).0 0 4096 8192).0.procs 1).state ≡ runnable)
fork-kill_zero_example = fork-kill_zero booted 1 0 4096 8192 pid_zero refl first_free refl refl
