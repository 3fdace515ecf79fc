-- ===== src/Procs/Reach.antt =====
-- proc.c: the reachable states of the table.
use cse3320_proj1_ahmed_bahb.Common.{ℕ, ◌<◌, ◌≡◌, ◌≢◌, inl, inr, Option-cases, true, false, ◌&&◌}
use cse3320_proj1_ahmed_bahb.Procs.{
  Table, sleeping, zombie, of_proc, nproc, is_state, is_child, first,
}
use cse3320_proj1_ahmed_bahb.Procs.Steps.{
  Step, Steps, schedules, yields, forks, exits, waits, sleeps, returns, wakes, kills, here, next,
  Live, Parented, Inv, Quiet-Inv,
}
use cse3320_proj1_ahmed_bahb.Procs.Quiet.{
  schedule-Quiet, yield-Quiet, sleep-Quiet, wake-Quiet, wakeup-Quiet, kill-Quiet, wait-Quiet,
}
use cse3320_proj1_ahmed_bahb.Procs.Family.{fork-Forked, Forked-Inv}
use cse3320_proj1_ahmed_bahb.Procs.Ends.{reap-Inv}
use cse3320_proj1_ahmed_bahb.Procs.Exit.{exit-Exited}
use cse3320_proj1_ahmed_bahb.Procs.Exited.{Exited-Inv}

-- Each step of the process table, a `schedule`, `yield`, `fork`, `exit`, `wait`, `sleep`, `wakeup` or
-- `kill`, keeps the invariant: `init` is there and neither unused nor a zombie, the pids of the
-- processes are distinct and below `nextpid`, each process but `init` has a parent other than itself
-- that is no zombie, an unused entry has no parent, a process that sleeps on a process sleeps on
-- itself, and a process that does has no zombie child. A `fork` is a step only while `nextpid` is below
-- the largest int: it goes on counting, and pids come again once it has wrapped.
pub Step-Inv : {t u : Table} → Step t u → Inv t → Inv u
Step-Inv {t} (schedules i h e) v = Quiet-Inv (schedule-Quiet t i e) v
Step-Inv {t} (yields cur h r) v = Quiet-Inv (yield-Quiet t cur r) v
Step-Inv {t} (forks cur stack pgdir h r small) v = elim (fork-Forked t cur stack pgdir small) [
  | inl same ↦ rw same v
  | inr f ↦ Forked-Inv cur h r f v
]
Step-Inv {t} (exits cur h r e) v = Exited-Inv cur h r (exit-Exited t cur e) v
Step-Inv {t} (waits cur h r) v =
    elim (Option-cases (first nproc (λ p. is_child cur p && is_state p.state zombie) t.procs 0)) [
      | inl none_dead ↦ Quiet-Inv (wait-Quiet t cur r none_dead) v
      | inr (i, found) ↦ reap-Inv t cur i found v
    ]
Step-Inv {t} (sleeps cur a h r) v = Quiet-Inv (sleep-Quiet t cur a r) v
Step-Inv {t} (returns cur h r) v = Quiet-Inv (wake-Quiet t cur r) v
Step-Inv {t} (wakes chan) v = Quiet-Inv (wakeup-Quiet t chan) v
Step-Inv {t} (kills pid) v = Quiet-Inv (kill-Quiet t pid) v

pub Steps-Inv : {t u : Table} → Steps t u → Inv t → Inv u
Steps-Inv here v = v
Steps-Inv (next before s) v = Step-Inv s (Steps-Inv before v)

-- In every table that steps reach from one with the invariant, where each `fork` finds `nextpid` below the
-- largest int, two entries that are in use and have the same pid are the same entry.
pub pids_distinct :
    {t u : Table}
    → Inv t
    → Steps t u
    → (i j : ℕ) → i < nproc
    → j < nproc
    → Live (u.procs i)
    → Live (u.procs j)
    → (u.procs i).pid ≡ (u.procs j).pid
    → i ≡ j
pids_distinct v steps = (Steps-Inv steps v).unique

-- In every table that steps reach from one with the invariant, a process other than `init` has as its
-- parent another process of the table that is no zombie, so that an `exit` leaves no orphans.
pub no_orphans :
    {t u : Table}
    → Inv t
    → Steps t u
    → (i : ℕ) → i < nproc
    → Live (u.procs i)
    → i ≢ u.initproc
    → Parented u i
no_orphans v steps = (Steps-Inv steps v).parents

-- In every table that steps reach from one with the invariant (a `fork` is a step while `nextpid` is below
-- the largest int, where its increment is defined), a process asleep in `wait` has no child
-- that is a zombie: no wakeup is lost between `exit` and `wait`.
pub no_lost_exit :
    {t u : Table}
    → Inv t
    → Steps t u
    → (i : ℕ) → i < nproc
    → (u.procs i).state ≡ sleeping
    → (u.procs i).chan ≡ of_proc i
    → (k : ℕ) → k < nproc
    → is_child i (u.procs k) ≡ true
    → is_state (u.procs k).state zombie ≡ false
no_lost_exit v steps = (Steps-Inv steps v).no_zombies
