-- ===== src/Procs/Quiet.antt =====
-- proc.c: the steps that start and end no process.
use cse3320_proj1_ahmed_bahb.Common.{
  ℕ, ◌≡◌, ◌≢◌, refl, ◌⊎◌, inl, inr, Option-cases, some, none, not, ◌&&◌, ◌||◌, ◌==◌, arith,
  Bool-cases, ℕ_discrete,
}
use cse3320_proj1_ahmed_bahb.Procs.{
  Proc, Table, unused, sleeping, runnable, running, zombie, Chan, of_proc, address, nproc, is_state,
  is_child, first, set_proc, wakeup, wait, sleep, wake, kill, schedule, yield, is_some,
}
use cse3320_proj1_ahmed_bahb.Procs.Scan.{first-eq-none}
use cse3320_proj1_ahmed_bahb.Procs.Steps.{NoZombies, Quiet}

-- How the entry of one process may change in a quiet step.
record QuietEntry (t : Table) (i : ℕ) (q : Proc) : Type 0 where
  pid : q.pid ≡ (t.procs i).pid
  parent : q.parent ≡ (t.procs i).parent
  unused_same : is_state q.state unused ≡ is_state (t.procs i).state unused
  zombie_same : is_state q.state zombie ≡ is_state (t.procs i).state zombie
  sleeper :
      (j : ℕ)
      → q.state ≡ sleeping
      → q.chan ≡ of_proc j
      → (((t.procs i).state ≡ sleeping) × ((t.procs i).chan ≡ of_proc j))
        ⊎ ((j ≡ i) × NoZombies t i)

set_proc-same :
    (t : Table) (i : ℕ) (q : Proc) (k : ℕ) → i ≢ k → (set_proc t i q).procs k ≡ t.procs k
set_proc-same t i q k ne = ground arith

set_proc-at : (t : Table) (i : ℕ) (q : Proc) (k : ℕ) → i ≡ k → (set_proc t i q).procs k ≡ q
set_proc-at t i q k e = ground arith

set_proc-Quiet : (t : Table) (i : ℕ) (q : Proc) → QuietEntry t i q → Quiet t (set_proc t i q)
set_proc-Quiet t i q e = record {
  init = refl;
  nextpid = refl;
  pid = λ k. elim (ℕ_discrete i k) [
    | yes is ↦ rw (set_proc-at t i q k is, ← is) e.pid
    | no ne ↦ rw (set_proc-same t i q k ne)
  ];
  parent = λ k. elim (ℕ_discrete i k) [
    | yes is ↦ rw (set_proc-at t i q k is, ← is) e.parent
    | no ne ↦ rw (set_proc-same t i q k ne)
  ];
  unused_same = λ k. elim (ℕ_discrete i k) [
    | yes is ↦ rw (set_proc-at t i q k is, ← is) e.unused_same
    | no ne ↦ rw (set_proc-same t i q k ne)
  ];
  zombie_same = λ k. elim (ℕ_discrete i k) [
    | yes is ↦ rw (set_proc-at t i q k is, ← is) e.zombie_same
    | no ne ↦ rw (set_proc-same t i q k ne)
  ];
  sleepers = λ k j s c. elim (ℕ_discrete i k) [
    | yes is ↦
        rw (← is)
          (e.sleeper j (rw (set_proc-at t i q k is) at s) (rw (set_proc-at t i q k is) at c))
    | no ne ↦ inl (rw (set_proc-same t i q k ne) at s, rw (set_proc-same t i q k ne) at c)
  ];
}

pub Quiet-refl : (t : Table) → Quiet t t
Quiet-refl t = record {
  init = refl;
  nextpid = refl;
  pid = λ k. refl;
  parent = λ k. refl;
  unused_same = λ k. refl;
  zombie_same = λ k. refl;
  sleepers = λ k j s c. inl (s, c);
}

pub schedule-Quiet : (t : Table) (i : ℕ) {u : Table} → schedule t i ≡ some u → Quiet t u
unfolding schedule
schedule-Quiet t i {u} e =
    let next = record (t.procs i) { state = running } in
    let was : (t.procs i).state ≡ runnable = ground arith in
    let is : u ≡ set_proc t i next = ground arith in
    rw is (
      set_proc-Quiet t i next (record {
        pid = refl;
        parent = refl;
        unused_same = rw was refl;
        zombie_same = rw was refl;
        sleeper = λ j s c. cc;
      }))

pub yield-Quiet : (t : Table) (cur : ℕ) → (t.procs cur).state ≡ running → Quiet t (yield t cur)
unfolding yield
yield-Quiet t cur was = set_proc-Quiet t cur _ (record {
  pid = refl;
  parent = refl;
  unused_same = rw was refl;
  zombie_same = rw was refl;
  sleeper = λ j s c. cc;
})

pub sleep-Quiet :
    (t : Table) (cur a : ℕ) → (t.procs cur).state ≡ running → Quiet t (sleep t cur (address a))
unfolding sleep
sleep-Quiet t cur a was = set_proc-Quiet t cur _ (record {
  pid = refl;
  parent = refl;
  unused_same = rw was refl;
  zombie_same = rw was refl;
  sleeper = λ j s c. cc;
})

pub wake-Quiet : (t : Table) (cur : ℕ) → (t.procs cur).state ≡ running → Quiet t (wake t cur)
unfolding wake
wake-Quiet t cur was = set_proc-Quiet t cur _ (record {
  pid = refl;
  parent = refl;
  unused_same = refl;
  zombie_same = refl;
  sleeper = λ j s c. cc;
})

pub wakeup-Quiet : (t : Table) (chan : Chan) → Quiet t (wakeup t chan)
unfolding wakeup
wakeup-Quiet t chan = record {
  init = refl;
  nextpid = refl;
  pid = λ k. ground arith;
  parent = λ k. ground arith;
  unused_same = λ k. ground arith;
  zombie_same = λ k. ground arith;
  sleepers = λ k j s c. inl (ground arith, ground arith);
}

pub kill-Quiet : (t : Table) (pid : ℕ) → Quiet t (kill t pid).0
unfolding kill
kill-Quiet t pid = elim (Option-cases (first nproc (λ p. p.pid == pid) t.procs 0)) [
  | inl nobody ↦ rw (nobody, kill) (Quiet-refl t)
  | inr (i, found) ↦
      rw (found, kill)
        (set_proc-Quiet t i _ (record {
          pid = refl;
          parent = refl;
          unused_same = ground arith;
          zombie_same = ground arith;
          sleeper = λ j s c. inl (ground arith, c);
        }))
]

-- A `wait` that reaps nobody.
pub wait-Quiet :
    (t : Table) (cur : ℕ)
    → (t.procs cur).state ≡ running
    → first nproc (λ p. is_child cur p && is_state p.state zombie) t.procs 0 ≡ none
    → Quiet t (wait t cur).0
unfolding wait
wait-Quiet t cur was none_dead =
    elim (Bool-cases
      (not (is_some (first nproc (is_child cur) t.procs 0)) || (t.procs cur).killed)) [
        | inl gives_up ↦ rw (none_dead, wait, gives_up) (Quiet-refl t)
        | inr waits ↦
            rw (none_dead, wait, waits)
              (set_proc-Quiet t cur _ (record {
                pid = refl;
                parent = refl;
                unused_same = rw was refl;
                zombie_same = rw was refl;
                sleeper = λ j s c. inr (
                  ground arith,
                  λ k h child.
                      let e =
                        first-eq-none nproc _ t.procs 0 none_dead k (omega arith) (omega arith) in
                      ground arith,
                );
              }))
      ]
