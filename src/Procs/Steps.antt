-- ===== src/Procs/Steps.antt =====
-- proc.c: the processes of a machine in any order of steps, and the invariant of the table.
use cse3320_proj1_ahmed_bahb.Common.{
  ℕ, ◌-◌, ◌^◌, ◌<◌, ◌≡◌, ◌≢◌, sym, ◌∙◌, ◌⊎◌, inl, inr, some, none, true, false,
}
use cse3320_proj1_ahmed_bahb.Common.Outcome.{ok}
use cse3320_proj1_ahmed_bahb.Procs.{
  Proc, Table, unused, sleeping, running, zombie, Chan, of_proc, address, nproc, is_state, is_child,
  fork, exit, wait, sleep, wake, wakeup, kill, schedule, yield,
}

-- The largest int.
abbrev pub max_pid : ℕ
max_pid = 2 ^ 31 - 1

-- A step of the table: the scheduler picks a process, a running process calls one of the functions, or
-- anyone wakes a channel or kills. `fork` is one step, its entry being EMBRYO on the way, and happens
-- only while `nextpid` is below the largest int, where its increment is defined. A `sleep`
-- other than that of `wait` is on an address that is no process.
pub data Step (t : Table) : Table → Type 0 where
  schedules : (i : ℕ) {u : Table} → i < nproc → schedule t i ≡ some u → Step t u
  yields : (cur : ℕ) → cur < nproc → (t.procs cur).state ≡ running → Step t (yield t cur)
  forks :
      (cur stack pgdir : ℕ)
      → cur < nproc
      → (t.procs cur).state ≡ running
      → t.nextpid < max_pid
      → Step t (fork t cur stack pgdir).0
  exits :
      (cur : ℕ) {u : Table}
      → cur < nproc
      → (t.procs cur).state ≡ running
      → exit t cur ≡ ok u
      → Step t u
  waits : (cur : ℕ) → cur < nproc → (t.procs cur).state ≡ running → Step t (wait t cur).0
  sleeps :
      (cur a : ℕ) → cur < nproc → (t.procs cur).state ≡ running → Step t (sleep t cur (address a))
  returns : (cur : ℕ) → cur < nproc → (t.procs cur).state ≡ running → Step t (wake t cur)
  wakes : (chan : Chan) → Step t (wakeup t chan)
  kills : (pid : ℕ) → Step t (kill t pid).0

pub data Steps (t : Table) : Table → Type 0 where
  here : Steps t t
  next : {u v : Table} → Steps t u → Step u v → Steps t v

abbrev pub Live : Proc → Type 0
Live p = is_state p.state unused ≡ false

abbrev pub Active : Proc → Type 0
Active p = (is_state p.state unused ≡ false) × (is_state p.state zombie ≡ false)

abbrev pub Parented : Table → ℕ → Type 0
Parented t i = (j : ℕ) × ((t.procs i).parent ≡ some j) × (j < nproc) × (j ≢ i) × Active (t.procs j)

-- No child of `i` is a zombie.
abbrev pub NoZombies : Table → ℕ → Type 0
NoZombies t i =
    (k : ℕ) → k < nproc → is_child i (t.procs k) ≡ true → is_state (t.procs k).state zombie ≡ false

pub record Inv (t : Table) : Type 0 where
  pub init_in : t.initproc < nproc
  pub init_active : Active (t.procs t.initproc)
  pub pids : (i : ℕ) → i < nproc → Live (t.procs i) → (t.procs i).pid < t.nextpid
  pub unique :
      (i j : ℕ)
      → i < nproc
      → j < nproc
      → Live (t.procs i)
      → Live (t.procs j)
      → (t.procs i).pid ≡ (t.procs j).pid
      → i ≡ j
  pub parents : (i : ℕ) → i < nproc → Live (t.procs i) → i ≢ t.initproc → Parented t i
  pub orphans :
      (i : ℕ) → i < nproc → is_state (t.procs i).state unused ≡ true → (t.procs i).parent ≡ none
  pub own_chan :
      (i j : ℕ) → i < nproc → (t.procs i).state ≡ sleeping → (t.procs i).chan ≡ of_proc j → j ≡ i
  pub no_zombies :
      (i : ℕ)
      → i < nproc
      → (t.procs i).state ≡ sleeping
      → (t.procs i).chan ≡ of_proc i
      → NoZombies t i

-- A change of the table that starts and ends no process and changes no parent. A process that sleeps
-- on a process afterwards did so before, or sleeps on itself and has no zombie child.
pub record Quiet (t u : Table) : Type 0 where
  pub init : u.initproc ≡ t.initproc
  pub nextpid : u.nextpid ≡ t.nextpid
  pub pid : (k : ℕ) → (u.procs k).pid ≡ (t.procs k).pid
  pub parent : (k : ℕ) → (u.procs k).parent ≡ (t.procs k).parent
  pub unused_same : (k : ℕ) → is_state (u.procs k).state unused ≡ is_state (t.procs k).state unused
  pub zombie_same : (k : ℕ) → is_state (u.procs k).state zombie ≡ is_state (t.procs k).state zombie
  pub sleepers :
      (k j : ℕ)
      → (u.procs k).state ≡ sleeping
      → (u.procs k).chan ≡ of_proc j
      → (((t.procs k).state ≡ sleeping) × ((t.procs k).chan ≡ of_proc j))
        ⊎ ((j ≡ k) × NoZombies t k)

pub Quiet-Inv : {t u : Table} → Quiet t u → Inv t → Inv u
Quiet-Inv {t} {u} q i = record {
  init_in = rw (q.init) i.init_in;
  init_active =
      rw (q.init)
        (q.unused_same t.initproc ∙ i.init_active.0, q.zombie_same t.initproc ∙ i.init_active.1);
  pids = λ k h l. rw (q.pid k, q.nextpid) (i.pids k h (sym (q.unused_same k) ∙ l));
  unique = λ k j hk hj lk lj e.
      i.unique k j hk hj (sym (q.unused_same k) ∙ lk) (sym (q.unused_same j) ∙ lj)
        (sym (q.pid k) ∙ e ∙ q.pid j);
  parents = λ k h l ne.
      let p = i.parents k h (sym (q.unused_same k) ∙ l) (λ e. ne (e ∙ sym q.init)) in
      (p.0, q.parent k ∙ p.1, p.2, p.3, (q.unused_same p.0 ∙ p.4.0, q.zombie_same p.0 ∙ p.4.1));
  orphans = λ k h e. q.parent k ∙ i.orphans k h (sym (q.unused_same k) ∙ e);
  own_chan = λ k j h s c. elim (q.sleepers k j s c) [
    | inl before ↦ i.own_chan k j h before.0 before.1
    | inr fresh ↦ fresh.0
  ];
  no_zombies = λ k h s c m hm child.
      let child' : is_child k (t.procs m) ≡ true = rw (← q.parent m) child in
      q.zombie_same m ∙ elim (q.sleepers k k s c) [
        | inl before ↦ i.no_zombies k h before.0 before.1 m hm child'
        | inr fresh ↦ fresh.1 m hm child'
      ];
}
