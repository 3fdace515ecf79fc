-- ===== src/Procs.antt =====
-- proc.c: the table of processes, under ptable.lock.
-- A process is named by its index in the table, below NPROC; `parent` is such an index. A channel is
-- the address of a process, for `wait`, or any other address. The pages for the stack and the page
-- table come from kalloc and copyuvm and are arguments, 0 when there is none. An int is
-- its 32 bits, so that `nextpid` wraps.
pub mod Scan
pub mod Children
pub mod Steps
pub mod Quiet
pub mod Family
pub mod Ends
pub mod Exit
pub mod Exited
pub mod Reach
pub mod Kill
mod Tests
use cse3320_proj1_ahmed_bahb.Common.{
  ℕ, zero, suc, ◌+◌, ◌%◌, ◌^◌, Bool, true, false, not, ◌&&◌, ◌||◌, List, [], ◌∷◌, Option, none,
  some, ◌==◌, if◌then◌else◌,
}
use cse3320_proj1_ahmed_bahb.Common.Maps.{update}
use cse3320_proj1_ahmed_bahb.Common.Outcome.{Outcome, ok, panic}

pub data State : Type 0 where
  unused embryo sleeping runnable running zombie : State

pub data Chan : Type 0 where
  nothing : Chan
  of_proc : ℕ → Chan
  address : ℕ → Chan

pub record Proc : Type 0 where
  pub sz : ℕ
  pub pgdir : ℕ
  pub kstack : ℕ
  pub state : State
  pub pid : ℕ
  pub parent : Option ℕ
  pub chan : Chan
  pub killed : Bool
  pub ofile : List ℕ
  pub cwd : ℕ
  pub name : List ℕ

pub record Table : Type 0 where
  pub procs : ℕ → Proc
  pub nextpid : ℕ
  pub initproc : ℕ

abbrev pub nproc : ℕ
nproc = 64

abbrev pub is_state : State → State → Bool
is_state unused unused = true
is_state embryo embryo = true
is_state sleeping sleeping = true
is_state runnable runnable = true
is_state running running = true
is_state zombie zombie = true
is_state _ _ = false

abbrev pub same_chan : Chan → Chan → Bool
same_chan nothing nothing = true
same_chan (of_proc i) (of_proc j) = i == j
same_chan (address a) (address b) = a == b
same_chan _ _ = false

abbrev pub is_child : ℕ → Proc → Bool
is_child cur p = elim p.parent [ none ↦ false | some j ↦ j == cur ]

abbrev pub set_proc : Table → ℕ → Proc → Table
set_proc t i p = record t { procs = update t.procs i p }

-- The first entry from `i` on, among `n`, that passes a test.
pub first : ℕ → (Proc → Bool) → (ℕ → Proc) → ℕ → Option ℕ
first zero test procs i = none
first (suc n) test procs i =
    let rest = first n test procs (i + 1) in if test (procs i) then some i else rest

-- `allocproc`: the locked part, and the stack from kalloc. The context on the stack is not modelled.
unfoldable pub allocproc : Table → ℕ → Table × Option ℕ
allocproc t stack = elim (first nproc (λ p. is_state p.state unused) t.procs 0) [
  | none ↦ (t, none)
  | some i ↦
      let p = t.procs i in
      if stack == 0
      then (
        record t {
          procs = update t.procs i (record p { kstack = 0; state = unused; pid = t.nextpid });
          nextpid = (t.nextpid + 1) % 2 ^ 32;
        },
        none,
      )
      else (
        record t {
          procs = update t.procs i (record p { kstack = stack; state = embryo; pid = t.nextpid });
          nextpid = (t.nextpid + 1) % 2 ^ 32;
        },
        some i,
      )
]

-- `if(proc->ofile[i]) np->ofile[i] = filedup(proc->ofile[i]);`, for each entry.
pub dup_files : List ℕ → List ℕ → List ℕ
dup_files [] fs = []
dup_files (o ∷ os) [] = o ∷ os
dup_files (o ∷ os) (f ∷ fs) = (if f == 0 then o else f) ∷ dup_files os fs

-- The rest of `fork` by the process `cur`, after `allocproc`. The child shares the open files and the
-- directory; their reference counts are those of file.c and fs.c.
unfoldable pub fork_child : ℕ → ℕ → Table × Option ℕ → Table × Option ℕ
unfolding dup_files
fork_child cur pgdir (t, none) = (t, none)
fork_child cur pgdir (t, some i) =
    let p = t.procs i in
    let c = t.procs cur in
    if pgdir == 0
    then (set_proc t i (record p { pgdir = 0; kstack = 0; state = unused }), none)
    else (
      set_proc t i (record p {
        pgdir = pgdir;
        sz = c.sz;
        parent = some cur;
        ofile = dup_files p.ofile c.ofile;
        cwd = c.cwd;
        name = c.name;
        state = runnable;
      }),
      some p.pid,
    )

-- `fork`: the new table, and the child's pid or `none` for -1.
unfoldable pub fork : Table → ℕ → ℕ → ℕ → Table × Option ℕ
unfolding fork_child
fork t cur stack pgdir = fork_child cur pgdir (allocproc t stack)

abbrev pub woken : Chan → Proc → Proc
woken chan p =
    if is_state p.state sleeping && same_chan p.chan chan then record p { state = runnable } else p

unfoldable pub wakeup1 : Chan → (ℕ → Proc) → ℕ → Proc
wakeup1 chan procs i = woken chan (procs i)

-- The loop of `exit` that passes the children of `cur` on to `init`, from entry `i` on.
unfoldable pub pass_children : ℕ → ℕ → ℕ → (ℕ → Proc) → ℕ → ℕ → Proc
unfolding wakeup1
pass_children zero cur init procs i = procs
pass_children (suc n) cur init procs i =
    let p = procs i in
    let adopted = update procs i (record p { parent = some init }) in
    let now =
      if is_child cur p
      then (if is_state p.state zombie then wakeup1 (of_proc init) adopted else adopted)
      else procs in
    pass_children n cur init now (i + 1)

-- The channel that `proc->parent` is, for `wakeup1(proc->parent)`.
abbrev pub parent_chan : Proc → Chan
parent_chan p = elim p.parent [ none ↦ nothing | some j ↦ of_proc j ]

pub no_files : List ℕ → List ℕ
no_files [] = []
no_files (f ∷ fs) = 0 ∷ no_files fs

-- `exit`, once the files are closed and the directory is put, up to the jump into the scheduler.
unfoldable pub exit : Table → ℕ → Outcome Table
unfolding wakeup1
exit t cur =
    if cur == t.initproc
    then panic
    else (let shut =
          update t.procs cur
            (record (t.procs cur) { ofile = no_files (t.procs cur).ofile; cwd = 0 }) in
        let passed =
          pass_children nproc cur t.initproc (wakeup1 (parent_chan (t.procs cur)) shut) 0 in
        ok (record t { procs = update passed cur (record (passed cur) { state = zombie }) }))

pub data Waited : Type 0 where
  reaped : ℕ → Waited
  failed : Waited
  asleep : Waited

-- An entry after `wait` has reaped it.
abbrev pub cleared : Proc → Proc
cleared p = record p {
  kstack = 0;
  state = unused;
  pid = 0;
  parent = none;
  name = [];
  killed = false;
}

abbrev pub is_some : Option ℕ → Bool
is_some none = false
is_some (some i) = true

-- One round of the loop of `wait` by the process `cur`, up to its `sleep` on itself.
unfoldable pub wait : Table → ℕ → Table × Waited
wait t cur = elim (first nproc (λ p. is_child cur p && is_state p.state zombie) t.procs 0) [
  | some i ↦ (set_proc t i (cleared (t.procs i)), reaped (t.procs i).pid)
  | none ↦
      let havekids = is_some (first nproc (is_child cur) t.procs 0) in
      if not havekids || (t.procs cur).killed
      then (t, failed)
      else (set_proc t cur (record (t.procs cur) { chan = of_proc cur; state = sleeping }), asleep)
]

-- `sleep`, up to the jump into the scheduler, and what it does when it is back.
unfoldable pub sleep : Table → ℕ → Chan → Table
sleep t cur chan = set_proc t cur (record (t.procs cur) { chan = chan; state = sleeping })

unfoldable pub wake : Table → ℕ → Table
wake t cur = set_proc t cur (record (t.procs cur) { chan = nothing })

unfoldable pub wakeup : Table → Chan → Table
unfolding wakeup1
wakeup t chan = record t { procs = wakeup1 chan t.procs }

-- `kill`: `true` stands for 0, `false` for -1.
unfoldable pub kill : Table → ℕ → Table × Bool
kill t pid = elim (first nproc (λ p. p.pid == pid) t.procs 0) [
  | none ↦ (t, false)
  | some i ↦
      let p = t.procs i in
      let s = if is_state p.state sleeping then runnable else p.state in
      (set_proc t i (record p { killed = true; state = s }), true)
]

-- The scheduler chooses entry `i`, if it may.
unfoldable pub schedule : Table → ℕ → Option Table
schedule t i =
    if is_state (t.procs i).state runnable
    then some (set_proc t i (record (t.procs i) { state = running }))
    else none

unfoldable pub yield : Table → ℕ → Table
yield t cur = set_proc t cur (record (t.procs cur) { state = runnable })
