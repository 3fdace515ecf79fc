-- ===== src/Locks.antt =====
-- spinlock.c: a lock that processors take by xchg, and the nesting of disabled interrupts.
-- A processor is a number. `acquire` and `release` are cut at each access to the lock, so that the
-- accesses of several processors can interleave; their calls of `pushcli` and `popcli` are modelled
-- apart, on the state of one processor. The call stack that a lock records is not modelled.
pub mod Nesting
pub mod Exclusion
mod Tests
use cse3320_proj1_ahmed_bahb.Common.{
  ℕ, ◌+◌, ◌-◌, Bool, true, false, not, ◌&&◌, Option, none, some, ◌==◌, if◌then◌else◌,
}
use cse3320_proj1_ahmed_bahb.Common.Maps.{update}
use cse3320_proj1_ahmed_bahb.Common.Outcome.{Outcome, ok, panic}

-- The fields of `struct cpu` that `pushcli` uses, and FL_IF of its flags.
pub record Cpu : Type 0 where
  pub interrupts : Bool
  pub ncli : ℕ
  pub intena : Bool

unfoldable pub pushcli : Cpu → Cpu
pushcli c = record c {
  interrupts = false;
  ncli = c.ncli + 1;
  intena = if c.ncli == 0 then c.interrupts else c.intena;
}

unfoldable pub popcli : Cpu → Outcome Cpu
popcli c =
    if c.interrupts
    then panic
    else (if c.ncli == 0
        then panic
        else ok (record c { ncli = c.ncli - 1; interrupts = c.ncli == 1 && c.intena }))

pub record Lock : Type 0 where
  pub locked : Bool
  pub cpu : Option ℕ

unfoldable pub initlock : Lock
initlock = record { locked = false; cpu = none }

unfoldable pub holding : Lock → ℕ → Bool
holding l c = l.locked && elim l.cpu [ none ↦ false | some d ↦ d == c ]

-- Where a processor is: outside, in the loop of `acquire`, behind it, between the calls, and in
-- `release` before its xchg.
pub data Place : Type 0 where
  outside spinning taken inside leaving : Place

pub record Machine : Type 0 where
  pub lock : Lock
  pub place : ℕ → Place

-- `acquire` up to its loop.
unfoldable pub enter : Machine → ℕ → Outcome Machine
enter m c = if holding m.lock c then panic else ok (record m { place = update m.place c spinning })

-- `xchg(&lk->locked, 1) != 0`
unfoldable pub spin : Machine → ℕ → Machine
spin m c =
    if m.lock.locked
    then m
    else record m { lock = record m.lock { locked = true }; place = update m.place c taken }

-- `lk->cpu = cpu`, the end of `acquire`.
unfoldable pub sign : Machine → ℕ → Machine
sign m c = record m { lock = record m.lock { cpu = some c }; place = update m.place c inside }

-- `release` up to its xchg.
unfoldable pub leave : Machine → ℕ → Outcome Machine
leave m c =
    if not (holding m.lock c)
    then panic
    else ok (record m { lock = record m.lock { cpu = none }; place = update m.place c leaving })

-- `xchg(&lk->locked, 0)`
unfoldable pub free : Machine → ℕ → Machine
free m c = record m { lock = record m.lock { locked = false }; place = update m.place c outside }
