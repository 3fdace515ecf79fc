-- ===== src/Locks/Tests.antt =====
-- spinlock.c: two processors at a lock, and the theorems at inputs that meet their hypotheses.
use cse3320_proj1_ahmed_bahb.Common.{ℕ, ◌≡◌, ◌≢◌, refl, true, false}
use cse3320_proj1_ahmed_bahb.Common.Maps.{update}
use cse3320_proj1_ahmed_bahb.Common.Outcome.{panic}
use cse3320_proj1_ahmed_bahb.Locks.{
  Cpu, popcli, outside, spinning, taken, inside, Machine, initlock, holding, enter, spin, sign,
  leave,
}
use cse3320_proj1_ahmed_bahb.Locks.Nesting.{Code, done, section}
use cse3320_proj1_ahmed_bahb.Locks.Exclusion.{
  Steps, here, next, enters, spins, signs, idle, has_lock, exclusion_lem,
}

abbrev open_cpu : Cpu
open_cpu = record { interrupts = true; ncli = 0; intena = false }

abbrev nested : Code
nested = section (section done done) done

popcli_alone : popcli (record open_cpu { interrupts = false }) ≡ panic
unfolding popcli
popcli_alone = refl

-- Processor 1 takes the lock while processor 2 spins.
abbrev both_came : Machine
both_came = record { lock = initlock; place = update (update (λ _. outside) 1 spinning) 2 spinning }

abbrev one_in : Machine
one_in = sign (spin both_came 1) 1

one_comes : Steps idle (record { lock = initlock; place = update (λ _. outside) 1 spinning })
unfolding enter holding initlock
one_comes = next here (enters 1 refl refl)

both_come : Steps idle both_came
unfolding enter holding initlock
both_come = next one_comes (enters 2 refl refl)

one_takes : (spin both_came 1).place 1 ≡ taken
unfolding spin initlock
one_takes = refl

run_to_one_in : Steps idle one_in
run_to_one_in = next (next both_come (spins 1 refl)) (signs 1 one_takes)

second_spins : (spin one_in 2).place 2 ≡ spinning
unfolding spin sign initlock
second_spins = refl

reentry_panics : enter one_in 1 ≡ panic
unfolding enter spin sign holding initlock
reentry_panics = refl

exclusion_lem_example :
    ((c d : ℕ) → has_lock (one_in.place c) ≡ true → has_lock (one_in.place d) ≡ true → c ≡ d)
    × ((c : ℕ) → one_in.place c ≡ outside → (enter one_in c ≢ panic))
    × ((c : ℕ) → one_in.place c ≡ inside → (leave one_in c ≢ panic))
exclusion_lem_example = exclusion_lem run_to_one_in
