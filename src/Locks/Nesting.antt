-- ===== src/Locks/Nesting.antt =====
-- spinlock.c: matched calls of pushcli and popcli.
use cse3320_proj1_ahmed_bahb.Common.{◌-◌, ◌<◌, ◌≡◌, refl, ◌∙◌, false, ◌&&◌, ◌==◌, arith}
use cse3320_proj1_ahmed_bahb.Common.Outcome.{Outcome, ok, ◌>>=◌}
use cse3320_proj1_ahmed_bahb.Locks.{Cpu, pushcli, popcli}

-- Code in which each `pushcli` has its `popcli`: nothing, or a section between the two followed by more.
pub data Code : Type 0 where
  done : Code
  section : Code → Code → Code

unfoldable pub run : Code → Cpu → Outcome Cpu
run done c = ok c
run (section a b) c = run a (pushcli c) >>= λ d. popcli d >>= λ e. run b e

-- Interrupts are off while `ncli` is not 0.
abbrev pub Calm : Cpu → Type 0
Calm c = 0 < c.ncli → c.interrupts ≡ false

-- Nothing that matters has changed: `intena` is used only while `ncli` is not 0.
abbrev pub Restored : Cpu → Cpu → Type 0
Restored c d =
    (d.interrupts ≡ c.interrupts) × (d.ncli ≡ c.ncli) × (0 < c.ncli → d.intena ≡ c.intena)

pushcli-Calm : (c : Cpu) → Calm (pushcli c)
unfolding pushcli
pushcli-Calm c h = refl

popcli-pushcli :
    (c d : Cpu) → Calm c → Restored (pushcli c) d → (e : Cpu) × (popcli d ≡ ok e) × Restored c e
unfolding pushcli popcli
popcli-pushcli c d calm (off, count, kept) =
    let same = kept (omega arith) in
    (
      record d { ncli = d.ncli - 1; interrupts = d.ncli == 1 && d.intena },
      ground arith,
      (ground arith, omega arith, λ h. ground arith),
    )

-- If interrupts are off whenever `ncli` is not 0, code in which each `pushcli` has its `popcli` runs
-- without a panic, and after it interrupts are on if and only if they were on before, and `ncli` is what
-- it was.
pub run-Restored : (a : Code) (c : Cpu) → Calm c → (d : Cpu) × (run a c ≡ ok d) × Restored c d
unfolding run
run-Restored done c calm = (c, refl, (refl, refl, λ h. refl))
run-Restored (section a b) c calm =
    let r = run-Restored a (pushcli c) (pushcli-Calm c) in
    let p = popcli-pushcli c r.0 calm r.2 in
    let mid = p.2 in
    let calm' : Calm p.0 = λ h. mid.0 ∙ calm (omega arith) in
    let s = run-Restored b p.0 calm' in
    let end = s.2 in
    (s.0, rw (r.1, p.1) s.1, (end.0 ∙ mid.0, end.1 ∙ mid.1, λ h. end.2 (omega arith) ∙ mid.2 h))
