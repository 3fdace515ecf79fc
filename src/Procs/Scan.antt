-- ===== src/Procs/Scan.antt =====
-- proc.c: the loops over the table.
use cse3320_proj1_ahmed_bahb.Common.{
  ℕ, zero, suc, ◌+◌, ◌≤◌, ◌<◌, ◌≡◌, refl, ◌∙◌, ◌⊎◌, inl, inr, Bool, true, false, ◌&&◌, none, some,
  arith, Bool-cases, ℕ_discrete,
}
use cse3320_proj1_ahmed_bahb.Procs.{
  Proc, sleeping, runnable, Chan, is_state, same_chan, first, woken,
}

pub first-eq-some :
    (n : ℕ) (test : Proc → Bool) (procs : ℕ → Proc) (i k : ℕ)
    → first n test procs i ≡ some k
    → (i ≤ k) × (k < i + n) × (test (procs k) ≡ true)
unfolding first
first-eq-some zero test procs i k e = cc
first-eq-some (suc n) test procs i k e = elim (Bool-cases (test (procs i))) [
  | inl found ↦ let is : i ≡ k = ground arith in rw (← is) (omega arith, omega arith, found)
  | inr other ↦
      let rest = first-eq-some n test procs (i + 1) k (ground arith) in
      (omega arith, omega arith, rest.2)
]

pub first-eq-none :
    (n : ℕ) (test : Proc → Bool) (procs : ℕ → Proc) (i : ℕ)
    → first n test procs i ≡ none
    → (k : ℕ) → i ≤ k
    → k < i + n
    → test (procs k) ≡ false
unfolding first
first-eq-none zero test procs i e k lo hi = absurd (omega arith)
first-eq-none (suc n) test procs i e k lo hi = elim (Bool-cases (test (procs i))) [
  | inl found ↦ cc (rw found at e)
  | inr other ↦ elim (ℕ_discrete i k) [
    | yes is ↦ rw (← is) other
    | no ne ↦ first-eq-none n test procs (i + 1) (rw other at e) k (omega arith) (omega arith)
  ]
]

-- What happens to an entry while `exit` runs over the table, apart from its parent: nothing, or it
-- is woken.
pub record Woken (p q : Proc) : Type 0 where
  pub pid : q.pid ≡ p.pid
  pub chan : q.chan ≡ p.chan
  pub killed : q.killed ≡ p.killed
  pub state : (q.state ≡ p.state) ⊎ ((p.state ≡ sleeping) × (q.state ≡ runnable))

pub Woken-refl : (p : Proc) → Woken p p
Woken-refl p = record { pid = refl; chan = refl; killed = refl; state = inl refl }

pub Woken-trans : (p q r : Proc) → Woken p q → Woken q r → Woken p r
Woken-trans p q r a b = record {
  pid = b.pid ∙ a.pid;
  chan = b.chan ∙ a.chan;
  killed = b.killed ∙ a.killed;
  state = let x = a.state in let y = b.state in ground arith;
}

pub woken-Woken : (chan : Chan) (p : Proc) → Woken p (woken chan p)
woken-Woken chan p = elim (Bool-cases (is_state p.state sleeping && same_chan p.chan chan)) [
  | inl wakes ↦
      rw wakes (record { pid = refl; chan = refl; killed = refl; state = inr (ground arith, refl) })
  | inr stays ↦ rw stays (Woken-refl p)
]
