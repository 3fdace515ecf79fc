-- ===== src/Locks/Exclusion.antt =====
-- spinlock.c: several processors at one lock.
use cse3320_proj1_ahmed_bahb.Common.{
  ℕ, ◌≡◌, ◌≢◌, refl, Bool, true, false, none, some, arith, ℕ_discrete, Bool-cases, inl, inr,
}
use cse3320_proj1_ahmed_bahb.Common.Maps.{update}
use cse3320_proj1_ahmed_bahb.Common.Outcome.{ok, panic}
use cse3320_proj1_ahmed_bahb.Locks.{
  Lock, Place, outside, spinning, taken, inside, leaving, Machine, initlock, holding, enter, spin,
  sign, leave, free,
}

-- An access to the lock by a processor that has come to it.
pub data Step (m : Machine) : Machine → Type 0 where
  enters : (c : ℕ) {n : Machine} → m.place c ≡ outside → enter m c ≡ ok n → Step m n
  spins : (c : ℕ) → m.place c ≡ spinning → Step m (spin m c)
  signs : (c : ℕ) → m.place c ≡ taken → Step m (sign m c)
  leaves : (c : ℕ) {n : Machine} → m.place c ≡ inside → leave m c ≡ ok n → Step m n
  frees : (c : ℕ) → m.place c ≡ leaving → Step m (free m c)

pub data Steps (m : Machine) : Machine → Type 0 where
  here : Steps m m
  next : {n o : Machine} → Steps m n → Step n o → Steps m o

-- The machine when `initlock` has run and nobody has come to the lock.
abbrev pub idle : Machine
idle = record { lock = initlock; place = λ _. outside }

-- A processor is past the loop of `acquire` and not through with `release`.
abbrev pub has_lock : Place → Bool
has_lock outside = false
has_lock spinning = false
has_lock taken = true
has_lock inside = true
has_lock leaving = true

record Inv (m : Machine) : Type 0 where
  alone : (c d : ℕ) → has_lock (m.place c) ≡ true → has_lock (m.place d) ≡ true → c ≡ d
  locked : (c : ℕ) → has_lock (m.place c) ≡ true → m.lock.locked ≡ true
  owner : (c : ℕ) → m.lock.cpu ≡ some c → m.place c ≡ inside
  signed : (c : ℕ) → m.place c ≡ inside → m.lock.cpu ≡ some c

idle-Inv : Inv idle
unfolding initlock
idle-Inv = record { alone = λ c d h. cc; locked = λ c h. cc; owner = λ c e. cc; signed = λ c e. cc }

place-elsewhere : (p : ℕ → Place) (c : ℕ) (x : Place) (k : ℕ) → c ≢ k → update p c x k ≡ p k
place-elsewhere p c x k ne = ground arith

place-here : (p : ℕ → Place) (c : ℕ) (x : Place) → update p c x c ≡ x
place-here p c x = ground arith

enter-Inv :
    (m : Machine) (c : ℕ) {n : Machine} → m.place c ≡ outside → enter m c ≡ ok n → Inv m → Inv n
unfolding enter
enter-Inv m c {n} at e v =
    let is : n ≡ record m { place = update m.place c spinning } = ground arith in
    rw is (record {
      alone = λ k j h h'. v.alone k j (ground arith) (ground arith);
      locked = λ k h. v.locked k (ground arith);
      owner = λ k o. let i = v.owner k o in ground arith;
      signed = λ k i. v.signed k (ground arith);
    })

spin-Inv : (m : Machine) (c : ℕ) → m.place c ≡ spinning → Inv m → Inv (spin m c)
unfolding spin
spin-Inv m c at v = elim (Bool-cases m.lock.locked) [
  | inl busy ↦ let same : spin m c ≡ m = ground arith in rw same v
  | inr unlocked ↦
      let nobody = λ (k : ℕ) (h : has_lock (m.place k) ≡ true).
        let l = v.locked k h in let a : c ≡ k = cc in a in
      rw unlocked (record {
        alone = λ k j h h'. let a = nobody k in let b = nobody j in ground arith;
        locked = λ k h. refl;
        owner = λ k o. let i = v.owner k o in ground arith;
        signed = λ k i. v.signed k (ground arith);
      })
]

sign-Inv : (m : Machine) (c : ℕ) → m.place c ≡ taken → Inv m → Inv (sign m c)
unfolding sign
sign-Inv m c at v =
    let mine : has_lock (m.place c) ≡ true = rw at refl in
    record {
      alone = λ k j h h'. v.alone k j (ground arith) (ground arith);
      locked = λ k h. v.locked c mine;
      owner = λ k o. ground arith;
      signed = λ k i. elim (ℕ_discrete c k) [
        | yes e ↦ rw e refl
        | no ne ↦ absurd (ne (v.alone c k mine (ground arith)))
      ];
    }

leave-Inv :
    (m : Machine) (c : ℕ) {n : Machine} → m.place c ≡ inside → leave m c ≡ ok n → Inv m → Inv n
unfolding leave
leave-Inv m c {n} at e v =
    let mine : has_lock (m.place c) ≡ true = rw at refl in
    let is : n
        ≡ record m { lock = record m.lock { cpu = none }; place = update m.place c leaving } =
      ground arith in
    rw is (record {
      alone = λ k j h h'. v.alone k j (ground arith) (ground arith);
      locked = λ k h. v.locked c mine;
      owner = λ k o. cc;
      signed = λ k i. elim (ℕ_discrete c k) [
        | yes e ↦ absurd (ground arith)
        | no ne ↦ absurd (ne (v.alone c k mine (ground arith)))
      ];
    })

free-Inv : (m : Machine) (c : ℕ) → m.place c ≡ leaving → Inv m → Inv (free m c)
unfolding free
free-Inv m c at v =
    let mine : has_lock (m.place c) ≡ true = rw at refl in
    let gone = λ (k : ℕ) (ne : c ≢ k) (h : has_lock (m.place k) ≡ true).
      let a : ⊥ = ne (v.alone c k mine h) in a in
    record {
      alone = λ k j h h'. v.alone k j (ground arith) (ground arith);
      locked = λ k h. elim (ℕ_discrete c k) [
        | yes e ↦ absurd (ground arith)
        | no ne ↦ absurd (gone k ne (ground arith))
      ];
      owner = λ k o. let i = v.owner k o in ground arith;
      signed = λ k i. v.signed k (ground arith);
    }

cpu-holding : (l : Lock) (c : ℕ) → holding l c ≡ true → l.cpu ≡ some c
unfolding holding
cpu-holding l c h = ground arith

holding-some : (l : Lock) (c : ℕ) → l.locked ≡ true → l.cpu ≡ some c → holding l c ≡ true
unfolding holding
holding-some l c h e = ground arith

Step-Inv : {m n : Machine} → Step m n → Inv m → Inv n
Step-Inv {m} (enters c at e) v = enter-Inv m c at e v
Step-Inv {m} (spins c at) v = spin-Inv m c at v
Step-Inv {m} (signs c at) v = sign-Inv m c at v
Step-Inv {m} (leaves c at e) v = leave-Inv m c at e v
Step-Inv {m} (frees c at) v = free-Inv m c at v

Steps-Inv : {m n : Machine} → Steps m n → Inv m → Inv n
Steps-Inv here v = v
Steps-Inv (next before s) v = Step-Inv s (Steps-Inv before v)

-- However the accesses of any processors to a lock interleave, from `initlock` on: two processors that
-- have the lock are the same one, `acquire` does not panic on a processor outside, and `release` does not
-- on a processor between its calls.
pub exclusion_lem :
    {m : Machine}
    → Steps idle m
    → ((c d : ℕ) → has_lock (m.place c) ≡ true → has_lock (m.place d) ≡ true → c ≡ d)
      × ((c : ℕ) → m.place c ≡ outside → (enter m c ≢ panic))
      × ((c : ℕ) → m.place c ≡ inside → (leave m c ≢ panic))
unfolding enter leave
exclusion_lem {m} steps =
    let v = Steps-Inv steps idle-Inv in
    (
      v.alone,
      (λ c at p.
          let i = λ (h : holding m.lock c ≡ true). v.owner c (cpu-holding m.lock c h) in
          elim (Bool-cases (holding m.lock c)) [
            | inl holds ↦ let x = i holds in cc
            | inr free ↦ ground arith
          ]),
      (λ c at p.
          let s = v.signed c at in
          let l = v.locked c (rw at refl) in let h = holding-some m.lock c l s in ground arith),
    )
