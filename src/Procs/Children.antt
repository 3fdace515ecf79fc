-- ===== src/Procs/Children.antt =====
-- proc.c: how exit passes the children of a process on to init.
use cse3320_proj1_ahmed_bahb.Common.{
  ℕ, zero, suc, ◌+◌, ◌≤◌, ◌<◌, ◌≡◌, refl, ◌∙◌, ◌⊎◌, inl, inr, true, false, ◌&&◌, some, ◌==◌,
  if◌then◌else◌, arith, Bool-cases, ℕ_discrete,
}
use cse3320_proj1_ahmed_bahb.Common.Maps.{update}
use cse3320_proj1_ahmed_bahb.Procs.{
  Proc, sleeping, zombie, Chan, of_proc, is_state, same_chan, is_child, wakeup1, pass_children,
}
use cse3320_proj1_ahmed_bahb.Procs.Scan.{Woken, Woken-refl, Woken-trans, woken-Woken}

-- Nobody sleeps on a channel.
abbrev pub Deserted : Chan → (ℕ → Proc) → Type 0
Deserted chan procs = (j : ℕ) → (procs j).state ≡ sleeping → same_chan (procs j).chan chan ≡ false

pub Deserted-wakeup1 : (chan : Chan) (procs : ℕ → Proc) → Deserted chan (wakeup1 chan procs)
unfolding wakeup1
Deserted-wakeup1 chan procs j asleep = ground arith

-- Waking more processes leaves a channel deserted.
pub Deserted-Woken :
    (chan : Chan) (procs procs' : ℕ → Proc)
    → ((k : ℕ) → Woken (procs k) (procs' k))
    → Deserted chan procs
    → Deserted chan procs'
Deserted-Woken chan procs procs' each d j asleep =
    let w = each j in
    let same = w.chan in
    let how = w.state in let was : (procs j).state ≡ sleeping = ground arith in rw same (d j was)

-- A round of the loop at entry `i`.
abbrev round : ℕ → ℕ → (ℕ → Proc) → ℕ → ℕ → Proc
round cur init procs i =
    let p = procs i in
    let adopted = update procs i (record p { parent = some init }) in
    if is_child cur p
    then (if is_state p.state zombie then wakeup1 (of_proc init) adopted else adopted)
    else procs

adopted-Woken :
    (init : ℕ) (procs : ℕ → Proc) (i k : ℕ)
    → Woken (procs k) (update procs i (record (procs i) { parent = some init }) k)
adopted-Woken init procs i k = elim (ℕ_discrete i k) [
  | yes e ↦
      let same : update procs i (record (procs i) { parent = some init }) k
          ≡ record (procs i) { parent = some init } =
        ground arith in
      rw (same, ← e) (record { pid = refl; chan = refl; killed = refl; state = inl refl })
  | no ne ↦
      let same : update procs i (record (procs i) { parent = some init }) k ≡ procs k =
        ground arith in
      rw same (Woken-refl (procs k))
]

round-Woken :
    (cur init : ℕ) (procs : ℕ → Proc) (i k : ℕ) → Woken (procs k) (round cur init procs i k)
unfolding wakeup1
round-Woken cur init procs i k =
    let adopted = update procs i (record (procs i) { parent = some init }) in
    elim (Bool-cases (is_child cur (procs i))) [
      | inl child ↦ elim (Bool-cases (is_state (procs i).state zombie)) [
        | inl dead ↦
            rw (child, dead)
              (Woken-trans (procs k) (adopted k) _ (adopted-Woken init procs i k)
                (woken-Woken (of_proc init) (adopted k)))
        | inr alive ↦ rw (child, alive) (adopted-Woken init procs i k)
      ]
      | inr other ↦ rw other (Woken-refl (procs k))
    ]

parent-round :
    (cur init : ℕ) (procs : ℕ → Proc) (i k : ℕ)
    → (round cur init procs i k).parent
      ≡ (if i == k && is_child cur (procs i) then some init else (procs k).parent)
unfolding wakeup1
parent-round cur init procs i k = ground arith

round-Deserted :
    (cur init : ℕ) (procs : ℕ → Proc) (i : ℕ)
    → is_child cur (procs i) ≡ true
    → (procs i).state ≡ zombie
    → Deserted (of_proc init) (round cur init procs i)
round-Deserted cur init procs i child dead =
    let z : is_state (procs i).state zombie ≡ true = ground arith in
    rw (child, z)
      (Deserted-wakeup1 (of_proc init) (update procs i (record (procs i) { parent = some init })))

pub record Passed (n cur init : ℕ) (procs : ℕ → Proc) (i : ℕ) (r : ℕ → Proc) : Type 0 where
  pub each : (k : ℕ) → Woken (procs k) (r k)
  pub inside :
      (k : ℕ)
      → i ≤ k
      → k < i + n
      → (r k).parent ≡ (if is_child cur (procs k) then some init else (procs k).parent)
  pub outside : (k : ℕ) → (k < i) ⊎ (i + n ≤ k) → (r k).parent ≡ (procs k).parent
  pub told :
      (k : ℕ)
      → i ≤ k
      → k < i + n
      → is_child cur (procs k) ≡ true
      → (procs k).state ≡ zombie
      → Deserted (of_proc init) r

-- The loop gives each child of `cur` in its range to `init`, changes no other parent, may wake
-- processes and does nothing else, and after it no process sleeps on `init` if a child was a zombie.
pub pass_children-Passed :
    (n cur init : ℕ) (procs : ℕ → Proc) (i : ℕ)
    → Passed n cur init procs i (pass_children n cur init procs i)
unfolding pass_children
pass_children-Passed zero cur init procs i = record {
  each = λ k. Woken-refl (procs k);
  inside = λ k lo hi. absurd (omega arith);
  outside = λ k o. refl;
  told = λ k lo hi. absurd (omega arith);
}
pass_children-Passed (suc n) cur init procs i =
    let now = round cur init procs i in
    let rest = pass_children-Passed n cur init now (i + 1) in
    record {
      each = λ k. Woken-trans (procs k) (now k) _ (round-Woken cur init procs i k) (rest.each k);
      inside = λ k lo hi. elim (ℕ_discrete i k) [
        | yes e ↦
            rest.outside k (omega arith) ∙ parent-round cur init procs i k ∙ rw e (ground arith)
        | no ne ↦
            let same : (now k).parent ≡ (procs k).parent =
              parent-round cur init procs i k ∙ ground arith in
            rest.inside k (omega arith) (omega arith) ∙ ground arith
      ];
      outside =
          λ k o. rest.outside k (omega arith) ∙ parent-round cur init procs i k ∙ ground arith;
      told = λ k lo hi child dead. elim (ℕ_discrete i k) [
        | yes e ↦
            Deserted-Woken (of_proc init) now _ rest.each
              (round-Deserted cur init procs i (rw e child) (rw e dead))
        | no ne ↦
            let same : (now k).parent ≡ (procs k).parent =
              parent-round cur init procs i k ∙ ground arith in
            let how = (round-Woken cur init procs i k).state in
            rest.told k (omega arith) (omega arith) (ground arith) (ground arith)
      ];
    }
