-- ===== src/Procs/Exited.antt =====
-- proc.c: exit and the invariant of the table.
use cse3320_proj1_ahmed_bahb.Common.{
  ℕ, ◌<◌, ◌≡◌, ◌≢◌, refl, sym, ◌∙◌, inl, inr, some, true, false, arith, Bool-cases, ℕ_discrete,
}
use cse3320_proj1_ahmed_bahb.Procs.{
  Table, unused, sleeping, running, zombie, of_proc, nproc, is_state, is_child, same_chan,
  parent_chan,
}
use cse3320_proj1_ahmed_bahb.Procs.Steps.{Active, NoZombies, Inv}
use cse3320_proj1_ahmed_bahb.Procs.Exit.{Exited}

-- A process that sleeps on itself after an `exit` has no zombie child.
Exited-NoZombies :
    {t u : Table} (cur : ℕ)
    → cur < nproc
    → (t.procs cur).state ≡ running
    → Exited t u cur
    → Inv t
    → (k : ℕ) → k < nproc
    → (u.procs k).state ≡ sleeping
    → (t.procs k).state ≡ sleeping
    → (u.procs k).chan ≡ (t.procs k).chan
    → (u.procs k).chan ≡ of_proc k
    → NoZombies u k
Exited-NoZombies {t} {u} cur cur_in runs x v k h s was same c m hm child =
    elim (Bool-cases (is_state (u.procs m).state zombie)) [
      | inr fine ↦ fine
      | inl dead ↦ absurd (elim (ℕ_discrete cur m) [
        | yes e ↦
            let p = v.parents cur cur_in (rw runs refl) x.not_init in
            let from = p.1 in
            let apart = p.3 in
            let not_own : is_child cur (t.procs cur) ≡ false = ground arith in
            let at = rw not_own at (x.parent cur cur_in) in
            let is : (u.procs cur).parent ≡ some p.0 = at ∙ from in
            let child' = rw (← e) at child in
            let eq : p.0 ≡ k = ground arith in
            let b = x.bereaved k s in
            let hit : same_chan (u.procs k).chan (parent_chan (t.procs cur)) ≡ true =
              rw (c, from, eq) (ground arith) in
            cc (hit, b)
        | no ne ↦
            let how = (x.others m ne).state in
            let was_dead : (t.procs m).state ≡ zombie = ground arith in
            elim (Bool-cases (is_child cur (t.procs m))) [
              | inl mine ↦
                  let at = rw mine at (x.parent m hm) in
                  let eq : t.initproc ≡ k = ground arith in
                  let b = x.told m hm ne mine was_dead k s in
                  let hit : same_chan (u.procs k).chan (of_proc t.initproc) ≡ true =
                    rw (c, eq) (ground arith) in
                  cc (hit, b)
              | inr other ↦
                  let at = rw other at (x.parent m hm) in
                  let child' : is_child k (t.procs m) ≡ true = rw (← at) child in
                  let n = v.no_zombies k h was (sym same ∙ c) m hm child' in
                  let z : is_state (t.procs m).state zombie ≡ true = rw was_dead refl in cc (z, n)
            ]
      ])
    ]

-- The end of a process keeps the invariant.
pub Exited-Inv :
    {t u : Table} (cur : ℕ)
    → cur < nproc
    → (t.procs cur).state ≡ running
    → Exited t u cur
    → Inv t
    → Inv u
Exited-Inv {t} {u} cur cur_in runs x v =
    let self = x.self in
    let unused_same = λ (k : ℕ).
      let s : is_state (u.procs k).state unused ≡ is_state (t.procs k).state unused =
        elim (ℕ_discrete cur k) [
          | yes e ↦ rw (← e, self.0, runs) refl
          | no ne ↦ let w = (x.others k ne).state in ground arith
        ] in
      s in
    let pid_same = λ (k : ℕ).
      let s : (u.procs k).pid ≡ (t.procs k).pid = elim (ℕ_discrete cur k) [
        | yes e ↦ rw (← e) self.1
        | no ne ↦ (x.others k ne).pid
      ] in
      s in
    let active = λ (k : ℕ) (ne : cur ≢ k) (a : Active (t.procs k)).
      let s : Active (u.procs k) = let w = (x.others k ne).state in ground arith in s in
    let init_active = active t.initproc x.not_init v.init_active in
    let slept = λ (k : ℕ) (s : (u.procs k).state ≡ sleeping).
      let ne : cur ≢ k = λ e. cc (rw (← e) at s, self.0) in ne in
    let was_asleep = λ (k : ℕ) (s : (u.procs k).state ≡ sleeping).
      let w = (x.others k (slept k s)).state in
      let r : (t.procs k).state ≡ sleeping = ground arith in r in
    let chan_same = λ (k : ℕ) (s : (u.procs k).state ≡ sleeping). (x.others k (slept k s)).chan in
    record {
      init_in = rw (x.init) v.init_in;
      init_active = rw (x.init) init_active;
      pids = λ k h l. rw (pid_same k, x.nextpid) (v.pids k h (sym (unused_same k) ∙ l));
      unique = λ k j hk hj lk lj e.
          v.unique k j hk hj (sym (unused_same k) ∙ lk) (sym (unused_same j) ∙ lj)
            (sym (pid_same k) ∙ e ∙ pid_same j);
      parents = λ k h l ne.
          let ne' : k ≢ t.initproc = λ e. ne (e ∙ sym x.init) in
          let p = v.parents k h (sym (unused_same k) ∙ l) ne' in
          elim (Bool-cases (is_child cur (t.procs k))) [
            | inl child ↦ (
              t.initproc,
              x.parent k h ∙ rw child refl,
              v.init_in,
              (λ e. ne' (sym e)),
              init_active,
            )
            | inr other ↦
                let apart : cur ≢ p.0 = λ e. let at = p.1 in ground arith in
                (p.0, x.parent k h ∙ rw other p.1, p.2, p.3, active p.0 apart p.4)
          ];
      orphans = λ k h e.
          let old = v.orphans k h (sym (unused_same k) ∙ e) in
          x.parent k h ∙ (rw (old, is_child) refl);
      own_chan = λ k j h s c. v.own_chan k j h (was_asleep k s) (sym (chan_same k s) ∙ c);
      no_zombies =
          λ k h s c. Exited-NoZombies cur cur_in runs x v k h s (was_asleep k s) (chan_same k s) c;
    }
