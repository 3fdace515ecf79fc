-- ===== src/Procs/Family.antt =====
-- proc.c: allocproc and fork, the step that starts a process.
use cse3320_proj1_ahmed_bahb.Common.{
  ℕ, ◌+◌, ◌%◌, ◌^◌, ◌<◌, ◌≡◌, ◌≢◌, refl, sym, ◌∙◌, ◌⊎◌, inl, inr, Option-cases, some, none, true,
  false, ◌==◌, arith, Bool-cases, ℕ_discrete,
}
use cse3320_proj1_ahmed_bahb.Common.Maps.{update}
use cse3320_proj1_ahmed_bahb.Procs.{
  Table, State, unused, embryo, runnable, running, zombie, nproc, is_state, first, allocproc, fork,
}
use cse3320_proj1_ahmed_bahb.Procs.Scan.{first-eq-some}
use cse3320_proj1_ahmed_bahb.Procs.Steps.{Active, max_pid, Inv}

-- What `fork` does when it finds an unused entry: the entry stays unused, or becomes the child.
pub record Forked (t u : Table) (cur : ℕ) : Type 0 where
  pub slot : ℕ
  pub slot_in : slot < nproc
  pub was_unused : is_state (t.procs slot).state unused ≡ true
  pub init : u.initproc ≡ t.initproc
  pub nextpid : u.nextpid ≡ t.nextpid + 1
  pub others : (k : ℕ) → slot ≢ k → u.procs k ≡ t.procs k
  pub entry :
      ((is_state (u.procs slot).state unused ≡ true)
        × ((u.procs slot).parent ≡ (t.procs slot).parent))
      ⊎ (((u.procs slot).state ≡ runnable)
          × ((u.procs slot).parent ≡ some cur)
          × ((u.procs slot).pid ≡ t.nextpid))

-- The table in which `allocproc` has set up entry `i`.
abbrev pub allocated : Table → ℕ → ℕ → State → Table
allocated t i stack s = record t {
  procs = update t.procs i (record (t.procs i) { kstack = stack; state = s; pid = t.nextpid });
  nextpid = (t.nextpid + 1) % 2 ^ 32;
}

module _ (t : Table) (stack : ℕ) where
  allocproc-full :
      first nproc (λ p. is_state p.state unused) t.procs 0 ≡ none → allocproc t stack ≡ (t, none)
  unfolding allocproc
  allocproc-full e = rw (e, allocproc) refl

  allocproc-no_stack :
      (i : ℕ)
      → first nproc (λ p. is_state p.state unused) t.procs 0 ≡ some i
      → (stack == 0) ≡ true
      → allocproc t stack ≡ (allocated t i 0 unused, none)
  unfolding allocproc
  allocproc-no_stack i e z = rw (e, allocproc, z) refl

  pub allocproc-some :
      (i : ℕ)
      → first nproc (λ p. is_state p.state unused) t.procs 0 ≡ some i
      → (stack == 0) ≡ false
      → allocproc t stack ≡ (allocated t i stack embryo, some i)
  unfolding allocproc
  allocproc-some i e z = rw (e, allocproc, z) refl

pub fork-Forked :
    (t : Table) (cur stack pgdir : ℕ)
    → t.nextpid < max_pid
    → ((fork t cur stack pgdir).0 ≡ t) ⊎ Forked t (fork t cur stack pgdir).0 cur
unfolding fork
fork-Forked t cur stack pgdir small =
    elim (Option-cases (first nproc (λ p. is_state p.state unused) t.procs 0)) [
      | inl all_used ↦ inl (rw (allocproc-full t stack all_used, fork) refl)
      | inr (i, found) ↦
          let at = first-eq-some nproc _ t.procs 0 i found in
          inr (elim (Bool-cases (stack == 0)) [
            | inl no_stack ↦
                rw (allocproc-no_stack t stack i found no_stack, fork)
                  (record {
                    slot = i;
                    slot_in = omega arith;
                    was_unused = at.2;
                    init = refl;
                    nextpid = omega arith;
                    others = λ k ne. ground arith;
                    entry = inl (ground arith, ground arith);
                  })
            | inr stack_there ↦ elim (Bool-cases (pgdir == 0)) [
              | inl no_memory ↦
                  rw (allocproc-some t stack i found stack_there, fork, no_memory)
                    (record {
                      slot = i;
                      slot_in = omega arith;
                      was_unused = at.2;
                      init = refl;
                      nextpid = omega arith;
                      others = λ k ne. ground arith;
                      entry = inl (ground arith, ground arith);
                    })
              | inr memory ↦
                  rw (allocproc-some t stack i found stack_there, fork, memory)
                    (record {
                      slot = i;
                      slot_in = omega arith;
                      was_unused = at.2;
                      init = refl;
                      nextpid = omega arith;
                      others = λ k ne. ground arith;
                      entry = inr (ground arith, ground arith, ground arith);
                    })
            ]
          ])
    ]

pub Forked-Inv :
    {t u : Table} (cur : ℕ)
    → cur < nproc
    → (t.procs cur).state ≡ running
    → Forked t u cur
    → Inv t
    → Inv u
Forked-Inv {t} {u} cur cur_in runs f i =
    let slot = f.slot in
    let empty = f.was_unused in
    let entry = f.entry in
    let init_other : slot ≢ t.initproc =
      λ e. let was = i.init_active.0 in cc (rw e at empty, was) in
    let keep = λ (k : ℕ) (p : Active (t.procs k)).
      let ne : slot ≢ k = λ e. cc (rw e at empty, p.0) in f.others k ne in
    record {
      init_in = rw (f.init) i.init_in;
      init_active = rw (f.init, f.others t.initproc init_other) i.init_active;
      pids = λ k h l. elim (ℕ_discrete slot k) [
        | yes e ↦ let l' = rw (← e) at l in rw (← e, f.nextpid) (ground arith)
        | no ne ↦
            rw (f.others k ne, f.nextpid) (omega (arith, i.pids k h (rw (f.others k ne) at l)))
      ];
      unique = λ k j hk hj lk lj e. elim (ℕ_discrete slot k) [
        | yes ek ↦ elim (ℕ_discrete slot j) [
          | yes ej ↦ sym ek ∙ ej
          | no nj ↦
              let lk' = rw (← ek) at lk in
              let e' = rw (← ek, f.others j nj) at e in
              absurd (let old = i.pids j hj (rw (f.others j nj) at lj) in ground arith)
        ]
        | no nk ↦ elim (ℕ_discrete slot j) [
          | yes ej ↦
              let lj' = rw (← ej) at lj in
              let e' = rw (← ej, f.others k nk) at e in
              absurd (let old = i.pids k hk (rw (f.others k nk) at lk) in ground arith)
          | no nj ↦
              i.unique k j hk hj (rw (f.others k nk) at lk) (rw (f.others j nj) at lj)
                (rw (f.others k nk, f.others j nj) at e)
        ]
      ];
      parents = λ k h l ne. elim (ℕ_discrete slot k) [
        | yes ek ↦
            let l' = rw (← ek) at l in
            let here : (u.procs slot).parent ≡ some cur = ground arith in
            let apart : cur ≢ k = λ e. cc (rw (ek, ← e, runs) at empty) in
            let active : Active (t.procs cur) = rw runs (refl, refl) in
            (cur, rw (← ek) here, cur_in, apart, rw (keep cur active) active)
        | no nk ↦
            let p = i.parents k h (rw (f.others k nk) at l) (λ e. ne (e ∙ sym f.init)) in
            (p.0, rw (f.others k nk) p.1, p.2, p.3, rw (keep p.0 p.4) p.4)
      ];
      orphans = λ k h e. elim (ℕ_discrete slot k) [
        | yes ek ↦
            let e' = rw (← ek) at e in
            let old = i.orphans slot f.slot_in empty in
            let now : (u.procs slot).parent ≡ none = ground arith in rw (← ek) now
        | no nk ↦ rw (f.others k nk) (i.orphans k h (rw (f.others k nk) at e))
      ];
      own_chan = λ k j h s c. elim (ℕ_discrete slot k) [
        | yes ek ↦ absurd (let s' = rw (← ek) at s in ground arith)
        | no nk ↦ i.own_chan k j h (rw (f.others k nk) at s) (rw (f.others k nk) at c)
      ];
      no_zombies = λ k h s c m hm child. elim (ℕ_discrete slot k) [
        | yes ek ↦ absurd (let s' = rw (← ek) at s in ground arith)
        | no nk ↦ elim (ℕ_discrete slot m) [
          | yes em ↦
              let old = i.orphans slot f.slot_in empty in
              let child' = rw (← em) at child in
              let quiet : is_state (u.procs slot).state zombie ≡ false = ground arith in
              rw (← em) quiet
          | no nm ↦ rw (f.others m nm) (
              i.no_zombies k h (rw (f.others k nk) at s) (rw (f.others k nk) at c) m hm
                (rw (f.others m nm) at child))
        ]
      ];
    }
