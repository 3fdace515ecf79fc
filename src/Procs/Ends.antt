-- ===== src/Procs/Ends.antt =====
-- proc.c: the wait that reaps a child.
use cse3320_proj1_ahmed_bahb.Common.{ℕ, ◌≡◌, ◌≢◌, refl, some, true, false, ◌&&◌, arith, ℕ_discrete}
use cse3320_proj1_ahmed_bahb.Procs.{
  Table, sleeping, zombie, nproc, is_state, is_child, first, set_proc, cleared, wait,
}
use cse3320_proj1_ahmed_bahb.Procs.Scan.{first-eq-some}
use cse3320_proj1_ahmed_bahb.Procs.Steps.{Live, Inv}

wait-reaps :
    (t : Table) (cur i : ℕ)
    → first nproc (λ p. is_child cur p && is_state p.state zombie) t.procs 0 ≡ some i
    → (wait t cur).0 ≡ set_proc t i (cleared (t.procs i))
unfolding wait
wait-reaps t cur i e = rw (e, wait) refl

-- Reaping a zombie keeps the invariant.
pub reap-Inv :
    (t : Table) (cur i : ℕ)
    → first nproc (λ p. is_child cur p && is_state p.state zombie) t.procs 0 ≡ some i
    → Inv t
    → Inv (wait t cur).0
reap-Inv t cur i found v =
    let at = first-eq-some nproc _ t.procs 0 i found in
    let dead : is_state (t.procs i).state zombie ≡ true = let a = at.2 in ground arith in
    let u = set_proc t i (cleared (t.procs i)) in
    let same = λ (k : ℕ) (ne : i ≢ k). let e : u.procs k ≡ t.procs k = ground arith in e in
    let here : u.procs i ≡ cleared (t.procs i) = ground arith in
    let other = λ (k : ℕ) (a : is_state (t.procs k).state zombie ≡ false).
      let ne : i ≢ k = λ e. cc (rw e at dead, a) in ne in
    let live =
      λ (k : ℕ) (l : Live (u.procs k)). let ne : i ≢ k = λ e. cc (here, rw (← e) at l) in ne in
    let awake = λ (k : ℕ) (s : (u.procs k).state ≡ sleeping).
      let ne : i ≢ k = λ e. let s' = rw (← e) at s in ground arith in ne in
    rw (wait-reaps t cur i found) (record {
      init_in = v.init_in;
      init_active = rw (same t.initproc (other t.initproc v.init_active.1)) v.init_active;
      pids = λ k h l. let e = same k (live k l) in rw e (v.pids k h (rw e at l));
      unique = λ k j hk hj lk lj e.
          let ek = same k (live k lk) in
          let ej = same j (live j lj) in
          v.unique k j hk hj (rw ek at lk) (rw ej at lj) (rw (ek, ej) at e);
      parents = λ k h l ne.
          let e = same k (live k l) in
          let p = v.parents k h (rw e at l) ne in
          (p.0, rw e p.1, p.2, p.3, rw (same p.0 (other p.0 p.4.1)) p.4);
      orphans = λ k h e. elim (ℕ_discrete i k) [
        | yes is ↦ rw (← is) (ground arith)
        | no ne ↦ rw (same k ne) (v.orphans k h (rw (same k ne) at e))
      ];
      own_chan =
          λ k j h s c. let e = same k (awake k s) in v.own_chan k j h (rw e at s) (rw e at c);
      no_zombies = λ k h s c m hm child.
          let e = same k (awake k s) in
          elim (ℕ_discrete i m) [
            | yes is ↦ rw (← is) (ground arith)
            | no ne ↦
                rw (same m ne)
                  (v.no_zombies k h (rw e at s) (rw e at c) m hm (rw (same m ne) at child))
          ];
    })
