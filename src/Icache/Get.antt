-- ===== src/Icache/Get.antt =====
-- fs.c: iget and idup against the count of references.
use cse3320_proj1_ahmed_bahb.Common.{
  ℕ, ◌+◌, ◌≤◌, ◌<◌, ◌≡◌, ◌≢◌, refl, sym, ◌∙◌, ◌⊎◌, inl, inr, false, ◌&&◌, Option, none, some, ◌==◌,
  if◌then◌else◌, arith, ℕ_discrete,
}
use cse3320_proj1_ahmed_bahb.Common.Maps.{update_self, update_ne}
use cse3320_proj1_ahmed_bahb.Common.Outcome.{ok, panic}
use cse3320_proj1_ahmed_bahb.Icache.{
  Fs, ninode, set_inode, is_inode, iget_scan, iget_end, recycled, referenced, iget, idup,
}
use cse3320_proj1_ahmed_bahb.Icache.Count.{
  refs, refs-update, share-le-refs, Scanned, iget_scan-Scanned,
}

-- At most one entry that is in use stands for an inode.
abbrev pub IsCache : Fs → Type 0
IsCache s =
    (i j : ℕ)
    → i < ninode
    → j < ninode
    → 0 < (s.inodes i).ref
    → 0 < (s.inodes j).ref
    → (s.inodes i).dev ≡ (s.inodes j).dev
    → (s.inodes i).inum ≡ (s.inodes j).inum
    → i ≡ j

-- `e` has one reference more to the inode `inum` of `dev`, at entry `i`, and no other change of the
-- counts; the entries in use stand for the same inodes, with the same fields, and the entries but `i` are as
-- they were.
pub record Gained (s : Fs) (dev inum i : ℕ) (e : Fs) : Type 0 where
  pub inside : i < ninode
  pub here : ((e.inodes i).dev ≡ dev) × ((e.inodes i).inum ≡ inum) × (0 < (e.inodes i).ref)
  pub counts :
      (d k : ℕ)
      → refs ninode e.inodes d k
        ≡ refs ninode s.inodes d k + (if dev == d && inum == k then 1 else 0)
  pub same :
      (j : ℕ)
      → 0 < (s.inodes j).ref
      → ((e.inodes j).dev ≡ (s.inodes j).dev)
        × ((e.inodes j).inum ≡ (s.inodes j).inum)
        × ((e.inodes j).valid ≡ (s.inodes j).valid)
        × ((e.inodes j).busy ≡ (s.inodes j).busy)
        × ((e.inodes j).fields ≡ (s.inodes j).fields)
  pub others : (j : ℕ) → i ≢ j → e.inodes j ≡ s.inodes j
  pub fresh :
      refs ninode s.inodes dev inum ≡ 0 → ((e.inodes i).valid ≡ false) × ((e.inodes i).busy ≡ false)
  pub disk : e.disk ≡ s.disk
  pub keeps : IsCache e

module _ (s : Fs) (i : ℕ) (v : IsCache s) (lt : i < ninode) where
  module _ (in_use : 0 < (s.inodes i).ref) where
    referenced-Gained :
        Gained s (s.inodes i).dev (s.inodes i).inum i (set_inode s i (referenced (s.inodes i)))
    referenced-Gained =
        let e = set_inode s i (referenced (s.inodes i)) in
        let at = update_self s.inodes i (referenced (s.inodes i)) in
        let off = λ (j : ℕ) (ne : i ≢ j). update_ne s.inodes i j (referenced (s.inodes i)) ne in
        let was = λ (j : ℕ).
          let r : ((e.inodes j).dev ≡ (s.inodes j).dev)
              × ((e.inodes j).inum ≡ (s.inodes j).inum)
              × ((e.inodes j).valid ≡ (s.inodes j).valid)
              × ((e.inodes j).busy ≡ (s.inodes j).busy)
              × ((e.inodes j).fields ≡ (s.inodes j).fields)
              × (0 < (e.inodes j).ref → 0 < (s.inodes j).ref) =
            ground arith in
          r in
        record {
          inside = lt;
          here = rw at (refl, refl, omega arith);
          counts = λ d k.
              let r = refs-update ninode s.inodes i (referenced (s.inodes i)) d k lt in
              ground arith;
          same = λ j h. let w = was j in (w.0, w.1, w.2, w.3, w.4);
          others = off;
          fresh = λ z.
              let r = share-le-refs ninode s.inodes i (s.inodes i).dev (s.inodes i).inum lt in
              absurd (ground arith);
          disk = refl;
          keeps = λ j k hj hk uj uk ed ei.
              let wj = was j in
              let wk = was k in
              v j k hj hk (wj.5 uj) (wk.5 uk) (sym wj.0 ∙ ed ∙ wk.0) (sym wj.1 ∙ ei ∙ wk.1);
        }

  module _ (dev inum : ℕ) (empty : (s.inodes i).ref ≡ 0)
      (absent : (j : ℕ) → 0 ≤ j → j < 0 + ninode → is_inode dev inum (s.inodes j) ≡ false) where
    recycled-Gained : Gained s dev inum i (set_inode s i (recycled (s.inodes i) dev inum))
    recycled-Gained =
        let new = recycled (s.inodes i) dev inum in
        let e = set_inode s i new in
        let at = update_self s.inodes i new in
        let was = λ (j : ℕ) (ne : i ≢ j). update_ne s.inodes i j new ne in
        let unlike =
          λ (j : ℕ) (h : j < ninode) (u : 0 < (s.inodes j).ref) (ed : (s.inodes j).dev ≡ dev)
              (ei : (s.inodes j).inum ≡ inum).
            let r : ⊥ = let a = absent j (omega arith) (omega arith) in ground arith in r in
        record {
          inside = lt;
          here = rw at (refl, refl, omega arith);
          counts = λ d k. let r = refs-update ninode s.inodes i new d k lt in ground arith;
          same = λ j h.
              let ne : i ≢ j = λ eq. let h' = rw (← eq) at h in omega arith in
              rw (was j ne) (refl, refl, refl, refl, refl);
          others = was;
          fresh = λ z. rw at (refl, refl);
          disk = refl;
          keeps = λ j k hj hk uj uk ed ei. elim (ℕ_discrete i j) [
            | yes ej ↦ elim (ℕ_discrete i k) [
              | yes ek ↦ sym ej ∙ ek
              | no nk ↦
                  let ed' = rw (← ej, at, was k nk) at ed in
                  let ei' = rw (← ej, at, was k nk) at ei in
                  absurd (unlike k hk (rw (was k nk) at uk) (sym ed') (sym ei'))
            ]
            | no nj ↦ elim (ℕ_discrete i k) [
              | yes ek ↦
                  let ed' = rw (← ek, at, was j nj) at ed in
                  let ei' = rw (← ek, at, was j nj) at ei in
                  absurd (unlike j hj (rw (was j nj) at uj) ed' ei')
              | no nk ↦
                  v j k hj hk (rw (was j nj) at uj) (rw (was k nk) at uk)
                    (rw (was j nj, was k nk) at ed) (rw (was j nj, was k nk) at ei)
            ]
          ];
        }

iget_end-Gained :
    (s : Fs) (dev inum : ℕ)
    → IsCache s
    → (r : Option ℕ × Option ℕ) → Scanned s.inodes dev inum 0 ninode none r
    → ((i : ℕ) × (e : Fs) × (iget_end s dev inum r ≡ ok (i, e)) × Gained s dev inum i e)
      ⊎ ((iget_end s dev inum r ≡ panic) × ((j : ℕ) → j < ninode → (s.inodes j).ref ≢ 0))
iget_end-Gained s dev inum v (some i, _) (lo, hi, found) =
    let is : (0 < (s.inodes i).ref) × ((s.inodes i).dev ≡ dev) × ((s.inodes i).inum ≡ inum) =
      ground arith in
    inl (
      i,
      set_inode s i (referenced (s.inodes i)),
      refl,
      rw (← is.1, ← is.2) (referenced-Gained s i v (omega arith) is.0),
    )
iget_end-Gained s dev inum v (none, some i) (where_, absent) =
    let free : (i < ninode) × ((s.inodes i).ref ≡ 0) = ground arith in
    inl (
      i,
      set_inode s i (recycled (s.inodes i) dev inum),
      refl,
      recycled-Gained s i v free.0 dev inum free.1 absent,
    )
iget_end-Gained s dev inum v (none, none) (e, all) =
    inr (refl, λ j h. (all j (omega arith) (omega arith)).1)

-- In a cache in which no two entries in use stand for the same inode, `iget` returns an entry for the inode
-- asked for and adds one to the count of its references; all other entries, and everything but the count in an
-- entry in use, stay as they were, and the cache stays in order; an inode that had no reference is to be
-- read from the disk again. It panics only if all entries are in use.
pub iget-Gained :
    (s : Fs) (dev inum : ℕ)
    → IsCache s
    → ((i : ℕ) × (e : Fs) × (iget s dev inum ≡ ok (i, e)) × Gained s dev inum i e)
      ⊎ ((iget s dev inum ≡ panic) × ((j : ℕ) → j < ninode → (s.inodes j).ref ≢ 0))
unfolding iget
iget-Gained s dev inum v =
    iget_end-Gained s dev inum v (iget_scan ninode s.inodes 0 dev inum none)
      (iget_scan-Scanned ninode s.inodes 0 dev inum none)

-- `idup` of an entry in use adds one to the count of the references of its inode.
pub idup-Gained :
    (s : Fs) (i : ℕ)
    → IsCache s
    → i < ninode
    → 0 < (s.inodes i).ref
    → Gained s (s.inodes i).dev (s.inodes i).inum i (idup s i)
unfolding idup
idup-Gained s i v lt in_use = referenced-Gained s i v lt in_use
