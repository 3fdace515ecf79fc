-- ===== src/Kmem/Range.antt =====
-- kalloc.c: what kinit1 and kinit2 put on the free list.
use cse3320_proj1_ahmed_bahb.Common.{
  ℕ, zero, suc, ◌+◌, ◌-◌, ◌*◌, ◌/◌, ◌%◌, ◌≤◌, ◌<◌, ◌≡◌, refl, ap, List, [], ◌∷◌, arith, leb, ◌⊎◌,
  inl, true, false, All,
}
use cse3320_proj1_ahmed_bahb.Common.Outcome.{ok}
use cse3320_proj1_ahmed_bahb.Kmem.{
  Kmem, free_pages, freerange, kinit1, kinit2, pg_round_up, page_size, kern_base, phys_stop,
}
use cse3320_proj1_ahmed_bahb.Kmem.FreeList.{
  IsPage, FreeList, LinkedHigh, NotIn, kfree-eq, freed, freed-FreeList,
}

-- The `n` pages from `p` on, the highest first, in front of `ps`.
abbrev pub pages_from : ℕ → ℕ → List ℕ → List ℕ
pages_from p zero ps = ps
pages_from p (suc n) ps = (p + n * page_size) ∷ pages_from p n ps

pages_from-suc :
    (p n : ℕ) (ps : List ℕ) → pages_from (p + page_size) n (p ∷ ps) ≡ pages_from p (suc n) ps
pages_from-suc p zero ps = ap (λ (q : ℕ). q ∷ ps) (omega arith)
pages_from-suc p (suc n) ps =
    let e : p + page_size + n * page_size ≡ p + suc n * page_size = omega arith in
    rw (e, pages_from-suc p n ps)

-- No page of the list lies between two addresses.
abbrev pub Outside : ℕ → ℕ → List ℕ → Type 0
Outside lo hi ps = All (λ q. (q < lo) ⊎ (hi ≤ q)) ps

Outside-NotIn : (p hi : ℕ) (ps : List ℕ) → p < hi → Outside p hi ps → NotIn p ps
Outside-NotIn p hi [] h o = tt
Outside-NotIn p hi (q ∷ ps) h o = (let x = o.0 in omega arith, Outside-NotIn p hi ps h o.1)

Outside-later : (p hi : ℕ) (ps : List ℕ) → Outside p hi ps → Outside (p + page_size) hi ps
Outside-later p hi [] o = tt
Outside-later p hi (q ∷ ps) o = (let x = o.0 in omega arith, Outside-later p hi ps o.1)

module _ (kernel_end : ℕ) where
  free_pages-FreeList :
      (fuel n : ℕ) (k : Kmem) (ps : List ℕ) (p vend : ℕ)
      → LinkedHigh kernel_end
      → FreeList kernel_end k ps
      → p % page_size ≡ 0
      → kernel_end ≤ p
      → vend ≤ kern_base + phys_stop
      → Outside p vend ps
      → n ≡ (vend - p) / page_size
      → n ≤ fuel
      → (k' : Kmem) × (free_pages kernel_end fuel k p vend ≡ ok k')
        × FreeList kernel_end k' (pages_from p n ps)
        × (k'.use_lock ≡ k.use_lock)
  unfolding free_pages
  free_pages-FreeList zero zero k ps p vend high f al lo hi o en le = (k, refl, f, refl)
  free_pages-FreeList zero (suc n) k ps p vend high f al lo hi o en le = absurd (omega arith)
  free_pages-FreeList (suc fuel) zero k ps p vend high f al lo hi o en le =
      let e : leb (p + page_size) vend ≡ false = ground arith in (k, rw e refl, f, refl)
  free_pages-FreeList (suc fuel) (suc n) k ps p vend high f al lo hi o en le =
      let e : leb (p + page_size) vend ≡ true = ground arith in
      let page : IsPage kernel_end p = record { aligned = al; above = lo; below = omega arith } in
      let next =
        freed-FreeList kernel_end k ps p f page (Outside-NotIn p vend ps (omega arith) o) in
      let rest =
        free_pages-FreeList fuel n (freed kernel_end k p) (p ∷ ps) (p + page_size) vend high next
          (omega arith) (omega arith) hi (inl (omega arith), Outside-later p vend ps o)
          (omega arith) (omega arith) in
      (
        rest.0,
        rw (e, kfree-eq kernel_end k p high page) rest.1,
        rw (← pages_from-suc p n ps) rest.2,
        rest.3,
      )

  -- The pages of a range: page-aligned from `vstart` rounded up, and whole below `vend`.
  abbrev pub range_pages : ℕ → ℕ → List ℕ → List ℕ
  range_pages vstart vend ps =
      pages_from (pg_round_up vstart) ((vend - pg_round_up vstart) / page_size) ps

  -- What `freerange` and the two initialisers need of the range that they are given.
  pub record IsRange (vstart vend : ℕ) (ps : List ℕ) : Type 0 where
    pub high : LinkedHigh kernel_end
    pub above : kernel_end ≤ vstart
    pub below : vstart ≤ vend
    pub within : vend ≤ kern_base + phys_stop
    pub apart : Outside (pg_round_up vstart) vend ps

  freerange-FreeList :
      (k : Kmem) (ps : List ℕ) (vstart vend : ℕ)
      → FreeList kernel_end k ps
      → IsRange vstart vend ps
      → (k' : Kmem) × (freerange kernel_end k vstart vend ≡ ok k')
        × FreeList kernel_end k' (range_pages vstart vend ps)
        × (k'.use_lock ≡ k.use_lock)
  unfolding freerange
  freerange-FreeList k ps vstart vend f r =
      free_pages-FreeList vend ((vend - pg_round_up vstart) / page_size) k ps (pg_round_up vstart)
        vend r.high f (omega arith) (omega arith) r.within r.apart refl (omega arith)

  -- `kinit1` does not panic, leaves locking off, and frees exactly the whole pages of its range.
  pub kinit1-FreeList :
      (k : Kmem) (ps : List ℕ) (vstart vend : ℕ)
      → FreeList kernel_end k ps
      → IsRange vstart vend ps
      → (k' : Kmem) × (kinit1 kernel_end k vstart vend ≡ ok k')
        × FreeList kernel_end k' (range_pages vstart vend ps)
        × (k'.use_lock ≡ false)
  unfolding kinit1
  kinit1-FreeList k ps vstart vend f r =
      freerange-FreeList (record k { use_lock = false }) ps vstart vend
        (record { chain = f.chain; pages = f.pages; distinct = f.distinct }) r

  -- `kinit2` does not panic, turns locking on, and adds exactly the whole pages of its range.
  pub kinit2-FreeList :
      (k : Kmem) (ps : List ℕ) (vstart vend : ℕ)
      → FreeList kernel_end k ps
      → IsRange vstart vend ps
      → (k' : Kmem) × (kinit2 kernel_end k vstart vend ≡ ok k')
        × FreeList kernel_end k' (range_pages vstart vend ps)
        × (k'.use_lock ≡ true)
  unfolding kinit2
  kinit2-FreeList k ps vstart vend f r =
      let done = freerange-FreeList k ps vstart vend f r in
      let g = done.2 in
      (
        record done.0 { use_lock = true },
        rw (done.1) refl,
        record { chain = g.chain; pages = g.pages; distinct = g.distinct },
        refl,
      )
