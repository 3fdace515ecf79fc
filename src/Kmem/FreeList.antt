-- ===== src/Kmem/FreeList.antt =====
-- kalloc.c: the free list as a list of distinct pages, and what kfree and kalloc do to it.
use cse3320_proj1_ahmed_bahb.Common.{
  ℕ, ◌+◌, ◌%◌, ◌≤◌, ◌<◌, ◌≡◌, ◌≢◌, refl, false, List, [], ◌∷◌, arith, ◌==◌, All, Bool-cases, inl,
  inr, ◌↔◌,
}
use cse3320_proj1_ahmed_bahb.Common.Maps.{update}
use cse3320_proj1_ahmed_bahb.Common.Outcome.{ok, panic}
use cse3320_proj1_ahmed_bahb.Kmem.{
  Kmem, kfree, kalloc, refuses, fill_page, page_size, kern_base, phys_stop,
}

abbrev pub NotIn : ℕ → List ℕ → Type 0
NotIn v ps = All (λ p. v ≢ p) ps

abbrev pub Distinct : List ℕ → Type 0
Distinct [] = Unit
Distinct (p ∷ ps) = NotIn p ps × Distinct ps

-- From the head, the first words of the pages lead through `ps` to 0.
abbrev pub Chain : (ℕ → ℕ) → ℕ → List ℕ → Type 0
Chain mem h [] = h ≡ 0
Chain mem h (p ∷ ps) = (h ≡ p) × Chain mem (mem p) ps

-- A write that misses every page of the chain leaves it alone.
pub Chain-agree :
    (mem mem' : ℕ → ℕ) (h : ℕ) (ps : List ℕ)
    → All (λ p. mem' p ≡ mem p) ps
    → Chain mem h ps
    → Chain mem' h ps
Chain-agree mem mem' h [] a c = c
Chain-agree mem mem' h (p ∷ ps) a c = (c.0, Chain-agree mem mem' (mem' p) ps a.1 (rw (a.0) c.1))

module _ (kernel_end : ℕ) where
  -- A page that the allocator may hand out.
  pub record IsPage (p : ℕ) : Type 0 where
    pub aligned : p % page_size ≡ 0
    pub above : kernel_end ≤ p
    pub below : p < kern_base + phys_stop

  -- The kernel is linked above KERNBASE, so that page addresses do not wrap in `v2p`.
  abbrev pub LinkedHigh : Type 0
  LinkedHigh = kern_base < kernel_end

  pub record FreeList (k : Kmem) (ps : List ℕ) : Type 0 where
    pub chain : Chain k.mem k.freelist ps
    pub pages : All IsPage ps
    pub distinct : Distinct ps

  pub refuses-IsPage : (v : ℕ) → LinkedHigh → IsPage v → refuses kernel_end v ≡ false
  refuses-IsPage v high p = ground arith

  page-of-accepted :
      (v : ℕ) → LinkedHigh → v < 0x100000000 → refuses kernel_end v ≡ false → IsPage v
  page-of-accepted v high small e = ground arith

  -- On a 32-bit address `kfree` panics exactly when the address is no page of the allocator's.
  pub kfree-panics_iff :
      (k : Kmem) (v : ℕ)
      → LinkedHigh
      → v < 0x100000000
      → (kfree kernel_end k v ≡ panic) ↔ (¬ (IsPage v))
  unfolding kfree
  kfree-panics_iff k v high small = elim (Bool-cases (refuses kernel_end v)) [
    | inl e ↦ (λ _ p. cc (e, refuses-IsPage v high p), λ _. rw e refl)
    | inr e ↦ (λ h. ground (arith, e), λ n. absurd (n (page-of-accepted v high small e)))
  ]

  -- Filling page `v` and writing its first word changes no other page's first word.
  untouched :
      (mem : ℕ → ℕ) (v w : ℕ) (ps : List ℕ)
      → v % page_size ≡ 0
      → All IsPage ps
      → NotIn v ps
      → All (λ p. update (fill_page mem v) v w p ≡ mem p) ps
  untouched mem v w [] a pg n = tt
  untouched mem v w (p ∷ ps) a pg n =
      (let al = pg.0.aligned in let ne = n.0 in ground arith, untouched mem v w ps a pg.1 n.1)

  -- The allocator after an accepted `kfree`.
  abbrev pub freed : Kmem → ℕ → Kmem
  freed k v = record k { mem = update (fill_page k.mem v) v k.freelist; freelist = v }

  pub kfree-eq : (k : Kmem) (v : ℕ) → LinkedHigh → IsPage v → kfree kernel_end k v ≡ ok (freed k v)
  unfolding kfree
  kfree-eq k v high p = rw (refuses-IsPage v high p)

  pub freed-FreeList :
      (k : Kmem) (ps : List ℕ) (v : ℕ)
      → FreeList k ps
      → IsPage v
      → NotIn v ps
      → FreeList (freed k v) (v ∷ ps)
  freed-FreeList k ps v f p n = record {
    chain = (
      refl,
      Chain-agree k.mem _ _ ps (untouched k.mem v k.freelist ps p.aligned f.pages n) (
          let e : update (fill_page k.mem v) v k.freelist v ≡ k.freelist = ground arith in
          rw e f.chain),
    );
    pages = (p, f.pages);
    distinct = (n, f.distinct);
  }

  -- Freeing a page that is not on the list succeeds and puts it in front, the rest unchanged.
  pub kfree-FreeList :
      (k : Kmem) (ps : List ℕ) (v : ℕ)
      → LinkedHigh
      → FreeList k ps
      → IsPage v
      → NotIn v ps
      → (k' : Kmem) × (kfree kernel_end k v ≡ ok k') × FreeList k' (v ∷ ps)
  kfree-FreeList k ps v high f p n = (freed k v, kfree-eq k v high p, freed-FreeList k ps v f p n)

  -- `kalloc` takes the first page off the list; the page is not on the list that is left.
  pub kalloc-FreeList :
      (k : Kmem) (p : ℕ) (ps : List ℕ)
      → LinkedHigh
      → FreeList k (p ∷ ps)
      → ((kalloc k).0 ≡ p) × FreeList (kalloc k).1 ps × NotIn p ps × IsPage p
  unfolding kalloc
  kalloc-FreeList k p ps high f =
      let e : (k.freelist == 0) ≡ false =
        let at = f.chain.0 in let up = f.pages.0.above in ground arith in
      (
        f.chain.0,
        rw e (record {
          chain = rw (f.chain.0) f.chain.1;
          pages = f.pages.1;
          distinct = f.distinct.1;
        }),
        f.distinct.0,
        f.pages.0,
      )

  -- With no free page `kalloc` returns 0 and changes nothing.
  pub kalloc-empty : (k : Kmem) → FreeList k [] → kalloc k ≡ (0, k)
  unfolding kalloc
  kalloc-empty k f = let e = f.chain in ground arith

  -- A store anywhere in a page that is not free leaves the free list intact.
  pub store-FreeList :
      (k : Kmem) (ps : List ℕ) (a v : ℕ) (w : ℕ)
      → FreeList k ps
      → v % page_size ≡ 0
      → NotIn v ps
      → v ≤ a
      → a < v + page_size
      → FreeList (record k { mem = update k.mem a w }) ps
  store-FreeList k ps a v w f al n lo hi = record {
    chain = Chain-agree k.mem (update k.mem a w) k.freelist ps (missed ps f.pages n) f.chain;
    pages = f.pages;
    distinct = f.distinct;
  }
    where
      missed :
          (qs : List ℕ) → All IsPage qs → NotIn v qs → All (λ p. update k.mem a w p ≡ k.mem p) qs
      missed [] pg m = tt
      missed (q ∷ qs) pg m =
          (let e = pg.0.aligned in let ne = m.0 in ground arith, missed qs pg.1 m.1)
