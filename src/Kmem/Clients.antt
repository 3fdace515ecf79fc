-- ===== src/Kmem/Clients.antt =====
-- kalloc.c as its clients see it: any interleaving of kalloc, kfree and stores into pages held.
use cse3320_proj1_ahmed_bahb.Common.{
  ℕ, ◌+◌, ◌≤◌, ◌<◌, ◌≡◌, ◌≢◌, sym, ap, List, [], ◌∷◌, ◌++◌, arith, All, append_assoc, true, length,
  length-append, ◌==◌,
}
use cse3320_proj1_ahmed_bahb.Common.Maps.{update}
use cse3320_proj1_ahmed_bahb.Common.Outcome.{ok}
use cse3320_proj1_ahmed_bahb.Kmem.{Kmem, kfree, kalloc, page_size}
use cse3320_proj1_ahmed_bahb.Kmem.FreeList.{
  NotIn, Distinct, IsPage, LinkedHigh, FreeList, kfree-eq, freed, freed-FreeList, kalloc-FreeList,
  kalloc-empty, store-FreeList,
}

-- The allocator, and the pages that it has handed out and not taken back.
pub record Heap : Type 0 where
  pub kmem : Kmem
  pub held : List ℕ

pub data Step (kernel_end : ℕ) (h : Heap) : Heap → Type 0 where
  alloc :
      (kalloc h.kmem).0 ≢ 0
      → Step kernel_end h (record { kmem = (kalloc h.kmem).1; held = (kalloc h.kmem).0 ∷ h.held })
  exhausted :
      (kalloc h.kmem).0 ≡ 0 → Step kernel_end h (record { kmem = (kalloc h.kmem).1; held = h.held })
  give_back :
      (xs ys : List ℕ) (v : ℕ) (k : Kmem)
      → h.held ≡ xs ++ v ∷ ys
      → kfree kernel_end h.kmem v ≡ ok k
      → Step kernel_end h (record { kmem = k; held = xs ++ ys })
  store :
      (xs ys : List ℕ) (v a w : ℕ)
      → h.held ≡ xs ++ v ∷ ys
      → v ≤ a
      → a < v + page_size
      → Step kernel_end h
          (record { kmem = record h.kmem { mem = update h.kmem.mem a w }; held = h.held })

pub data Steps (kernel_end : ℕ) (h : Heap) : Heap → Type 0 where
  none : Steps kernel_end h h
  more : {g g' : Heap} → Steps kernel_end h g → Step kernel_end g g' → Steps kernel_end h g'

NotIn-append : (v : ℕ) (xs ys : List ℕ) → NotIn v xs → NotIn v ys → NotIn v (xs ++ ys)
NotIn-append v [] ys a b = b
NotIn-append v (x ∷ xs) ys a b = (a.0, NotIn-append v xs ys a.1 b)

NotIn-left : (v : ℕ) (xs ys : List ℕ) → NotIn v (xs ++ ys) → NotIn v xs
NotIn-left v [] ys n = tt
NotIn-left v (x ∷ xs) ys n = (n.0, NotIn-left v xs ys n.1)

NotIn-right : (v : ℕ) (xs ys : List ℕ) → NotIn v (xs ++ ys) → NotIn v ys
NotIn-right v [] ys n = n
NotIn-right v (x ∷ xs) ys n = NotIn-right v xs ys n.1

-- An element may be moved to the front of a list of distinct pages, and back.
to_front : (v : ℕ) (xs ys : List ℕ) → Distinct (xs ++ v ∷ ys) → Distinct (v ∷ xs ++ ys)
to_front v [] ys d = d
to_front v (x ∷ xs) ys d =
    let r = to_front v xs ys d.1 in
    let nv = NotIn-right x xs (v ∷ ys) d.0 in
    (((λ e. nv.0 (sym e)), r.0), (NotIn-append x xs ys (NotIn-left x xs (v ∷ ys) d.0) nv.1, r.1))

from_front : (v : ℕ) (xs ys : List ℕ) → Distinct (v ∷ xs ++ ys) → Distinct (xs ++ v ∷ ys)
from_front v [] ys d = d
from_front v (x ∷ xs) ys d = (
  NotIn-append x xs (v ∷ ys) (NotIn-left x xs ys d.1.0)
      ((λ e. d.0.0 (sym e)), NotIn-right x xs ys d.1.0),
  from_front v xs ys (d.0.1, d.1.1),
)

Distinct-left : (xs ys : List ℕ) → Distinct (xs ++ ys) → Distinct xs
Distinct-left [] ys d = tt
Distinct-left (x ∷ xs) ys d = (NotIn-left x xs ys d.0, Distinct-left xs ys d.1)

module _ (kernel_end : ℕ) where
  All-parts :
      (v : ℕ) (xs ys : List ℕ)
      → All (IsPage kernel_end) (xs ++ v ∷ ys)
      → IsPage kernel_end v × All (IsPage kernel_end) (xs ++ ys)
  All-parts v [] ys a = a
  All-parts v (x ∷ xs) ys a = let r = All-parts v xs ys a.1 in (r.0, (a.0, r.1))

  -- `total` pages in all, each of them either free or held, and in one place only.
  pub record Accounts (total : ℕ) (h : Heap) : Type 0 where
    pub free : List ℕ
    pub list : FreeList kernel_end h.kmem free
    pub pages : All (IsPage kernel_end) h.held
    pub distinct : Distinct (h.held ++ free)
    pub count : length h.held + length free ≡ total

  -- A page that is held is in order, and is in no other place.
  record Owned (h : Heap) (v : ℕ) (xs ys free : List ℕ) : Type 0 where
    page : IsPage kernel_end v
    others : All (IsPage kernel_end) (xs ++ ys)
    distinct : Distinct (v ∷ (xs ++ ys) ++ free)
    not_free : NotIn v free

  owned :
      (h : Heap) (xs ys free : List ℕ) (v : ℕ)
      → h.held ≡ xs ++ v ∷ ys
      → All (IsPage kernel_end) h.held
      → Distinct (h.held ++ free)
      → Owned h v xs ys free
  owned h xs ys free v e pages distinct =
      let pg = All-parts v xs ys (rw e at pages) in
      let split : Distinct (xs ++ v ∷ (ys ++ free)) =
        rw (← append_assoc xs (v ∷ ys) free) (rw e at distinct) in
      let front : Distinct (v ∷ (xs ++ ys) ++ free) =
        rw (append_assoc xs ys free) (to_front v xs (ys ++ free) split) in
      record {
        page = pg.0;
        others = pg.1;
        distinct = front;
        not_free = NotIn-right v (xs ++ ys) free front.0;
      }

  alloc-Accounts :
      (total : ℕ) (h : Heap) (free : List ℕ)
      → LinkedHigh kernel_end
      → (kalloc h.kmem).0 ≢ 0
      → FreeList kernel_end h.kmem free
      → All (IsPage kernel_end) h.held
      → Distinct (h.held ++ free)
      → length h.held + length free ≡ total
      → Accounts total (record { kmem = (kalloc h.kmem).1; held = (kalloc h.kmem).0 ∷ h.held })
  alloc-Accounts total h [] high ne l pg d n =
      absurd (ne (ap (λ (r : ℕ × Kmem). r.0) (kalloc-empty kernel_end h.kmem l)))
  alloc-Accounts total h (p ∷ ps) high ne l pg d n =
      let got = kalloc-FreeList kernel_end h.kmem p ps high l in
      record {
        free = ps;
        list = got.1;
        pages = (rw (got.0) got.3, pg);
        distinct = rw (got.0) (to_front p h.held ps d);
        count = omega arith;
      }

  exhausted-Accounts :
      (total : ℕ) (h : Heap)
      → (kalloc h.kmem).0 ≡ 0
      → Accounts total h
      → Accounts total (record { kmem = (kalloc h.kmem).1; held = h.held })
  unfolding kalloc
  exhausted-Accounts total h e a =
      let z : (h.kmem.freelist == 0) ≡ true = ground arith in
      rw z (record {
        free = a.free;
        list = a.list;
        pages = a.pages;
        distinct = a.distinct;
        count = a.count;
      })

  -- Every step keeps the accounts.
  pub Step-Accounts :
      (total : ℕ) {h g : Heap}
      → LinkedHigh kernel_end
      → Step kernel_end h g
      → Accounts total h
      → Accounts total g
  Step-Accounts total {h} high (alloc ne) a =
      alloc-Accounts total h a.free high ne a.list a.pages a.distinct a.count
  Step-Accounts total {h} high (exhausted e) a = exhausted-Accounts total h e a
  Step-Accounts total {h} high (give_back xs ys v k e call) a =
      let own = owned h xs ys a.free v e a.pages a.distinct in
      let is : k ≡ freed kernel_end h.kmem v =
        cc (call, kfree-eq kernel_end h.kmem v high own.page) in
      let size = ap (λ (l : List ℕ). length l) e in
      record {
        free = v ∷ a.free;
        list = rw is (freed-FreeList kernel_end h.kmem a.free v a.list own.page own.not_free);
        pages = own.others;
        distinct = from_front v (xs ++ ys) a.free own.distinct;
        count = omega (arith, a.count, size, length-append xs ys, length-append xs (v ∷ ys));
      }
  Step-Accounts total {h} high (store xs ys v x w e lo hi) a =
      let own = owned h xs ys a.free v e a.pages a.distinct in
      record {
        free = a.free;
        list =
            store-FreeList kernel_end h.kmem a.free x v w a.list own.page.aligned own.not_free lo
              hi;
        pages = a.pages;
        distinct = a.distinct;
        count = a.count;
      }

  pub Steps-Accounts :
      (total : ℕ) {h g : Heap}
      → LinkedHigh kernel_end
      → Accounts total h
      → Steps kernel_end h g
      → Accounts total g
  Steps-Accounts total high a none = a
  Steps-Accounts total high a (more r s) =
      Step-Accounts total high s (Steps-Accounts total high a r)

  -- From an allocator with `total` free pages and none held, in any order of calls of
  -- clients that give back only pages they hold, each once, and store only in such pages: the pages held
  -- are distinct pages of the allocator, so no page has two owners, and together with the pages that
  -- are still free they are `total` in number, so none is lost.
  pub held_pages_lem :
      (total : ℕ) (k : Kmem) {g : Heap} (ps : List ℕ)
      → LinkedHigh kernel_end
      → FreeList kernel_end k ps
      → length ps ≡ total
      → Steps kernel_end (record { kmem = k; held = [] }) g
      → Distinct g.held
        × All (IsPage kernel_end) g.held
        × ((qs : List ℕ) × FreeList kernel_end g.kmem qs × (length g.held + length qs ≡ total))
  held_pages_lem total k ps high f n r =
      let a =
        Steps-Accounts total high
          (record { free = ps; list = f; pages = tt; distinct = f.distinct; count = omega arith })
          r in
      (Distinct-left _ a.free a.distinct, a.pages, (a.free, a.list, a.count))
