-- ===== src/Kmem/Tests.antt =====
-- kalloc.c on small inputs, and the theorems at inputs that meet their hypotheses.
use cse3320_proj1_ahmed_bahb.Common.{ℕ, ◌+◌, ◌≡◌, refl, List, [], ◌∷◌, arith, false, All, length}
use cse3320_proj1_ahmed_bahb.Common.Outcome.{panic}
use cse3320_proj1_ahmed_bahb.Kmem.{Kmem, kfree, kalloc}
use cse3320_proj1_ahmed_bahb.Kmem.FreeList.{IsPage, FreeList, Distinct, freed, freed-FreeList}
use cse3320_proj1_ahmed_bahb.Kmem.Range.{IsRange, range_pages}
use cse3320_proj1_ahmed_bahb.Kmem.Clients.{Steps, none, more, alloc, held_pages_lem}

abbrev kernel_end : ℕ
kernel_end = 0x80200000

abbrev first : ℕ
first = 0x80200000

abbrev second : ℕ
second = 0x80201000

abbrev empty : Kmem
empty = record { use_lock = false; freelist = 0; mem = λ _. 0 }

empty-FreeList : FreeList kernel_end empty []
empty-FreeList = record { chain = refl; pages = tt; distinct = tt }

first-IsPage : IsPage kernel_end first
first-IsPage = omega arith

second-IsPage : IsPage kernel_end second
second-IsPage = omega arith

abbrev one_page : Kmem
one_page = freed kernel_end empty first

one_page-FreeList : FreeList kernel_end one_page (first ∷ [])
one_page-FreeList = freed-FreeList kernel_end empty [] first empty-FreeList first-IsPage tt

-- A range that starts inside a page and ends inside another gives the whole pages between.
kinit1_frees_two : range_pages kernel_end 0x80200800 0x80203fff [] ≡ 0x80202000 ∷ 0x80201000 ∷ []
kinit1_frees_two = refl

kfree_unaligned : kfree kernel_end empty (first + 4) ≡ panic
unfolding kfree
kfree_unaligned = refl

kalloc_returns_page : (kalloc one_page).0 ≡ first
unfolding kalloc
kalloc_returns_page = refl

small-IsRange : IsRange kernel_end 0x80200800 0x80203fff []
small-IsRange = record {
  high = omega arith;
  above = omega arith;
  below = omega arith;
  within = omega arith;
  apart = tt;
}

-- The only page is taken.
taken :
    Steps kernel_end
      (record { kmem = one_page; held = [] })
      (record { kmem = (kalloc one_page).1; held = (kalloc one_page).0 ∷ [] })
unfolding kalloc
taken = more none (alloc (omega arith))

held_pages_lem_example :
    Distinct ((kalloc one_page).0 ∷ [])
    × All (IsPage kernel_end) ((kalloc one_page).0 ∷ [])
    × ((qs : List ℕ) × FreeList kernel_end (kalloc one_page).1 qs × (1 + length qs ≡ 1))
held_pages_lem_example =
    held_pages_lem kernel_end 1 one_page (first ∷ []) (omega arith) one_page-FreeList (omega arith)
      taken
