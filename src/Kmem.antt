-- ===== src/Kmem.antt =====
-- kalloc.c: the allocator of 4096-byte pages of physical memory.
-- The free list is threaded through the pages: the first word of a free page is the address of
-- the next one, and 0 ends the list. `mem a` is the 32-bit word at the (aligned) address `a`.
-- `kmem.lock` makes each call one step; `use_lock` is kept, since the two initialisers set it.
pub mod FreeList
pub mod Range
pub mod Clients
mod Tests
use cse3320_proj1_ahmed_bahb.Common.{
  ℕ, zero, suc, ◌+◌, ◌-◌, ◌*◌, ◌/◌, ◌%◌, ◌^◌, Bool, true, false, not, ◌||◌, ltb, leb, ◌==◌,
  if◌then◌else◌,
}
use cse3320_proj1_ahmed_bahb.Common.Maps.{update}
use cse3320_proj1_ahmed_bahb.Common.Outcome.{Outcome, ok, panic, ◌>>=◌}

abbrev pub page_size : ℕ
page_size = 4096

abbrev pub kern_base : ℕ
kern_base = 0x80000000

abbrev pub phys_stop : ℕ
phys_stop = 0xE000000

-- `(uint) a - KERNBASE` wraps.
abbrev pub v2p : ℕ → ℕ
v2p a = (a + 2 ^ 32 - kern_base) % 2 ^ 32

-- `((sz) + PGSIZE - 1) & ~(PGSIZE - 1)` on a uint.
abbrev pub pg_round_up : ℕ → ℕ
pg_round_up sz = (sz + page_size - 1) % 2 ^ 32 / page_size * page_size

pub record Kmem : Type 0 where
  pub use_lock : Bool
  pub freelist : ℕ
  pub mem : ℕ → ℕ

-- `memset(v, 1, PGSIZE)`: the page starts at a multiple of 4, so `stosl` stores whole words.
abbrev pub fill_page : (ℕ → ℕ) → ℕ → ℕ → ℕ
fill_page mem v a = if leb v a then if ltb a (v + page_size) then 0x01010101 else mem a else mem a

-- `end`, the first address after the kernel image, comes from the linker.
module _ (kernel_end : ℕ) where
  abbrev pub refuses : ℕ → Bool
  refuses v = not (v % page_size == 0) || (ltb v kernel_end || leb phys_stop (v2p v))

  unfoldable pub kfree : Kmem → ℕ → Outcome Kmem
  kfree k v =
      if refuses v
      then panic
      else ok (record k { mem = update (fill_page k.mem v) v k.freelist; freelist = v })

  -- The loop of `freerange`, for as many rounds as the fuel allows.
  pub free_pages : ℕ → Kmem → ℕ → ℕ → Outcome Kmem
  free_pages zero k p vend = ok k
  free_pages (suc fuel) k p vend =
      let rest = kfree k p >>= λ k'. free_pages fuel k' (p + page_size) vend in
      if leb (p + page_size) vend then rest else ok k

  -- `vend` rounds are enough: each adds a page to `p`.
  pub freerange : Kmem → ℕ → ℕ → Outcome Kmem
  freerange k vstart vend = free_pages vend k (pg_round_up vstart) vend

  pub kinit1 : Kmem → ℕ → ℕ → Outcome Kmem
  kinit1 k vstart vend = freerange (record k { use_lock = false }) vstart vend

  pub kinit2 : Kmem → ℕ → ℕ → Outcome Kmem
  kinit2 k vstart vend = freerange k vstart vend >>= λ k'. ok (record k' { use_lock = true })

-- The page, or 0 when none is left, and the allocator after the call.
unfoldable pub kalloc : Kmem → ℕ × Kmem
kalloc k = (k.freelist, if k.freelist == 0 then k else record k { freelist = k.mem k.freelist })
