-- ===== src/Icache/Count.antt =====
-- fs.c: how many references the cache counts for an inode.
use cse3320_proj1_ahmed_bahb.Common.{
  ℕ, zero, suc, ◌+◌, ◌≤◌, ◌<◌, ◌≡◌, ◌≢◌, refl, ◌⊎◌, inl, inr, true, false, ◌&&◌, Option, none, some,
  ◌==◌, if◌then◌else◌, arith, ℕ_discrete, Bool-cases,
}
use cse3320_proj1_ahmed_bahb.Common.Maps.{update}
use cse3320_proj1_ahmed_bahb.Icache.{Inode, is_inode, remember, iget_scan}

-- The references that one entry counts for the inode `inum` of `dev`.
abbrev pub share : ℕ → ℕ → Inode → ℕ
share dev inum ip = if ip.dev == dev && ip.inum == inum then ip.ref else 0

-- The references in the first `n` entries.
pub refs : ℕ → (ℕ → Inode) → ℕ → ℕ → ℕ
refs zero t dev inum = 0
refs (suc n) t dev inum = refs n t dev inum + share dev inum (t n)

refs-update_out :
    (n : ℕ) (t : ℕ → Inode) (i : ℕ) (ip : Inode) (dev inum : ℕ)
    → n ≤ i
    → refs n (update t i ip) dev inum ≡ refs n t dev inum
unfolding refs
refs-update_out zero t i ip dev inum h = refl
refs-update_out (suc n) t i ip dev inum h =
    let e = refs-update_out n t i ip dev inum (omega arith) in
    let same : update t i ip n ≡ t n = ground arith in rw (e, same) refl

-- A new entry changes the count by the difference of what it and the old one count.
pub refs-update :
    (n : ℕ) (t : ℕ → Inode) (i : ℕ) (ip : Inode) (dev inum : ℕ)
    → i < n
    → refs n (update t i ip) dev inum + share dev inum (t i) ≡ refs n t dev inum + share dev inum ip
unfolding refs
refs-update zero t i ip dev inum h = absurd (omega arith)
refs-update (suc n) t i ip dev inum h = elim (ℕ_discrete i n) [
  | yes e ↦
      let r = refs-update_out n t i ip dev inum (omega arith) in
      let here : update t i ip n ≡ ip = ground arith in rw (r, here, e) (omega arith)
  | no ne ↦
      let r = refs-update n t i ip dev inum (omega arith) in
      let same : update t i ip n ≡ t n = ground arith in rw same (omega arith)
]

pub share-le-refs :
    (n : ℕ) (t : ℕ → Inode) (i dev inum : ℕ) → i < n → share dev inum (t i) ≤ refs n t dev inum
unfolding refs
share-le-refs zero t i dev inum h = absurd (omega arith)
share-le-refs (suc n) t i dev inum h = elim (ℕ_discrete i n) [
  | yes e ↦ rw e (omega arith)
  | no ne ↦ let r = share-le-refs n t i dev inum (omega arith) in omega arith
]

-- What the loop of `iget` finds.
abbrev pub Scanned : (ℕ → Inode) → ℕ → ℕ → ℕ → ℕ → Option ℕ → Option ℕ × Option ℕ → Type 0
Scanned t dev inum i n empty (some k, _) = (i ≤ k) × (k < i + n) × (is_inode dev inum (t k) ≡ true)
Scanned t dev inum i n empty (none, some k) =
    ((empty ≡ some k) ⊎ ((i ≤ k) × (k < i + n) × ((t k).ref ≡ 0)))
    × ((j : ℕ) → i ≤ j → j < i + n → is_inode dev inum (t j) ≡ false)
Scanned t dev inum i n empty (none, none) =
    (empty ≡ none)
    × ((j : ℕ) → i ≤ j → j < i + n → (is_inode dev inum (t j) ≡ false) × ((t j).ref ≢ 0))

-- An entry of another inode in front of those that the loop has looked at.
module _ (t : ℕ → Inode) (dev inum i n : ℕ) (other : is_inode dev inum (t i) ≡ false) where
  before_all :
      ((j : ℕ) → i + 1 ≤ j → j < i + 1 + n → is_inode dev inum (t j) ≡ false)
      → (j : ℕ) → i ≤ j
      → j < i + suc n
      → is_inode dev inum (t j) ≡ false
  before_all h j lo hi = elim (ℕ_discrete i j) [
    | yes e ↦ rw (← e) other
    | no ne ↦ h j (omega arith) (omega arith)
  ]

  before_empty :
      (empty : Option ℕ) (k : ℕ)
      → (remember empty i (t i) ≡ some k) ⊎ ((i + 1 ≤ k) × (k < i + 1 + n) × ((t k).ref ≡ 0))
      → (empty ≡ some k) ⊎ ((i ≤ k) × (k < i + suc n) × ((t k).ref ≡ 0))
  before_empty (some e) k (inl same) = inl same
  before_empty none k (inl same) = elim (Bool-cases ((t i).ref == 0)) [
    | inl zero_ref ↦
        let is : i ≡ k = cc (rw zero_ref at same) in
        inr (omega arith, omega arith, rw (← is) (ground arith))
    | inr busy_ref ↦ cc (rw busy_ref at same)
  ]
  before_empty empty k (inr (lo, hi, z)) = inr (omega arith, omega arith, z)

  before_none :
      (empty : Option ℕ) → remember empty i (t i) ≡ none → (empty ≡ none) × ((t i).ref ≢ 0)
  before_none (some e) same = cc
  before_none none same = elim (Bool-cases ((t i).ref == 0)) [
    | inl zero_ref ↦ cc (rw zero_ref at same)
    | inr busy_ref ↦ (refl, ground arith)
  ]

  extend :
      (empty : Option ℕ) (r : Option ℕ × Option ℕ)
      → Scanned t dev inum (i + 1) n (remember empty i (t i)) r
      → Scanned t dev inum i (suc n) empty r
  extend empty (some k, _) (lo, hi, found) = (omega arith, omega arith, found)
  extend empty (none, some k) (where_, all) = (before_empty empty k where_, before_all all)
  extend empty (none, none) (e, all) =
      let first = before_none empty e in
      (
        first.0,
        λ j lo hi. elim (ℕ_discrete i j) [
          | yes same ↦ rw (← same) (other, first.1)
          | no ne ↦ all j (omega arith) (omega arith)
        ],
      )

pub iget_scan-Scanned :
    (n : ℕ) (t : ℕ → Inode) (i dev inum : ℕ) (empty : Option ℕ)
    → Scanned t dev inum i n empty (iget_scan n t i dev inum empty)
unfolding iget_scan
iget_scan-Scanned zero t i dev inum none = (refl, λ j lo hi. absurd (omega arith))
iget_scan-Scanned zero t i dev inum (some k) = (inl refl, λ j lo hi. absurd (omega arith))
iget_scan-Scanned (suc n) t i dev inum empty = elim (Bool-cases (is_inode dev inum (t i))) [
  | inl found ↦ rw found (omega arith, omega arith, found)
  | inr other ↦
      let empty' = remember empty i (t i) in
      rw other (
        extend t dev inum i n other empty (iget_scan n t (i + 1) dev inum empty')
          (iget_scan-Scanned n t (i + 1) dev inum empty'))
]
