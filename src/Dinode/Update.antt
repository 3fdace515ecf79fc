-- ===== src/Dinode/Update.antt =====
-- fs.c: iupdate and ialloc as changes of the inodes on the disk.
use cse3320_proj1_ahmed_bahb.Common.{
  ℕ, zero, suc, ◌+◌, ◌-◌, ◌^◌, ◌≤◌, ◌<◌, ◌≡◌, ◌≢◌, refl, sym, ap, ◌∙◌, ◌⊎◌, inl, inr, true, false,
  ◌==◌, if◌then◌else◌, arith, ℕ_discrete, Bool-cases,
}
use cse3320_proj1_ahmed_bahb.Common.Maps.{update, update_self, update_ne}
use cse3320_proj1_ahmed_bahb.Common.Outcome.{ok, panic}
use cse3320_proj1_ahmed_bahb.Strings.{Memory}
use cse3320_proj1_ahmed_bahb.Bitmap.{Super, Disk}
use cse3320_proj1_ahmed_bahb.Dinode.{
  Dinode, iblock, slot, read_dinode, write_dinode, dinode_at, iupdate, blank, ialloc_from, ialloc,
}
use cse3320_proj1_ahmed_bahb.Dinode.Layout.{
  IsDinode, write_dinode-out, read_dinode-write_dinode, read_dinode-agree,
}

-- After `iupdate` the disk has the new inode under its number, and every other inode as before, also those
-- in the same block.
pub dinode_at-iupdate :
    (sb : Super) (disk : Disk) (i j : ℕ) (d : Dinode)
    → IsDinode d
    → dinode_at sb (iupdate sb disk i d) j ≡ (if i == j then d else dinode_at sb disk j)
unfolding dinode_at iupdate
dinode_at-iupdate sb disk i j d v =
    let old = disk (iblock i sb) in
    let new = write_dinode old (slot i) d in
    elim (ℕ_discrete (iblock i sb) (iblock j sb)) [
      | no ne ↦
          let t : (i == j) ≡ false = ground arith in
          rw t (
            ap (λ (m : Memory). read_dinode m (slot j))
              (update_ne disk (iblock i sb) (iblock j sb) new ne))
      | yes e ↦
          let block : update disk (iblock i sb) new (iblock j sb) ≡ new =
            ap (update disk (iblock i sb) new) (sym e) ∙ update_self disk (iblock i sb) new in
          ap (λ (m : Memory). read_dinode m (slot j)) block ∙ elim (ℕ_discrete i j) [
            | yes same ↦
                let t : (i == j) ≡ true = ground arith in
                rw (t, ← same) (read_dinode-write_dinode old (slot i) d v)
            | no ne ↦
                let t : (i == j) ≡ false = ground arith in
                rw t (
                  read_dinode-agree old new (slot j)
                    (λ b lo hi. write_dinode-out old (slot i) d b v.count (omega arith))
                  ∙ ap (λ (b : ℕ). read_dinode (disk b) (slot j)) e)
          ]
    ]

ialloc_from-cases :
    (n : ℕ) (sb : Super) (disk : Disk) (i type : ℕ)
    → ((k : ℕ) × (ialloc_from n sb disk i type ≡ ok (k, iupdate sb disk k (blank type)))
        × (i ≤ k)
        × (k < i + n)
        × ((dinode_at sb disk k).type ≡ 0)
        × ((j : ℕ) → i ≤ j → j < k → (dinode_at sb disk j).type ≢ 0))
      ⊎ ((ialloc_from n sb disk i type ≡ panic)
          × ((j : ℕ) → i ≤ j → j < i + n → (dinode_at sb disk j).type ≢ 0))
unfolding ialloc_from
ialloc_from-cases zero sb disk i type = inr (refl, λ j lo hi. absurd (omega arith))
ialloc_from-cases (suc n) sb disk i type = elim (Bool-cases ((dinode_at sb disk i).type == 0)) [
  | inl free ↦
      inl (i, rw free refl, omega arith, omega arith, ground arith, λ j lo hi. absurd (omega arith))
  | inr taken ↦
      let here : (dinode_at sb disk i).type ≢ 0 = ground arith in
      let extend = λ (j : ℕ) (lo : i ≤ j) (later : i + 1 ≤ j → (dinode_at sb disk j).type ≢ 0).
        let r : (dinode_at sb disk j).type ≢ 0 = elim (ℕ_discrete i j) [
          | yes e ↦ rw (← e) here
          | no ne ↦ later (omega arith)
        ] in
        r in
      elim (ialloc_from-cases n sb disk (i + 1) type) [
        | inl (k, e, lo, hi, free, lowest) ↦ inl (
          k,
          rw taken e,
          omega arith,
          omega arith,
          free,
          λ j lo' hi'. extend j lo' (λ lo''. lowest j lo'' hi'),
        )
        | inr (e, full) ↦
            inr (rw taken e, λ j lo hi. extend j lo (λ lo''. full j lo'' (omega arith)))
      ]
]

blank-IsDinode : (type : ℕ) → type < 2 ^ 16 → IsDinode (blank type)
blank-IsDinode type h = record {
  type = h;
  major = omega arith;
  minor = omega arith;
  nlink = omega arith;
  size = omega arith;
  count = refl;
  addrs = omega arith;
}

-- `ialloc` takes the lowest inode from 1 on whose type is 0, makes it a blank inode of the new type and
-- leaves every other inode alone; it panics exactly if each inode has a type.
pub ialloc_lem :
    (sb : Super) (disk : Disk) (type : ℕ)
    → type < 2 ^ 16
    → ((i : ℕ) × (e : Disk) × (ialloc sb disk type ≡ ok (i, e))
        × (1 ≤ i)
        × (i < sb.ninodes)
        × ((dinode_at sb disk i).type ≡ 0)
        × ((j : ℕ) → 1 ≤ j → j < i → (dinode_at sb disk j).type ≢ 0)
        × ((j : ℕ) → dinode_at sb e j ≡ (if i == j then blank type else dinode_at sb disk j)))
      ⊎ ((ialloc sb disk type ≡ panic)
          × ((j : ℕ) → 1 ≤ j → j < sb.ninodes → (dinode_at sb disk j).type ≢ 0))
unfolding ialloc
ialloc_lem sb disk type h = elim (ialloc_from-cases (sb.ninodes - 1) sb disk 1 type) [
  | inr (e, full) ↦ inr (e, λ j lo hi. full j lo (omega arith))
  | inl (i, e, lo, hi, free, lowest) ↦ inl (
    i,
    iupdate sb disk i (blank type),
    e,
    lo,
    omega arith,
    free,
    lowest,
    λ j. dinode_at-iupdate sb disk i j (blank type) (blank-IsDinode type h),
  )
]
