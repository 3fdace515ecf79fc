-- ===== src/Icache/Held.antt =====
-- fs.c: ilock and iunlock, and what a locked inode says of the disk.
use cse3320_proj1_ahmed_bahb.Common.{
  ℕ, ◌<◌, ◌≡◌, ◌≢◌, refl, inl, inr, true, false, some, ◌==◌, arith, ℕ_discrete, Bool-cases,
}
use cse3320_proj1_ahmed_bahb.Common.Maps.{update_self, update_ne}
use cse3320_proj1_ahmed_bahb.Common.Outcome.{ok}
use cse3320_proj1_ahmed_bahb.Dinode.{dinode_at}
use cse3320_proj1_ahmed_bahb.Icache.{Inode, Fs, set_inode, ilock, iunlock}

-- An inode in the cache that nobody has locked, and whose content has been read, is as on the disk.
abbrev pub IsSynced : Fs → Type 0
IsSynced s =
    (j : ℕ)
    → (s.inodes j).busy ≡ false
    → (s.inodes j).valid ≡ true
    → (s.inodes j).fields ≡ dinode_at s.sb s.disk (s.inodes j).inum

-- What a caller of `ilock` may rely on.
pub record Locked (s : Fs) (i : ℕ) (e : Fs) : Type 0 where
  pub was_free : (s.inodes i).busy ≡ false
  pub busy : (e.inodes i).busy ≡ true
  pub valid : (e.inodes i).valid ≡ true
  pub content : (e.inodes i).fields ≡ dinode_at s.sb s.disk (s.inodes i).inum
  pub typed : (s.inodes i).valid ≡ false → (e.inodes i).fields.type ≢ 0
  pub others : (j : ℕ) → i ≢ j → e.inodes j ≡ s.inodes j
  pub disk : e.disk ≡ s.disk
  pub synced : IsSynced e

set_inode-Locked :
    (s : Fs) (i : ℕ) (q : Inode)
    → IsSynced s
    → (s.inodes i).busy ≡ false
    → (q.busy ≡ true) × (q.valid ≡ true)
    → q.fields ≡ dinode_at s.sb s.disk (s.inodes i).inum
    → ((s.inodes i).valid ≡ false → q.fields.type ≢ 0)
    → Locked s i (set_inode s i q)
set_inode-Locked s i q v free (b, ok_) content typed =
    let at = update_self s.inodes i q in
    record {
      was_free = free;
      busy = rw at b;
      valid = rw at ok_;
      content = rw at content;
      typed = rw at typed;
      others = λ j ne. update_ne s.inodes i j q ne;
      disk = refl;
      synced = λ j hb hv. elim (ℕ_discrete i j) [
        | yes e ↦ cc (rw (← e, at) at hb, b)
        | no ne ↦
            let off = update_ne s.inodes i j q ne in rw off (v j (rw off at hb) (rw off at hv))
      ];
    }

-- If `ilock` returns and does not sleep, it has locked an inode that nobody had locked, and the caller has
-- the content that the disk holds for its number, with a type other than 0 if it was read now; no other
-- entry changes.
pub ilock-Locked :
    (s : Fs) (i : ℕ) {e : Fs} → IsSynced s → ilock s (some i) ≡ ok (some e) → Locked s i e
unfolding ilock
ilock-Locked s i {e} v h = elim (Bool-cases ((s.inodes i).ref == 0)) [
  | inl unused ↦ cc (rw unused at h)
  | inr in_use ↦ elim (Bool-cases (s.inodes i).busy) [
    | inl busy ↦ cc (rw (in_use, busy) at h)
    | inr free ↦ elim (Bool-cases (s.inodes i).valid) [
      | inl valid ↦
          let h' = rw (in_use, free, valid) at h in
          let q = record (s.inodes i) { busy = true } in
          let is : set_inode s i q ≡ e = ground arith in
          rw (← is)
            (set_inode-Locked s i q v free (refl, valid) (v i free valid) (λ i'. cc (valid, i')))
      | inr stale ↦ elim (Bool-cases ((dinode_at s.sb s.disk (s.inodes i).inum).type == 0)) [
        | inl empty ↦ cc (rw (in_use, free, stale, empty) at h)
        | inr typed ↦
            let q = record (s.inodes i) {
              busy = true;
              valid = true;
              fields = dinode_at s.sb s.disk (s.inodes i).inum;
            } in
            let is : set_inode s i q ≡ e = ground arith in
            rw (← is) (set_inode-Locked s i q v free (refl, refl) refl (λ z. ground arith))
      ]
    ]
  ]
]

-- An inode that is locked, with the content that the disk holds, may be unlocked: `iunlock` returns, and
-- the unlocked inodes in the cache are still as on the disk.
pub iunlock-IsSynced :
    (s : Fs) (i : ℕ)
    → IsSynced s
    → (s.inodes i).busy ≡ true
    → 0 < (s.inodes i).ref
    → (s.inodes i).fields ≡ dinode_at s.sb s.disk (s.inodes i).inum
    → (e : Fs) × (iunlock s (some i) ≡ ok e) × ((e.inodes i).busy ≡ false) × IsSynced e
unfolding iunlock
iunlock-IsSynced s i v busy in_use content =
    let q = record (s.inodes i) { busy = false } in
    let at = update_self s.inodes i q in
    let used : ((s.inodes i).ref == 0) ≡ false = ground arith in
    (
      set_inode s i q,
      rw (busy, used) refl,
      rw at refl,
      λ j hb hv. elim (ℕ_discrete i j) [
        | yes e ↦ rw (← e, at) content
        | no ne ↦
            let off = update_ne s.inodes i j q ne in rw off (v j (rw off at hb) (rw off at hv))
      ],
    )
