-- ===== src/Icache/Put.antt =====
-- fs.c: iput against the count of references, and the inode that it frees.
use cse3320_proj1_ahmed_bahb.Common.{
  ℕ, ◌+◌, ◌-◌, ◌<◌, ◌≡◌, ◌≢◌, refl, sym, ap, ◌∙◌, inl, inr, Bool, true, false, ◌&&◌, take, get_or,
  replicate, ◌==◌, if◌then◌else◌, arith, Bool-cases,
}
use cse3320_proj1_ahmed_bahb.Common.Maps.{update, update_ne}
use cse3320_proj1_ahmed_bahb.Common.Outcome.{ok, panic, ◌>>=◌, Outcome-cases}
use mathlib.Core.Path.{fun_ext}
use cse3320_proj1_ahmed_bahb.Bitmap.{Disk}
use cse3320_proj1_ahmed_bahb.Dinode.{Dinode, ndirect, dinode_at, iupdate}
use cse3320_proj1_ahmed_bahb.Dinode.Layout.{IsDinode}
use cse3320_proj1_ahmed_bahb.Dinode.Update.{dinode_at-iupdate}
use cse3320_proj1_ahmed_bahb.Icache.{
  Inode, Fs, ninode, set_inode, free_all, free_indirect, itrunc, free_inode, drop_ref, iput,
}
use cse3320_proj1_ahmed_bahb.Icache.Count.{refs, refs-update}
use cse3320_proj1_ahmed_bahb.Icache.Get.{IsCache}

-- The fields of an inode without content.
abbrev pub truncated : Dinode → Dinode
truncated f = record f { addrs = replicate (ndirect + 1) 0; size = 0 }

-- What `itrunc` leaves, whichever blocks it frees.
pub itrunc-eq-ok :
    (s : Fs) (i : ℕ) {t : Fs}
    → itrunc s i ≡ ok t
    → (e : Disk) × (t ≡ record s {
      disk = iupdate s.sb e (s.inodes i).inum (truncated (s.inodes i).fields);
      inodes = update s.inodes i (record (s.inodes i) { fields = truncated (s.inodes i).fields });
    })
unfolding itrunc
itrunc-eq-ok s i {t} h =
    let ip = s.inodes i in
    elim (Outcome-cases (free_all s.sb (take ndirect ip.fields.addrs) s.disk)) [
      | inr p ↦ cc (rw p at h)
      | inl (d, p) ↦
          let h' = rw p at h in
          elim (Outcome-cases (free_indirect s.sb (get_or ip.fields.addrs ndirect 0) d)) [
            | inr q ↦ cc (rw q at h')
            | inl (e, q) ↦ let h'' = rw q at h' in (e, cc)
          ]
    ]

-- `e` has one reference less to the inode of entry `i`, and no other change of the counts; the other
-- entries are as before.
pub record Dropped (s : Fs) (i : ℕ) (e : Fs) : Type 0 where
  pub counts :
      (d k : ℕ)
      → refs ninode e.inodes d k
          + (if (s.inodes i).dev == d && (s.inodes i).inum == k then 1 else 0)
        ≡ refs ninode s.inodes d k
  pub others : (j : ℕ) → i ≢ j → e.inodes j ≡ s.inodes j
  pub keeps : IsCache e

-- Any change of one entry that takes one reference from it and lets it stand for the same inode.
lowered-Dropped :
    (s : Fs) (i : ℕ) (e : Fs) (q : Inode)
    → IsCache s
    → i < ninode
    → 0 < (s.inodes i).ref
    → e.inodes ≡ update s.inodes i q
    → (q.dev ≡ (s.inodes i).dev) × (q.inum ≡ (s.inodes i).inum) × (q.ref + 1 ≡ (s.inodes i).ref)
    → Dropped s i e
lowered-Dropped s i e q v lt in_use table (qd, qi, qr) =
    let was = λ (j : ℕ).
      let r : ((update s.inodes i q j).dev ≡ (s.inodes j).dev)
          × ((update s.inodes i q j).inum ≡ (s.inodes j).inum)
          × (0 < (update s.inodes i q j).ref → 0 < (s.inodes j).ref) =
        ground arith in
      r in
    record {
      counts = λ d k. let r = refs-update ninode s.inodes i q d k lt in rw table (ground arith);
      others = λ j ne. rw table (update_ne s.inodes i j q ne);
      keeps = rw table (λ j k hj hk uj uk ed ei.
          let wj = was j in
          let wk = was k in
          v j k hj hk (wj.2 uj) (wk.2 uk) (sym wj.0 ∙ ed ∙ wk.0) (sym wj.1 ∙ ei ∙ wk.1));
    }

-- `ip->ref == 1 && (ip->flags & I_VALID) && ip->nlink == 0`
abbrev pub is_last : Inode → Bool
is_last ip = ip.ref == 1 && (ip.valid && ip.fields.nlink == 0)

-- The inode that is left on the disk when it has been freed.
abbrev pub erased : Dinode → Dinode
erased f = record (truncated f) { type = 0 }

erased-IsDinode : (f : Dinode) → IsDinode f → IsDinode (erased f)
erased-IsDinode f v = record {
  type = omega arith;
  major = v.major;
  minor = v.minor;
  nlink = v.nlink;
  size = omega arith;
  count = refl;
  addrs = omega arith;
}

iput-eq-drop : (s : Fs) (i : ℕ) → is_last (s.inodes i) ≡ false → iput s i ≡ ok (drop_ref s i)
unfolding iput
iput-eq-drop s i h = rw h refl

iput-eq-free :
    (s : Fs) (i : ℕ)
    → is_last (s.inodes i) ≡ true
    → (s.inodes i).busy ≡ false
    → iput s i ≡ (
        itrunc (set_inode s i (record (s.inodes i) { busy = true })) i >>= λ t.
        ok (drop_ref (free_inode t i) i))
unfolding iput
iput-eq-free s i h b = rw (h, b) refl

iput-eq-panic :
    (s : Fs) (i : ℕ) → is_last (s.inodes i) ≡ true → (s.inodes i).busy ≡ true → iput s i ≡ panic
unfolding iput
iput-eq-panic s i h b = rw (h, b) refl

-- The entry that `iput` leaves when it frees the inode.
abbrev put_away : Inode → Inode
put_away ip = record ip { ref = ip.ref - 1; busy = false; valid = false; fields = erased ip.fields }

-- What is left when `iput` has freed the inode: `e'` is the disk after the blocks were freed.
iput-frees :
    (s : Fs) (i : ℕ) {e : Fs}
    → is_last (s.inodes i) ≡ true
    → iput s i ≡ ok e
    → (e' : Disk) × (e.inodes ≡ update s.inodes i (put_away (s.inodes i)))
      × (e.sb ≡ s.sb)
      × (e.disk ≡ iupdate s.sb e' (s.inodes i).inum (erased (s.inodes i).fields))
unfolding free_inode
iput-frees s i {e} last h = elim (Bool-cases (s.inodes i).busy) [
  | inl busy ↦ cc (iput-eq-panic s i last busy)
  | inr idle ↦
      let locked = set_inode s i (record (s.inodes i) { busy = true }) in
      let h' = sym (iput-eq-free s i last idle) ∙ h in
      elim (Outcome-cases (itrunc locked i)) [
        | inr p ↦ cc (rw p at h')
        | inl (t, p) ↦
            let h'' = rw p at h' in
            let r = itrunc-eq-ok locked i p in
            let is : e ≡ drop_ref (free_inode t i) i = cc in
            let self : (i == i) ≡ true = ground arith in
            rw (is, r.1, self)
              (
                iupdate s.sb r.0 (s.inodes i).inum (truncated (s.inodes i).fields),
                fun_ext (λ j. elim (Bool-cases (i == j)) [ inl e ↦ rw e refl | inr e ↦ rw e refl ]),
                refl,
                refl,
              )
      ]
]

-- If `iput` of an entry in use returns, it has taken one reference from the count of its inode and changed
-- no other entry. If that was the last reference to an inode without links, whose content was in the
-- cache, the inode on the disk has the type 0, the size 0 and no blocks; otherwise the disk is as before.
pub iput-Dropped :
    (s : Fs) (i : ℕ) {e : Fs}
    → IsCache s
    → i < ninode
    → 0 < (s.inodes i).ref
    → IsDinode (s.inodes i).fields
    → iput s i ≡ ok e
    → Dropped s i e
      × (is_last (s.inodes i) ≡ true
          → dinode_at e.sb e.disk (s.inodes i).inum ≡ erased (s.inodes i).fields)
      × (is_last (s.inodes i) ≡ false → e.disk ≡ s.disk)
iput-Dropped s i {e} v lt in_use d h = elim (Bool-cases (is_last (s.inodes i))) [
  | inr more ↦
      let is : e ≡ drop_ref s i = let r = iput-eq-drop s i more in cc in
      let new = record (s.inodes i) { ref = (s.inodes i).ref - 1 } in
      (
        rw is (lowered-Dropped s i (drop_ref s i) new v lt in_use refl (refl, refl, omega arith)),
        (λ l. cc),
        (λ l. ap (λ (t : Fs). t.disk) is),
      )
  | inl last ↦
      let r = iput-frees s i last h in
      (
        lowered-Dropped s i e (put_away (s.inodes i)) v lt in_use r.1 (refl, refl, omega arith),
        (λ l.
            rw (r.2, r.3)
              (dinode_at-iupdate s.sb r.0 (s.inodes i).inum (s.inodes i).inum
                  (erased (s.inodes i).fields) (erased-IsDinode (s.inodes i).fields d)
                ∙ (let self : ((s.inodes i).inum == (s.inodes i).inum) ≡ true = ground arith in
                    rw self refl))),
        (λ l. cc),
      )
]
