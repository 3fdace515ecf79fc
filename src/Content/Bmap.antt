-- ===== src/Content/Bmap.antt =====
-- fs.c: bmap against the table of places.
use cse3320_proj1_ahmed_bahb.Common.{
  ℕ, ◌+◌, ◌-◌, ◌*◌, ◌≤◌, ◌<◌, ◌≡◌, ◌≢◌, refl, sym, ap, ◌∙◌, true, false, length-set, get_or,
  get_or-set_self, get_or-set_ne, ltb, ◌==◌, if◌then◌else◌, arith, dec_lt, ℕ_discrete,
}
use cse3320_proj1_ahmed_bahb.Strings.{Memory}
use cse3320_proj1_ahmed_bahb.Args.{load}
use cse3320_proj1_ahmed_bahb.Bitmap.{Super, Disk, block_size}
use cse3320_proj1_ahmed_bahb.Bitmap.Marks.{used}
use cse3320_proj1_ahmed_bahb.Bitmap.Alloc.{Allocated}
use cse3320_proj1_ahmed_bahb.Dinode.{ndirect}
use cse3320_proj1_ahmed_bahb.Content.{Node, set_addr}
use cse3320_proj1_ahmed_bahb.Content.Places.{places, place, indirect, IsApart, IsFile}
use cse3320_proj1_ahmed_bahb.Content.Grow.{fresh-pos, fresh-ne, fresh-kept, grown-IsFile}

-- What a call that is to map place `p` leaves: the block there is `c`, the other blocks of data are where
-- they were with their contents, and the file is in order.
pub record Mapped (sb : Super) (s : Node) (p c : ℕ) (t : Node) : Type 0 where
  pub here : place t p ≡ c
  pub present : c ≢ 0
  pub file : IsFile sb t
  pub others : (q : ℕ) → q < places → q ≢ p → q ≢ ndirect → place t q ≡ place s q
  pub indirect_kept : p ≢ ndirect → place s ndirect ≢ 0 → place t ndirect ≡ place s ndirect
  pub data_ :
      (q : ℕ) → q < places → q ≢ ndirect → place s q ≢ 0 → t.disk (place s q) ≡ s.disk (place s q)
  pub same : place s p ≢ 0 → t ≡ s
  pub zeroed : place s p ≡ 0 → (a : ℕ) → a < block_size → t.disk c a ≡ 0
  pub marks :
      (j : ℕ) → j < sb.size → j ≢ c → j ≢ place t ndirect → used sb t.disk j ≡ used sb s.disk j
  pub apart : (b : ℕ) → IsApart sb s b → IsApart sb t b
  pub size : (t.fields.size ≡ s.fields.size) × (t.fields.type ≡ s.fields.type)

pub old-Mapped :
    (sb : Super) (s : Node) (p : ℕ) → IsFile sb s → place s p ≢ 0 → Mapped sb s p (place s p) s
old-Mapped sb s p v ne = record {
  here = refl;
  present = ne;
  file = v;
  others = λ q h np nd. refl;
  indirect_kept = λ np ne'. refl;
  data_ = λ q h nd nz. refl;
  same = λ h. refl;
  zeroed = λ z. absurd (ne z);
  marks = λ j h ne ni. refl;
  apart = λ b h. h;
  size = (refl, refl);
}

-- Entry `k` of the indirect block.
pub place-entry :
    (s : Node) (k : ℕ)
    → place s (13 + k) ≡ (if indirect s == 0 then 0 else load (s.disk (indirect s)) (4 * k))
unfolding place
place-entry s k =
    let far : ltb (13 + k) 13 ≡ false = ground arith in
    let e : 13 + k - 13 ≡ k = omega arith in rw (far, e) refl

pub place-slot : (s : Node) (k : ℕ) → k < 13 → place s k ≡ get_or s.fields.addrs k 0
unfolding place
place-slot s k h = let near : ltb k 13 ≡ true = ground arith in rw near refl

pub load-agree :
    (m m' : Memory) (a : ℕ) → ((b : ℕ) → a ≤ b → b < a + 4 → m b ≡ m' b) → load m a ≡ load m' a
load-agree m m' a h =
    rw
      (
        h a (omega arith) (omega arith),
        h (a + 1) (omega arith) (omega arith),
        h (a + 2) (omega arith) (omega arith),
        h (a + 3) (omega arith) (omega arith),
      )
      refl

module _ (sb : Super) (s : Node) (v : IsFile sb s) (c : ℕ) (d : Disk)
    (al : Allocated sb s.disk c d) where
  module _ (k : ℕ) (hk : k < 13) (vacant : place s k ≡ 0) where
    abbrev pub slotted : Node
    slotted = record { disk = d; fields = set_addr s.fields k c }

    slotted-slot : (q : ℕ) → q < 13 → place slotted q ≡ (if q == k then c else place s q)
    slotted-slot q h = place-slot slotted q h ∙ elim (ℕ_discrete k q) [
      | yes e ↦
          let n = v.count in
          let t : (q == k) ≡ true = ground arith in
          rw (t, ← e) (get_or-set_self s.fields.addrs k c 0 (omega arith))
      | no ne ↦
          let t : (q == k) ≡ false = ground arith in
          rw (t, place-slot s q h) (get_or-set_ne s.fields.addrs k q c 0 ne)
    ]

    slotted-entry : (j : ℕ) → 13 + j < places → place slotted (13 + j) ≡ place s (13 + j)
    slotted-entry j h = elim (ℕ_discrete k ndirect) [
      | yes e ↦
          let i = slotted-slot ndirect (omega arith) in
          let t : (ndirect == k) ≡ true = ground arith in
          let now : indirect slotted ≡ c =
            sym (place-slot slotted ndirect (omega arith)) ∙ i ∙ rw t refl in
          let before : indirect s ≡ 0 =
            sym (place-slot s ndirect (omega arith)) ∙ ap (place s) (sym e) ∙ vacant in
          let pos : (c == 0) ≡ false = let f = fresh-pos sb s v c d al in ground arith in
          let z = al.zeroed in
          let zero_word : load (d c) (4 * j) ≡ 0 =
            rw
              (
                z (4 * j) (omega arith),
                z (4 * j + 1) (omega arith),
                z (4 * j + 2) (omega arith),
                z (4 * j + 3) (omega arith),
              )
              refl in
          let l : place slotted (13 + j) ≡ 0 =
            rw (place-entry slotted j, now, pos, zero_word) refl in
          let r : place s (13 + j) ≡ 0 = rw (place-entry s j, before) refl in l ∙ sym r
      | no ne ↦
          let same : indirect slotted ≡ indirect s =
            get_or-set_ne s.fields.addrs k ndirect c 0 ne in
          place-entry slotted j
          ∙ ap (λ (b : ℕ). if b == 0 then 0 else load (d b) (4 * j)) same
          ∙ elim (ℕ_discrete (indirect s) 0) [
            | yes z ↦ let r : place s (13 + j) ≡ 0 = rw (place-entry s j, z) refl in rw (z, r) refl
            | no nz ↦
                let at = place-slot s ndirect (omega arith) in
                let o = v.owned ndirect (omega arith) (λ e. nz (sym at ∙ e)) in
                let o' = rw at at o in
                let kept = fresh-kept sb s v c d al (indirect s) o'.1 o'.2 in
                ap (λ (m : Memory). if indirect s == 0 then 0 else load m (4 * j)) kept
                ∙ sym (place-entry s j)
          ]
    ]

    slotted-place : (q : ℕ) → q < places → place slotted q ≡ (if q == k then c else place s q)
    slotted-place q h = elim (dec_lt q 13) [
      | yes near ↦ slotted-slot q near
      | no far ↦
          let t : (q == k) ≡ false = ground arith in
          let e : 13 + (q - 13) ≡ q = omega arith in
          rw t (rw e at (slotted-entry (q - 13) (omega arith)))
    ]

    not_fresh :
        (b q : ℕ) → used sb s.disk b ≡ true → place s q ≢ b → (if q == k then c else place s q) ≢ b
    not_fresh b q u f e = let ne = fresh-ne sb s v c d al b u in ground arith

    pub slotted-Mapped : Mapped sb s k c slotted
    slotted-Mapped = record {
      here = slotted-place k (omega arith) ∙ ground arith;
      present = fresh-pos sb s v c d al;
      file =
          grown-IsFile sb s v c d al slotted k (omega arith) vacant slotted-place (λ j h. refl)
            al.keeps.bytes (length-set s.fields.addrs k c ∙ v.count);
      others = λ q h np nd. slotted-place q h ∙ ground arith;
      indirect_kept = λ np nz. slotted-place ndirect (omega arith) ∙ ground arith;
      data_ = λ q h nd nz. let o = v.owned q h nz in fresh-kept sb s v c d al (place s q) o.1 o.2;
      same = λ ne. absurd (ne vacant);
      zeroed = λ z. al.zeroed;
      marks = λ j h ne ni. al.now_used j h ∙ ground arith;
      apart = λ b (h, u, f). (
        h,
        al.now_used b h ∙ rw u (ground arith),
        λ q hq e. not_fresh b q u (f q hq) (sym (slotted-place q hq) ∙ e),
      );
      size = (refl, refl);
    }
