-- ===== src/Content/Entry.antt =====
-- fs.c: a vacant entry of an indirect block that bmap fills.
use cse3320_proj1_ahmed_bahb.Common.{
  ℕ, ◌+◌, ◌-◌, ◌*◌, ◌%◌, ◌^◌, ◌<◌, ◌≡◌, ◌≢◌, refl, sym, ap, ◌∙◌, true, false, ◌==◌, if◌then◌else◌,
  arith, dec_lt, ℕ_discrete,
}
use cse3320_proj1_ahmed_bahb.Common.Maps.{update, update_self, update_ne}
use cse3320_proj1_ahmed_bahb.Strings.{Memory, store32}
use cse3320_proj1_ahmed_bahb.Args.{load}
use cse3320_proj1_ahmed_bahb.Bitmap.{Super, Disk, bblock, bpb, bit_at}
use cse3320_proj1_ahmed_bahb.Bitmap.Bits.{AreBytes}
use cse3320_proj1_ahmed_bahb.Bitmap.Alloc.{Allocated}
use cse3320_proj1_ahmed_bahb.Bitmap.Marks.{used}
use cse3320_proj1_ahmed_bahb.Dinode.{ndirect}
use cse3320_proj1_ahmed_bahb.Dinode.Words.{load-store32, store32-out}
use cse3320_proj1_ahmed_bahb.Content.{Node}
use cse3320_proj1_ahmed_bahb.Content.Places.{places, place, indirect, IsOwned, IsFile}
use cse3320_proj1_ahmed_bahb.Content.Grow.{fresh-pos, fresh-ne, fresh-kept, grown-IsFile}
use cse3320_proj1_ahmed_bahb.Content.Bmap.{Mapped, place-entry, place-slot, load-agree}

store32-AreBytes : (mem : Memory) (a w : ℕ) → AreBytes mem → AreBytes (store32 mem a w)
unfolding store32
store32-AreBytes mem a w h b = let x = h b in ground arith

module _ (sb : Super) (s : Node) (v : IsFile sb s) (c : ℕ) (d : Disk) (al : Allocated sb s.disk c d)
    (k : ℕ) (hk : 13 + k < places) (some_block : indirect s ≢ 0)
    (vacant : place s (13 + k) ≡ 0) where
  abbrev b : ℕ
  b = indirect s

  abbrev pub entered : Node
  entered = record s { disk = update d b (store32 (d b) (4 * k) c) }

  place-indirect : place s ndirect ≡ b
  place-indirect = place-slot s ndirect (omega arith)

  b-IsOwned : IsOwned sb s.disk b
  b-IsOwned =
      let o = v.owned ndirect (omega arith) (λ e. some_block (sym place-indirect ∙ e)) in
      rw place-indirect at o

  kept-b : d b ≡ s.disk b
  kept-b = fresh-kept sb s v c d al b b-IsOwned.1 b-IsOwned.2

  entered-entry :
      (j : ℕ) → 13 + j < places → place entered (13 + j) ≡ (if j == k then c else place s (13 + j))
  entered-entry j h =
      let pos : (b == 0) ≡ false = ground arith in
      let small : c < 2 ^ 32 = let i = al.inside in let z = v.sized in omega arith in
      let here = update_self d b (store32 (d b) (4 * k) c) in
      let got : place entered (13 + j) ≡ load (store32 (d b) (4 * k) c) (4 * j) =
        place-entry entered j ∙ rw (pos, here) refl in
      got ∙ elim (ℕ_discrete j k) [
        | yes e ↦
            let t : (j == k) ≡ true = ground arith in rw (t, e) (load-store32 (d b) (4 * k) c small)
        | no ne ↦
            let t : (j == k) ≡ false = ground arith in
            let old : place s (13 + j) ≡ load (d b) (4 * j) =
              rw (place-entry s j, pos, kept-b) refl in
            rw (t, old)
              (load-agree (store32 (d b) (4 * k) c) (d b) (4 * j)
                (λ a lo hi. store32-out (d b) (4 * k) c a (ground arith)))
      ]

  entered-place : (q : ℕ) → q < places → place entered q ≡ (if q == 13 + k then c else place s q)
  entered-place q h = elim (dec_lt q 13) [
    | yes near ↦
        let t : (q == 13 + k) ≡ false = ground arith in
        rw (t, place-slot entered q near, place-slot s q near) refl
    | no far ↦
        let e : 13 + (q - 13) ≡ q = omega arith in
        let x = rw e at (entered-entry (q - 13) (omega arith)) in
        let t : (q - 13 == k) ≡ (q == 13 + k) = ground arith in rw t at x
  ]

  entered-ne : (x : ℕ) → b ≢ x → entered.disk x ≡ d x
  entered-ne x ne = update_ne d b x _ ne

  c-ne : b ≢ c
  c-ne = fresh-ne sb s v c d al b b-IsOwned.1

  bytes-entered : (x : ℕ) → AreBytes (entered.disk x)
  bytes-entered x = elim (ℕ_discrete b x) [
    | yes e ↦
        rw (← e, update_self d b (store32 (d b) (4 * k) c))
          (store32-AreBytes (d b) (4 * k) c (al.keeps.bytes b))
    | no ne ↦ rw (entered-ne x ne) (al.keeps.bytes x)
  ]

  not_fresh :
      (x q : ℕ)
      → used sb s.disk x ≡ true
      → place s q ≢ x
      → (if q == 13 + k then c else place s q) ≢ x
  not_fresh x q u f e = let ne = fresh-ne sb s v c d al x u in ground arith

  pub entered-Mapped : Mapped sb s (13 + k) c entered
  entered-Mapped = record {
    here = entered-place (13 + k) hk ∙ ground arith;
    present = fresh-pos sb s v c d al;
    file =
        grown-IsFile sb s v c d al entered (13 + k) hk vacant entered-place
          (λ j h. entered-ne (bblock j sb) (λ e. b-IsOwned.2 j h (sym e))) bytes-entered v.count;
    others = λ q h np nd. entered-place q h ∙ ground arith;
    indirect_kept = λ np nz. entered-place ndirect (omega arith) ∙ ground arith;
    data_ = λ q h nd nz.
        let o = v.owned q h nz in
        let ne : b ≢ place s q =
          λ e. nd (v.distinct q ndirect h (omega arith) nz (sym e ∙ sym place-indirect)) in
        entered-ne (place s q) ne ∙ fresh-kept sb s v c d al (place s q) o.1 o.2;
    same = λ ne. absurd (ne vacant);
    zeroed = λ z a h. rw (entered-ne c c-ne) (al.zeroed a h);
    marks = λ j h ne ni.
        ap (λ (m : Memory). bit_at m (j % bpb))
          (entered-ne (bblock j sb) (λ e. b-IsOwned.2 j h (sym e)))
        ∙ al.now_used j h
        ∙ ground arith;
    apart = λ x (h, u, f). (
      h,
      ap (λ (m : Memory). bit_at m (x % bpb))
            (entered-ne (bblock x sb) (λ e. b-IsOwned.2 x h (sym e)))
          ∙ al.now_used x h
          ∙ rw u (ground arith),
      λ q hq e. not_fresh x q u (f q hq) (sym (entered-place q hq) ∙ e),
    );
    size = (refl, refl);
  }
