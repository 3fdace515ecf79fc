-- ===== src/Content/Grow.antt =====
-- fs.c: a file that gets a fresh block at one of its places.
use cse3320_proj1_ahmed_bahb.Common.{
  ℕ, ◌%◌, ◌<◌, ◌≡◌, ◌≢◌, sym, ap, ◌∙◌, true, ◌||◌, length, ◌==◌, if◌then◌else◌, arith, ℕ_discrete,
}
use cse3320_proj1_ahmed_bahb.Strings.{Memory}
use cse3320_proj1_ahmed_bahb.Bitmap.{Super, Disk, bpb, bblock, bit_at}
use cse3320_proj1_ahmed_bahb.Bitmap.Bits.{AreBytes}
use cse3320_proj1_ahmed_bahb.Bitmap.Marks.{used}
use cse3320_proj1_ahmed_bahb.Bitmap.Alloc.{Allocated}
use cse3320_proj1_ahmed_bahb.Content.{Node}
use cse3320_proj1_ahmed_bahb.Content.Places.{places, place, IsOwned, IsFile}

module _ (sb : Super) (s : Node) (v : IsFile sb s) (c : ℕ) (d : Disk)
    (al : Allocated sb s.disk c d) where
  pub fresh-ne : (b : ℕ) → used sb s.disk b ≡ true → b ≢ c
  fresh-ne b u e = let f = al.was_free in cc (rw e at u, f)

  pub fresh-pos : c ≢ 0
  fresh-pos e = fresh-ne 0 v.boot (sym e)

  pub fresh-bitmap : (j : ℕ) → j < sb.size → bblock j sb ≢ c
  fresh-bitmap j h = fresh-ne (bblock j sb) (v.bitmap.reserved j h)

  pub fresh-place : (p : ℕ) → p < places → place s p ≢ c
  fresh-place p h e = elim (ℕ_discrete (place s p) 0) [
    | yes z ↦ fresh-pos (sym e ∙ z)
    | no ne ↦ fresh-ne (place s p) (v.owned p h ne).1 e
  ]

  -- A block of the file, or any other that is in use and not of the bitmap, is as before.
  pub fresh-kept :
      (b : ℕ) → used sb s.disk b ≡ true → ((j : ℕ) → j < sb.size → bblock j sb ≢ b) → d b ≡ s.disk b
  fresh-kept b u nb = al.others b (fresh-ne b u) (λ e. nb c al.inside (sym e))

  module _ (t : Node) (p : ℕ) (hp : p < places) (vacant : place s p ≡ 0)
      (placed : (q : ℕ) → q < places → place t q ≡ (if q == p then c else place s q))
      (bits : (j : ℕ) → j < sb.size → t.disk (bblock j sb) ≡ d (bblock j sb))
      (bytes : (b : ℕ) → AreBytes (t.disk b)) (count : length t.fields.addrs ≡ 13) where
    used-grown : (j : ℕ) → j < sb.size → used sb t.disk j ≡ (j == c || used sb s.disk j)
    used-grown j h = ap (λ (m : Memory). bit_at m (j % bpb)) (bits j h) ∙ al.now_used j h

    still_used : (j : ℕ) → j < sb.size → used sb s.disk j ≡ true → used sb t.disk j ≡ true
    still_used j h u = used-grown j h ∙ rw u (ground arith)

    place-new : place t p ≡ c
    place-new = placed p hp ∙ ground arith

    place-old : (q : ℕ) → q < places → q ≢ p → place t q ≡ place s q
    place-old q h ne = placed q h ∙ ground arith

    new-IsOwned : IsOwned sb t.disk c
    new-IsOwned = (al.inside, used-grown c al.inside ∙ ground arith, fresh-bitmap)

    pub grown-IsFile : IsFile sb t
    grown-IsFile = record {
      calls = v.calls;
      bitmap = record {
        bytes = bytes;
        inside = v.bitmap.inside;
        reserved = λ j h. still_used (bblock j sb) (v.bitmap.inside j h) (v.bitmap.reserved j h);
      };
      sized = v.sized;
      boot = still_used 0 v.sized.0 v.boot;
      count = count;
      owned = λ q h ne. elim (ℕ_discrete q p) [
        | yes e ↦ rw (e, place-new) new-IsOwned
        | no other ↦
            let same = place-old q h other in
            let o = v.owned q h (rw same at ne) in
            rw same (o.0, still_used (place s q) o.0 o.1, o.2)
      ];
      distinct = λ q r hq hr ne e. elim (ℕ_discrete q p) [
        | yes eq ↦ elim (ℕ_discrete r p) [
          | yes er ↦ eq ∙ sym er
          | no nr ↦
              let e' : place s r ≡ c =
                sym (place-old r hr nr) ∙ sym e ∙ ap (place t) eq ∙ place-new in
              absurd (fresh-place r hr e')
        ]
        | no nq ↦ elim (ℕ_discrete r p) [
          | yes er ↦
              let e' : place s q ≡ c = sym (place-old q hq nq) ∙ e ∙ ap (place t) er ∙ place-new in
              absurd (fresh-place q hq e')
          | no nr ↦
              v.distinct q r hq hr (rw (place-old q hq nq) at ne)
                (sym (place-old q hq nq) ∙ e ∙ place-old r hr nr)
        ]
      ];
    }
