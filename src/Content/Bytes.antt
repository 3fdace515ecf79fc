-- ===== src/Content/Bytes.antt =====
-- fs.c: a file as a sequence of bytes. A place without a block holds zeros.
use cse3320_proj1_ahmed_bahb.Common.{
  ℕ, ◌+◌, ◌-◌, ◌/◌, ◌%◌, ◌<◌, ◌≡◌, ◌≢◌, refl, sym, ap, ◌∙◌, false, ◌&&◌, ◌==◌, if◌then◌else◌, arith,
  dec_lt, ℕ_discrete,
}
use cse3320_proj1_ahmed_bahb.Common.Maps.{update, update_self, update_ne}
use cse3320_proj1_ahmed_bahb.Strings.{Memory}
use cse3320_proj1_ahmed_bahb.Strings.Move.{within}
use cse3320_proj1_ahmed_bahb.Bitmap.{Super, block_size, bblock, bpb, bit_at}
use cse3320_proj1_ahmed_bahb.Bitmap.Bits.{AreBytes}
use cse3320_proj1_ahmed_bahb.Bitmap.Marks.{used}
use cse3320_proj1_ahmed_bahb.Dinode.{ndirect}
use cse3320_proj1_ahmed_bahb.Content.{Node, copied, max_bytes}
use cse3320_proj1_ahmed_bahb.Content.Places.{places, place, place_of, indirect, IsApart, IsFile}
use cse3320_proj1_ahmed_bahb.Content.Bmap.{Mapped, place-entry, place-slot}

unfoldable pub content : Node → ℕ → ℕ
content s x =
    let b = place s (place_of (x / block_size)) in if b == 0 then 0 else s.disk b (x % block_size)

pub place_of-lt : (bn : ℕ) → bn < 140 → place_of bn < places
place_of-lt bn h = ground arith

pub place_of-ne : (bn : ℕ) → place_of bn ≢ ndirect
place_of-ne bn = ground arith

place_of-inj : (b c : ℕ) → place_of b ≡ place_of c → b ≡ c
place_of-inj b c e = ground arith

-- A place that has a block keeps one.
pub Mapped-keeps :
    (sb : Super) (s : Node) (p c : ℕ) (t : Node) (q : ℕ)
    → Mapped sb s p c t
    → q < places
    → q ≢ ndirect
    → place s q ≢ 0
    → place t q ≢ 0
Mapped-keeps sb s p c t q m h nd nz = elim (ℕ_discrete q p) [
  | yes e ↦ rw (e, m.here) m.present
  | no ne ↦ rw (m.others q h ne nd) nz
]

pub content-Mapped :
    (sb : Super) (s : Node) (p c : ℕ) (t : Node)
    → Mapped sb s p c t
    → (x : ℕ) → x < max_bytes
    → content t x ≡ content s x
unfolding content
content-Mapped sb s p c t m x h =
    let q : ℕ = place_of (x / block_size) in
    let hq : q < places = place_of-lt (x / block_size) (omega arith) in
    let nd : q ≢ ndirect = place_of-ne (x / block_size) in
    elim (ℕ_discrete (place s q) 0) [
      | yes z ↦ elim (ℕ_discrete q p) [
        | yes e ↦
            let pos : (c == 0) ≡ false = let f = m.present in ground arith in
            let there : place t q ≡ c = ap (place t) e ∙ m.here in
            let clear = m.zeroed (sym (ap (place s) e) ∙ z) (x % block_size) (omega arith) in
            rw (z, there, pos) clear
        | no ne ↦ let same : place t q ≡ 0 = m.others q hq ne nd ∙ z in rw (z, same) refl
      ]
      | no nz ↦ elim (ℕ_discrete q p) [
        | yes e ↦ rw (m.same (rw e at nz)) refl
        | no ne ↦
            let same = m.others q hq ne nd in let kept = m.data_ q hq nd nz in rw (same, kept) refl
      ]
    ]

module _ (sb : Super) (t : Node) (v : IsFile sb t) (bn : ℕ) (h : bn < 140) (src : Memory)
    (bytes : AreBytes src) (some_block : place t (place_of bn) ≢ 0) (o a m : ℕ) where
  abbrev p : ℕ
  p = place_of bn

  abbrev c : ℕ
  c = place t p

  abbrev pub wrote : Node
  wrote = record t { disk = update t.disk c (copied (t.disk c) o src a m) }

  hp : p < places
  hp = place_of-lt bn h

  wrote-ne : (b : ℕ) → c ≢ b → wrote.disk b ≡ t.disk b
  wrote-ne b ne = update_ne t.disk c b _ ne

  bitmap_kept : (j : ℕ) → j < sb.size → wrote.disk (bblock j sb) ≡ t.disk (bblock j sb)
  bitmap_kept j hj = wrote-ne (bblock j sb) (λ e. (v.owned p hp some_block).2 j hj (sym e))

  root_kept : indirect t ≢ 0 → wrote.disk (indirect t) ≡ t.disk (indirect t)
  root_kept nz =
      let at = place-slot t ndirect (omega arith) in
      wrote-ne (indirect t)
        (λ e. place_of-ne bn (v.distinct p ndirect hp (omega arith) some_block (e ∙ sym at)))

  entry-wrote : (k : ℕ) → place wrote (13 + k) ≡ place t (13 + k)
  entry-wrote k = elim (ℕ_discrete (indirect t) 0) [
    | yes z ↦ rw (place-entry wrote k, place-entry t k, z) refl
    | no nz ↦ rw (place-entry wrote k, place-entry t k, root_kept nz) refl
  ]

  pub place-wrote : (q : ℕ) → q < places → place wrote q ≡ place t q
  place-wrote q hq = elim (dec_lt q 13) [
    | yes near ↦ rw (place-slot wrote q near, place-slot t q near) refl
    | no far ↦ let e : 13 + (q - 13) ≡ q = omega arith in rw e at (entry-wrote (q - 13))
  ]

  used-wrote : (j : ℕ) → j < sb.size → used sb wrote.disk j ≡ used sb t.disk j
  used-wrote j hj = ap (λ (m : Memory). bit_at m (j % bpb)) (bitmap_kept j hj)

  bytes-wrote : (b : ℕ) → AreBytes (wrote.disk b)
  bytes-wrote b i = elim (ℕ_discrete c b) [
    | yes e ↦
        let x = v.bitmap.bytes c i in
        let y = bytes (a + (i - o)) in
        rw (← e, update_self t.disk c (copied (t.disk c) o src a m)) (ground arith)
    | no ne ↦ rw (wrote-ne b ne) (v.bitmap.bytes b i)
  ]

  pub wrote-IsApart : (b : ℕ) → IsApart sb t b → IsApart sb wrote b
  wrote-IsApart b (h, u, f) = (h, used-wrote b h ∙ u, λ q hq e. f q hq (sym (place-wrote q hq) ∙ e))

  pub wrote-IsFile : IsFile sb wrote
  wrote-IsFile = record {
    calls = v.calls;
    bitmap = record {
      bytes = bytes-wrote;
      inside = v.bitmap.inside;
      reserved = λ j hj. used-wrote (bblock j sb) (v.bitmap.inside j hj) ∙ v.bitmap.reserved j hj;
    };
    sized = v.sized;
    boot = used-wrote 0 v.sized.0 ∙ v.boot;
    count = v.count;
    owned = λ q hq ne.
        let same = place-wrote q hq in
        let own = v.owned q hq (rw same at ne) in
        rw same (own.0, used-wrote (place t q) own.0 ∙ own.1, own.2);
    distinct = λ q r hq hr ne e.
        v.distinct q r hq hr (rw (place-wrote q hq) at ne)
          (sym (place-wrote q hq) ∙ e ∙ place-wrote r hr);
  }

  pub content-wrote :
      (x : ℕ)
      → x < max_bytes
      → content wrote x ≡ (
          if x / block_size == bn && within (x % block_size) o m
          then src (a + (x % block_size - o))
          else content t x)
  unfolding content
  content-wrote x hx =
      let q : ℕ = place_of (x / block_size) in
      let hq : q < places = place_of-lt (x / block_size) (omega arith) in
      let same = place-wrote q hq in
      elim (ℕ_discrete (x / block_size) bn) [
        | yes e ↦
            let pos : (c == 0) ≡ false = ground arith in
            let now = update_self t.disk c (copied (t.disk c) o src a m) in
            rw (same, e, pos, now) (ground arith)
        | no ne ↦
            let f : (x / block_size == bn) ≡ false = ground arith in
            elim (ℕ_discrete (place t q) 0) [
              | yes z ↦ rw (same, z, f) refl
              | no nz ↦
                  let other = wrote-ne (place t q) (λ e.
                    ne (
                      place_of-inj (x / block_size) bn
                        (sym (v.distinct p q hp hq some_block e)))) in
                  rw (same, other, f) refl
            ]
      ]
