-- ===== src/Content/Extend.antt =====
-- fs.c: writei on a file that is no device, with its errors, up to the update of the inode.
use cse3320_proj1_ahmed_bahb.Common.{
  ℕ, ◌+◌, ◌-◌, ◌%◌, ◌/◌, ◌^◌, ◌<◌, ◌≤◌, ◌≡◌, ◌≢◌, refl, sym, ◌∙◌, ◌⊎◌, inl, inr, true, false,
  Option, none, some, ◌&&◌, ◌||◌, ltb, ◌==◌, if◌then◌else◌, arith, dec_lt,
}
use cse3320_proj1_ahmed_bahb.Common.Maps.{update_ne}
use cse3320_proj1_ahmed_bahb.Common.Outcome.{ok, panic, ◌>>=◌}
use cse3320_proj1_ahmed_bahb.Strings.{Memory}
use cse3320_proj1_ahmed_bahb.Strings.Move.{within}
use cse3320_proj1_ahmed_bahb.Bitmap.{Super, block_size}
use cse3320_proj1_ahmed_bahb.Bitmap.Bits.{AreBytes}
use cse3320_proj1_ahmed_bahb.Dinode.{ndirect, iblock, iupdate}
use cse3320_proj1_ahmed_bahb.Content.{Node, Device, t_dev, max_bytes, bad_range, grow_size, writei}
use cse3320_proj1_ahmed_bahb.Content.Places.{places, place, place_of, indirect, IsApart, IsFile}
use cse3320_proj1_ahmed_bahb.Content.Bmap.{place-slot, place-entry}
use cse3320_proj1_ahmed_bahb.Content.Bytes.{content, place_of-lt}
use cse3320_proj1_ahmed_bahb.Content.Write.{IsSparse, Written, write_loop-WritesTo}

-- `t` with another size, on a disk on which the inode is up to date.
module _ (sb : Super) (inum : ℕ) (t : Node) (away : IsApart sb t (iblock inum sb)) (size : ℕ) where
  abbrev pub grown : Node
  grown =
      let f = record t.fields { size = size } in
      record { disk = iupdate sb t.disk inum f; fields = f }

  grown-disk : (b : ℕ) → iblock inum sb ≢ b → grown.disk b ≡ t.disk b
  unfolding iupdate
  grown-disk b ne = update_ne t.disk (iblock inum sb) b _ ne

  away-place : (p : ℕ) → p < places → iblock inum sb ≢ place t p
  away-place p h e = away.2 p h (sym e)

  indirect-place : place t ndirect ≡ indirect t
  indirect-place = place-slot t ndirect (omega arith)

  place-grown : (p : ℕ) → p < places → place grown p ≡ place t p
  place-grown p h = elim (dec_lt p 13) [
    | yes near ↦ place-slot grown p near ∙ sym (place-slot t p near)
    | no far ↦
        let e : 13 + (p - 13) ≡ p = omega arith in
        let ne : iblock inum sb ≢ indirect t =
          λ z. away-place ndirect (omega arith) (z ∙ sym indirect-place) in
        let same = grown-disk (indirect t) ne in
        let r : place grown (13 + (p - 13)) ≡ place t (13 + (p - 13)) =
          rw (place-entry grown (p - 13), place-entry t (p - 13), same) refl in
        rw e at r
  ]

  pub content-grown : (x : ℕ) → x < max_bytes → content grown x ≡ content t x
  unfolding content
  content-grown x h =
      let q = place_of (x / block_size) in
      let hq = place_of-lt (x / block_size) (omega arith) in
      let e = place-grown (place_of (x / block_size)) hq in
      let d =
        grown-disk (place t (place_of (x / block_size)))
          (away-place (place_of (x / block_size)) hq) in
      rw (e, d) refl

module _ (devsw : ℕ → Option Device) (sb : Super) (s : Node) (v : IsFile sb s)
    (regular : s.fields.type ≢ t_dev) (small : s.fields.size ≤ max_bytes) (inum : ℕ) (src : Memory)
    (bytes : AreBytes src) (a off n : ℕ) (ho : off < 2 ^ 32) (hn : n < 2 ^ 32) where
  no_device : (s.fields.type == t_dev) ≡ false
  no_device = ground arith

  -- `writei` up to the loop.
  pub writei-cases :
      (((s.fields.size < off) ⊎ (max_bytes < off + n))
        × (writei devsw sb inum s src a off n ≡ ok (none, s)))
      ⊎ ((t : Node) × (off ≤ s.fields.size)
          × (off + n ≤ max_bytes)
          × (writei devsw sb inum s src a off n
              ≡ (grow_size sb inum t off n >>= λ u. ok (some n, u)))
          × Written sb s src a off n t)
      ⊎ ((writei devsw sb inum s src a off n ≡ panic) × IsSparse s off n)
  unfolding writei
  writei-cases = elim (dec_lt s.fields.size off) [
    | yes past ↦
        let b : (bad_range s.fields.size off n || ltb max_bytes ((off + n) % 2 ^ 32)) ≡ true =
          ground arith in
        inl (inl past, rw (no_device, b) refl)
    | no inside ↦ elim (dec_lt max_bytes (off + n)) [
      | yes large ↦
          let b : (bad_range s.fields.size off n || ltb max_bytes ((off + n) % 2 ^ 32)) ≡ true =
            ground arith in
          inl (inr large, rw (no_device, b) refl)
      | no fits ↦
          let b : (bad_range s.fields.size off n || ltb max_bytes ((off + n) % 2 ^ 32)) ≡ false =
            ground arith in
          elim (write_loop-WritesTo n sb s src a off n (omega arith) (omega arith) bytes v) [
            | inl (t, r, w) ↦ inr (inl (t, omega arith, omega arith, rw (no_device, b, r) refl, w))
            | inr (r, z) ↦ inr (inr (rw (no_device, b, r) refl, z))
          ]
    ]
  ]

  module _ (away : IsApart sb s (iblock inum sb)) where
    grow_size-returns :
        (t : Node)
        → off ≤ s.fields.size
        → off + n ≤ max_bytes
        → Written sb s src a off n t
        → (u : Node) × (grow_size sb inum t off n ≡ ok u)
          × (u.fields.size ≡ (if ltb s.fields.size (off + n) then off + n else s.fields.size))
          × (u.fields.type ≡ s.fields.type)
          × ((x : ℕ) → x < max_bytes → content u x ≡ content t x)
    unfolding grow_size
    grow_size-returns t lo hi w =
        let same = w.fields.0 in
        elim (dec_lt s.fields.size (off + n)) [
          | yes more ↦
              let g : (ltb 0 n && ltb t.fields.size (off + n)) ≡ true = rw same (ground arith) in
              let g' : ltb s.fields.size (off + n) ≡ true = ground arith in
              let calls = v.calls (iblock inum sb) in
              let back = calls.0 in
              let logged = calls.1 in
              let apart = w.apart (iblock inum sb) away in
              (
                grown sb inum t apart (off + n),
                rw (g, back, logged) refl,
                rw g' refl,
                w.fields.1,
                content-grown sb inum t apart (off + n),
              )
          | no within_ ↦
              let g : (ltb 0 n && ltb t.fields.size (off + n)) ≡ false = rw same (ground arith) in
              let g' : ltb s.fields.size (off + n) ≡ false = ground arith in
              (t, rw g refl, rw g' same, w.fields.1, λ x h. refl)
        ]

    -- Writing to a file that is in order, whose inode is in a block in use that is none of the file's, where no
    -- call of `bread` or `log_write` panics: an offset past the size, or a range past the largest size of a
    -- file, gives -1 and changes nothing; otherwise the number of bytes is returned, and in the file that is
    -- left the bytes of the range are those of the source, the other bytes and the type are as before, and
    -- the size has grown to the end of the range if that is beyond it. A panic needs a byte in the range that
    -- has no block.
    pub writei_lem :
        (((s.fields.size < off) ⊎ (max_bytes < off + n))
          × (writei devsw sb inum s src a off n ≡ ok (none, s)))
        ⊎ ((u : Node) × (off ≤ s.fields.size)
            × (off + n ≤ max_bytes)
            × (writei devsw sb inum s src a off n ≡ ok (some n, u))
            × ((x : ℕ)
                → x < max_bytes
                → content u x ≡ (if within x off n then src (a + (x - off)) else content s x))
            × (u.fields.size ≡ (if ltb s.fields.size (off + n) then off + n else s.fields.size))
            × (u.fields.type ≡ s.fields.type))
        ⊎ ((writei devsw sb inum s src a off n ≡ panic) × IsSparse s off n)
    writei_lem = elim writei-cases [
      | inl bad ↦ inl bad
      | inr (inl (t, lo, hi, e, w)) ↦
          let (u, g, size, type, kept) = grow_size-returns t lo hi w in
          inr (inl (u, lo, hi, e ∙ rw g refl, λ x h. kept x h ∙ w.bytes x h, size, type))
      | inr (inr bad) ↦ inr (inr bad)
    ]
