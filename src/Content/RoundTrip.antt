-- ===== src/Content/RoundTrip.antt =====
-- fs.c: readi after writei on the same range.
use cse3320_proj1_ahmed_bahb.Common.{
  ℕ, ◌+◌, ◌-◌, ◌<◌, ◌≤◌, ◌≡◌, ◌≢◌, refl, sym, ◌∙◌, ◌⊎◌, inl, inr, false, Option, some, ◌&&◌, ltb,
  min, arith,
}
use cse3320_proj1_ahmed_bahb.Common.Outcome.{ok, panic}
use cse3320_proj1_ahmed_bahb.Strings.{Memory}
use cse3320_proj1_ahmed_bahb.Bitmap.{Super}
use cse3320_proj1_ahmed_bahb.Bitmap.Bits.{AreBytes}
use cse3320_proj1_ahmed_bahb.Content.{Node, Device, t_dev, max_bytes, readi, grow_size, writei}
use cse3320_proj1_ahmed_bahb.Content.Places.{IsFile}
use cse3320_proj1_ahmed_bahb.Content.Write.{IsSparse, Written}
use cse3320_proj1_ahmed_bahb.Content.Files.{readi_lem}
use cse3320_proj1_ahmed_bahb.Content.Extend.{writei-cases}

module _ (devsw : ℕ → Option Device) (sb : Super) (s : Node) (v : IsFile sb s)
    (regular : s.fields.type ≢ t_dev) (small : s.fields.size ≤ max_bytes) (inum : ℕ) (src : Memory)
    (bytes : AreBytes src) (a off n : ℕ) (inside : off + n ≤ s.fields.size) where
  no_growth : (t : Node) → Written sb s src a off n t → grow_size sb inum t off n ≡ ok t
  unfolding grow_size
  no_growth t w =
      let same = w.fields.0 in
      let g : (ltb 0 n && ltb t.fields.size (off + n)) ≡ false = rw same (ground arith) in rw g refl

  read_back :
      (t : Node) (dst : Memory) (d : ℕ)
      → Written sb s src a off n t
      → (m : Memory) × (u : Node) × (readi devsw sb t dst d off n ≡ ok (some (n, m), u))
        × ((j : ℕ) → j < n → m (d + j) ≡ src (a + j))
  read_back t dst d w =
      let same = w.fields.0 in
      let all : min n (t.fields.size - off) ≡ n = rw same (ground arith) in
      let r =
        readi_lem devsw sb t w.file (λ e. regular (sym w.fields.1 ∙ e)) (rw same small) dst d off n
          (omega arith) (omega arith) in
      elim r [
        | inl (bad, e) ↦ elim bad [
          | inl past ↦ absurd (let p = rw same at past in omega arith)
          | inr wraps ↦ absurd (omega arith)
        ]
        | inr (inl (m, u, lo, e, f)) ↦ (
          m,
          u,
          rw all at e,
          λ j lt.
              let got = f.memory (d + j) in
              let put = w.bytes (off + (d + j - d)) (omega arith) in
              let e1 : d + j - d ≡ j = omega arith in
              let e2 : off + j - off ≡ j = omega arith in
              let got' = rw (all, e1) at got in let put' = rw (e1, e2) at put in ground arith,
        )
        | inr (inr (e, (x, lo, hi, z))) ↦ absurd (w.present x lo hi z)
      ]

  -- Where no call of `bread` or `log_write` panics: what `writei` stores in a range inside a file that is in
  -- order, `readi` of the range from the file that
  -- `writei` left copies out, for any destination: both return the number of bytes asked for. `writei`
  -- panics only if some byte in the range has no block.
  pub readi-writei :
      (dst : Memory) (d : ℕ)
      → ((t : Node) × (writei devsw sb inum s src a off n ≡ ok (some n, t))
          × ((m : Memory) × (u : Node) × (readi devsw sb t dst d off n ≡ ok (some (n, m), u))
              × ((j : ℕ) → j < n → m (d + j) ≡ src (a + j))))
        ⊎ ((writei devsw sb inum s src a off n ≡ panic) × IsSparse s off n)
  readi-writei dst d =
      elim (writei-cases devsw sb s v regular small inum src bytes a off n (omega arith)
        (omega arith)) [
          | inl (bad, e) ↦ absurd (elim bad [ inl past ↦ omega arith | inr large ↦ omega arith ])
          | inr (inl (t, lo, hi, e, w)) ↦ inl (t, e ∙ rw (no_growth t w) refl, read_back t dst d w)
          | inr (inr bad) ↦ inr bad
        ]
