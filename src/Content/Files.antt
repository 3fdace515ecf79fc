-- ===== src/Content/Files.antt =====
-- fs.c: readi and writei on a file that is no device, with their errors.
use cse3320_proj1_ahmed_bahb.Common.{
  ℕ, ◌+◌, ◌-◌, ◌^◌, ◌<◌, ◌≤◌, ◌≡◌, ◌≢◌, refl, ◌⊎◌, inl, inr, true, false, Option, none, some, ◌==◌,
  min, arith, dec_lt,
}
use cse3320_proj1_ahmed_bahb.Common.Outcome.{ok, panic}
use cse3320_proj1_ahmed_bahb.Strings.{Memory}
use cse3320_proj1_ahmed_bahb.Bitmap.{Super}
use cse3320_proj1_ahmed_bahb.Content.{Node, Device, t_dev, max_bytes, bad_range, cut_off, readi}
use cse3320_proj1_ahmed_bahb.Content.Places.{IsFile}
use cse3320_proj1_ahmed_bahb.Content.Write.{IsSparse}
use cse3320_proj1_ahmed_bahb.Content.Read.{Fetched, read_loop-ReadsTo}

module _ (devsw : ℕ → Option Device) (sb : Super) (s : Node) (v : IsFile sb s)
    (regular : s.fields.type ≢ t_dev) (small : s.fields.size ≤ max_bytes) where
  no_device : (s.fields.type == t_dev) ≡ false
  no_device = ground arith

  -- Reading from a file that is in order, where no call of `bread` or `log_write` panics: an offset past
  -- the size or a range past 2 ^ 32 gives -1 and changes nothing; otherwise the bytes of the file from the
  -- offset on, up to its size, are copied to the destination and nothing else in memory is written, their
  -- number is returned, and the file keeps its bytes, its type and its size. A panic needs a byte in the
  -- range that has no block.
  pub readi_lem :
      (dst : Memory) (d off n : ℕ)
      → off < 2 ^ 32
      → n < 2 ^ 32
      → (((s.fields.size < off) ⊎ (2 ^ 32 ≤ off + n))
          × (readi devsw sb s dst d off n ≡ ok (none, s)))
        ⊎ ((m : Memory) × (t : Node) × (off ≤ s.fields.size)
            × (readi devsw sb s dst d off n ≡ ok (some (min n (s.fields.size - off), m), t))
            × Fetched sb s dst d off (min n (s.fields.size - off)) m t)
        ⊎ ((readi devsw sb s dst d off n ≡ panic) × IsSparse s off n)
  unfolding readi
  readi_lem dst d off n ho hn = elim (dec_lt s.fields.size off) [
    | yes past ↦
        let b : bad_range s.fields.size off n ≡ true = ground arith in
        inl (inl past, rw (no_device, b) refl)
    | no inside ↦ elim (dec_lt (off + n) (2 ^ 32)) [
      | no wraps ↦
          let b : bad_range s.fields.size off n ≡ true = ground arith in
          inl (inr (omega arith), rw (no_device, b) refl)
      | yes fits ↦
          let b : bad_range s.fields.size off n ≡ false = ground arith in
          let k : ℕ = min n (s.fields.size - off) in
          let e : cut_off s.fields.size off n ≡ min n (s.fields.size - off) = ground arith in
          let le : k ≤ n = ground arith in
          let h : off + k ≤ max_bytes = ground arith in
          elim (read_loop-ReadsTo k sb s dst d off k (omega arith) h v) [
            | inl (m, t, r, f) ↦ inr (inl (m, t, omega arith, rw (no_device, b, e, r) refl, f))
            | inr (r, (x, lo, hi, z)) ↦
                inr (inr (rw (no_device, b, e, r) refl, (x, lo, omega arith, z)))
          ]
    ]
  ]
