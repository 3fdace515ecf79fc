-- ===== src/Buffers/Reads.antt =====
-- bio.c and memide.c: `bread` gives the caller the block as the disk has it.
use mathlib.Core.Path.{subst}
use cse3320_proj1_ahmed_bahb.Common.{
  ℕ, ◌<◌, ◌≡◌, refl, sym, ◌∙◌, ◌⊎◌, inl, inr, Bool, true, false, if◌then◌else◌, leb, Option, none,
  some, List, arith, ℕ_discrete, Bool-cases,
}
use cse3320_proj1_ahmed_bahb.Common.Maps.{update, update_self, update_ne}
use cse3320_proj1_ahmed_bahb.Common.Outcome.{Outcome, ok, panic, ◌>>=◌}
use cse3320_proj1_ahmed_bahb.Bitmap.{Disk, block_size}
use cse3320_proj1_ahmed_bahb.Content.{copied}
use cse3320_proj1_ahmed_bahb.Buffers.{Buf, Bcache, set_buf, iderw, bread}
use cse3320_proj1_ahmed_bahb.Buffers.Search.{IsFor, IsSpare, Without}
use cse3320_proj1_ahmed_bahb.Buffers.Lookup.{
  Has, Has-middle, IsBcache, busied, reassigned, keep-IsUnique, bget_lem,
}

-- The buffer has the bytes of its block.
abbrev pub IsCopy : Disk → Buf → Type 0
IsCopy disk v = (i : ℕ) → i < block_size → v.bytes i ≡ disk v.blockno i

-- A buffer that nobody holds: what is dirty is valid, and what is valid and clean is the block of the disk.
abbrev pub IsIdle : Disk → Buf → Type 0
IsIdle disk v =
    (v.dirty ≡ true → v.valid ≡ true)
    × (v.dev ≡ 1 → v.valid ≡ true → v.dirty ≡ false → IsCopy disk v)

abbrev pub IsCurrent : Bcache → List ℕ → Type 0
IsCurrent s l = (b : ℕ) → Has b l → (s.buf b).busy ≡ false → IsIdle s.disk (s.buf b)

-- The buffer is the caller's, and has the block unless it waits to be written.
abbrev pub IsHeld : Disk → Buf → ℕ → Type 0
IsHeld disk v blockno =
    (v.dev ≡ 1)
    × (v.blockno ≡ blockno)
    × (v.busy ≡ true)
    × (v.valid ≡ true)
    × (v.dirty ≡ false → IsCopy disk v)

pub hold-IsCurrent :
    (s : Bcache) (l : List ℕ) (b : ℕ) (v : Buf)
    → v.busy ≡ true
    → IsCurrent s l
    → IsCurrent (set_buf s b v) l
hold-IsCurrent s l b v e h k has idle = elim (ℕ_discrete b k) [
  | yes z ↦ let q : v.busy ≡ false = rw (sym z, update_self s.buf b v) at idle in ground arith
  | no ne ↦ rw (update_ne s.buf b k v ne) (h k has (rw (update_ne s.buf b k v ne) at idle))
]

-- The buffer as `iderw` leaves it after a read.
abbrev pub filled : Disk → Buf → Buf
filled disk v = record v { valid = true; bytes = copied v.bytes 0 (disk v.blockno) 0 block_size }

filled-IsCopy : (disk : Disk) (v : Buf) → IsCopy disk (filled disk v)
filled-IsCopy disk v i h = ground arith

iderw-read :
    (s : Bcache) (b : ℕ) (w : Buf)
    → w.dev ≡ 1
    → w.blockno < s.disksize
    → w.busy ≡ true
    → w.valid ≡ false
    → w.dirty ≡ false
    → iderw (set_buf s b w) b ≡ ok (set_buf (set_buf s b w) b (filled s.disk w))
unfolding iderw
iderw-read s b w ed hk eb ev ey =
    let low : leb s.disksize w.blockno ≡ false = ground arith in
    rw (update_self s.buf b w, ed, eb, ev, ey, low) refl

-- What `bread` does with the buffer of `bget`.
complete : Bcache → ℕ → Outcome (Option ℕ × Bcache)
complete t b = if (t.buf b).valid then ok (some b, t) else (iderw t b >>= λ u. ok (some b, u))

complete-read :
    (t : Bcache) (b : ℕ) (u : Bcache)
    → (t.buf b).valid ≡ false
    → iderw t b ≡ ok u
    → complete t b ≡ ok (some b, u)
unfolding complete
complete-read t b u e e' = rw (e, e') refl

contra : (p q : Bool) → (p ≡ true → q ≡ true) → q ≡ false → p ≡ false
contra false q f e = refl
contra true q f e = sym (f refl) ∙ e

-- After `bread` on `s`, the caller holds the buffer `b` of `t`.
abbrev pub Filled : List ℕ → ℕ → ℕ → Bcache → Bcache → Type 0
Filled l b blockno s t =
    (t.disk ≡ s.disk) × IsHeld t.disk (t.buf b) blockno × IsBcache t l × IsCurrent t l

complete_lem :
    (l : List ℕ) (b blockno : ℕ) (s : Bcache) (w : Buf)
    → blockno < s.disksize
    → w.dev ≡ 1
    → w.blockno ≡ blockno
    → w.busy ≡ true
    → (w.valid ≡ false → w.dirty ≡ false)
    → (w.valid ≡ true → w.dirty ≡ false → IsCopy s.disk w)
    → IsBcache (set_buf s b w) l
    → IsCurrent s l
    → (t : Bcache) × (complete (set_buf s b w) b ≡ ok (some b, t)) × Filled l b blockno s t
unfolding complete
complete_lem l b blockno s w hk ed ek eb hd hv c h =
    let here = update_self s.buf b w in
    let held = hold-IsCurrent s l b w eb h in
    elim (Bool-cases w.valid) [
      | inl y ↦ (
        set_buf s b w,
        rw (complete, here, y) refl,
        (refl, rw (here) (ed, ek, eb, y, hv y), c, held),
      )
      | inr y ↦
          let f = filled s.disk w in
          let (r, len, u) = c in
          let low : w.blockno < s.disksize = omega arith in
          let u' = keep-IsUnique (update s.buf b w) l b f (rw (here) refl) (rw (here) refl) u in
          let call : complete (set_buf s b w) b ≡ ok (some b, set_buf (set_buf s b w) b f) =
            complete-read (set_buf s b w) b (set_buf (set_buf s b w) b f) (rw (here) y)
              (iderw-read s b w ed low eb y (hd y)) in
          (
            set_buf (set_buf s b w) b f,
            call,
            (
              refl,
              rw (update_self (update s.buf b w) b f)
                  (ed, ek, eb, refl, λ z. filled-IsCopy s.disk w),
              (r, len, u'),
              hold-IsCurrent (set_buf s b w) l b f eb held,
            ),
          )
    ]

-- The results of `bread` on the disk.
abbrev pub Reading : Bcache → List ℕ → ℕ → Type 0
Reading s l blockno =
    ((b : ℕ) × Has b l
      × IsFor 1 blockno (s.buf b)
      × ((s.buf b).busy ≡ true)
      × (bread s 1 blockno ≡ ok (none, s)))
    ⊎ (Without (λ b. IsFor 1 blockno (s.buf b)) l
        × Without (λ b. IsSpare (s.buf b)) l
        × (bread s 1 blockno ≡ panic))
    ⊎ ((b : ℕ) × (t : Bcache) × Has b l
        × (bread s 1 blockno ≡ ok (some b, t))
        × Filled l b blockno s t)

module _ (s : Bcache) (l : List ℕ) (c : IsBcache s l) (h : IsCurrent s l) (blockno : ℕ)
    (hk : blockno < s.disksize) where
  -- `bread` of a block of the disk, on a sound cache in which every valid, clean buffer that nobody holds is
  -- its block. It sleeps if another process holds the buffer of the block, and panics exactly if no
  -- buffer has the block and all are busy or dirty. Otherwise it returns a buffer of the list that is busy and
  -- valid and, unless dirty, has the bytes of the block on the disk; the disk is unchanged and the cache as
  -- sound as before.
  pub bread_lem : Reading s l blockno
  unfolding bread complete
  bread_lem = elim (bget_lem s l c 1 blockno) [
    | inl (b, has, hit, inl (y, e)) ↦ inl (b, has, hit, y, rw (bread, e) refl)
    | inl (b, has, (ed, ek), inr (y, e, c')) ↦
        let (idle, copy) = h b has y in
        let (t, f, out) =
          complete_lem l b blockno s (busied (s.buf b)) hk ed ek refl
            (contra (s.buf b).dirty (s.buf b).valid idle) (copy ed) c' h in
        inr (inr (b, t, has, rw (bread, e) f, out))
    | inr (fails, inl (xs, b, ys, el, clean, after, e, c')) ↦
        let (t, f, out) =
          complete_lem l b blockno s (reassigned (s.buf b) 1 blockno) hk refl refl refl (λ z. refl)
            (λ z. ground arith) c' h in
        inr (inr (b, t, subst (Has b) (sym el) (Has-middle xs b ys), rw (bread, e) f, out))
    | inr (fails, inr (none_clean, e)) ↦ inr (inl (fails, none_clean, rw (bread, e) refl))
  ]
