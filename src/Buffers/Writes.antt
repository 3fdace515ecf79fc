-- ===== src/Buffers/Writes.antt =====
-- bio.c and memide.c: what is written by `bwrite` is what `bread` gives after `brelse`.
use mathlib.Core.Path.{subst}
use cse3320_proj1_ahmed_bahb.Common.{
  ℕ, ◌<◌, ◌≡◌, ◌≢◌, refl, sym, ap, ◌∙◌, inl, inr, Bool, true, false, if◌then◌else◌, ◌&&◌, leb, some,
  List, ◌∷◌, ◌++◌, arith, ℕ_discrete,
}
use cse3320_proj1_ahmed_bahb.Common.Maps.{update, update_self, update_ne}
use cse3320_proj1_ahmed_bahb.Common.Outcome.{Outcome, ok, panic}
use cse3320_proj1_ahmed_bahb.Bitmap.{Disk, block_size}
use cse3320_proj1_ahmed_bahb.Content.{copied}
use cse3320_proj1_ahmed_bahb.Buffers.{Buf, Bcache, set_buf, iderw, bget, bread, bwrite, brelse}
use cse3320_proj1_ahmed_bahb.Buffers.Search.{IsFor, Without-Lacks}
use cse3320_proj1_ahmed_bahb.Buffers.Lookup.{Has, IsBcache, busied, keep-IsUnique, bget_lem}
use cse3320_proj1_ahmed_bahb.Buffers.Reads.{IsIdle, IsCurrent}
use cse3320_proj1_ahmed_bahb.Buffers.Release.{freed, brelse-IsBcache}

-- The buffer as `bwrite` leaves it, and the disk.
abbrev pub clean : Buf → Buf
clean v = record v { dirty = false; valid = true }

abbrev pub stored : Disk → Buf → Disk
stored disk v = update disk v.blockno (copied (disk v.blockno) 0 v.bytes 0 block_size)

abbrev pub written : Bcache → ℕ → Bcache
written s b = record (set_buf s b (record (s.buf b) { dirty = true })) {
  buf = update (update s.buf b (record (s.buf b) { dirty = true })) b (clean (s.buf b));
  disk = stored s.disk (s.buf b);
}

-- A valid buffer that nobody holds is found, on any list.
bread-hit :
    (s : Bcache) (l : List ℕ) (b : ℕ)
    → IsBcache s l
    → Has b l
    → (s.buf b).dev ≡ 1
    → (s.buf b).busy ≡ false
    → (s.buf b).valid ≡ true
    → bread s 1 (s.buf b).blockno ≡ ok (some b, set_buf s b (busied (s.buf b)))
unfolding bread
bread-hit s l b c has ed y v =
    let k = (s.buf b).blockno in
    let (r, len, u) = c in
    let same : (a : ℕ) → Has a l → IsFor 1 k (s.buf a) → a ≡ b =
      λ a ha (da, ka). u a b ha has (da ∙ sym ed) ka (λ z. ground arith) in
    elim (bget_lem s l c 1 k) [
      | inl (a, ha, hit, inl (ya, e)) ↦
          let q : (s.buf b).busy ≡ true = rw (sym (same a ha hit)) ya in absurd (ground arith)
      | inl (a, ha, hit, inr (ya, e, c')) ↦
          let e' =
            subst (λ x. bget s 1 k ≡ ok (some x, set_buf s x (busied (s.buf x)))) (same a ha hit)
              e in
          rw (e', update_self s.buf b (busied (s.buf b)), v) refl
      | inr (fails, rest) ↦
          absurd (has (Without-Lacks (λ x. IsFor 1 k (s.buf x)) b l (ed, refl) fails))
    ]

if_true : (p : Bool) (x y : Outcome Bcache) → p ≡ true → (if p then x else y) ≡ x
if_true p x y e = rw (e) refl

iderw-write :
    (s : Bcache) (b : ℕ) (w : Buf)
    → w.dev ≡ 1
    → w.blockno < s.disksize
    → w.busy ≡ true
    → w.dirty ≡ true
    → iderw (set_buf s b w) b
      ≡ ok (record (set_buf s b w) {
        buf = update (update s.buf b w) b (clean w);
        disk = stored s.disk w;
      })
unfolding iderw
iderw-write s b w ed hk eb ey =
    let low : leb s.disksize w.blockno ≡ false = ground arith in
    let valid : (w.valid && false) ≡ false = ground arith in
    rw (update_self s.buf b w, ed, eb, ey, low, valid) refl

-- The results of `bwrite`, `brelse` and `bread`, one after the other.
abbrev pub WrittenThrough : Bcache → ℕ → Type 0
WrittenThrough s b =
    (t : Bcache) × (u : Bcache) × (m : List ℕ) × (bwrite s b ≡ ok t)
    × ((i : ℕ) → i < block_size → t.disk (s.buf b).blockno i ≡ (s.buf b).bytes i)
    × ((k : ℕ) → k ≢ (s.buf b).blockno → t.disk k ≡ s.disk k)
    × (brelse t b ≡ ok u)
    × IsBcache u m
    × IsCurrent u m
    × (bread u 1 (s.buf b).blockno ≡ ok (some b, set_buf u b (busied (clean (s.buf b)))))
    × (u.disk ≡ t.disk)

module _ (s : Bcache) (l : List ℕ) (b : ℕ) (c : IsBcache s l) (h : IsCurrent s l) (has : Has b l)
    (busy : (s.buf b).busy ≡ true) (ed : (s.buf b).dev ≡ 1)
    (hk : (s.buf b).blockno < s.disksize) where
  bwrite_ok : bwrite s b ≡ ok (written s b)
  unfolding bwrite
  bwrite_ok =
      let w = record (s.buf b) { dirty = true } in
      if_true (s.buf b).busy (iderw (set_buf s b w) b) panic busy
      ∙ iderw-write s b w ed hk busy refl

  written-IsBcache : IsBcache (written s b) l
  written-IsBcache =
      let (r, len, u) = c in
      let w = record (s.buf b) { dirty = true } in
      let here = update_self s.buf b w in
      (
        r,
        len,
        keep-IsUnique (update s.buf b w) l b (clean (s.buf b)) (rw (here) refl) (rw (here) refl)
            (keep-IsUnique s.buf l b w refl refl u),
      )

  -- No other buffer has the block that changed.
  other :
      (k : ℕ)
      → Has k l
      → b ≢ k
      → IsIdle s.disk (s.buf k)
      → IsIdle (stored s.disk (s.buf b)) (s.buf k)
  other k hk ne (valid, copy) =
      let (r, len, u) = c in
      (
        valid,
        λ dk vk ck i hi.
            let apart : (s.buf b).blockno ≢ (s.buf k).blockno =
              λ e. ne (u b k has hk (ed ∙ sym dk) e (λ z. ground arith)) in
            let same =
              update_ne s.disk (s.buf b).blockno (s.buf k).blockno
                (copied (s.disk (s.buf b).blockno) 0 (s.buf b).bytes 0 block_size) apart in
            rw (same) (copy dk vk ck i hi),
      )

  written-IsCurrent : IsCurrent (written s b) l
  written-IsCurrent k hk y =
      let w = record (s.buf b) { dirty = true } in
      let here = update_self (update s.buf b w) b (clean (s.buf b)) in
      elim (ℕ_discrete b k) [
        | yes e ↦ let q : (s.buf b).busy ≡ false = rw (sym e, here) at y in absurd (ground arith)
        | no ne ↦
            let away : (written s b).buf k ≡ s.buf k =
              update_ne (update s.buf b w) b k (clean (s.buf b)) ne ∙ update_ne s.buf b k w ne in
            rw (away) (other k hk ne (h k hk (rw (away) at y)))
      ]

  -- A process that holds the buffer of a block of the disk, in a cache as `bread` leaves it, can call
  -- `bwrite` and then `brelse`: neither panics. The disk then has the bytes of the buffer in that block and
  -- every other block as before, the cache is sound, and a `bread` of the block returns the same buffer
  -- with the same bytes.
  pub write_through : WrittenThrough s b
  write_through =
      let t = written s b in
      let v = s.buf b in
      let here = update_self (update s.buf b (record v { dirty = true })) b (clean v) in
      let block = update_self s.disk v.blockno (copied (s.disk v.blockno) 0 v.bytes 0 block_size) in
      let bytes : (i : ℕ) → i < block_size → t.disk v.blockno i ≡ v.bytes i =
        λ i hi. rw (block) (ground arith) in
      let busy' : (t.buf b).busy ≡ true = rw (here) busy in
      let idle : IsIdle t.disk (t.buf b) =
        rw (here) (λ z. refl, λ z z' z'' i hi. sym (bytes i hi)) in
      let (xs, ys, u, e, call, same, disk, size, bc, cur) =
        brelse-IsBcache t l b written-IsBcache written-IsCurrent has busy' idle in
      let now : u.buf b ≡ freed (clean v) =
        rw (same) (update_self t.buf b (freed (t.buf b)) ∙ ap freed here) in
      let found =
        bread-hit u (b ∷ (xs ++ ys)) b bc (λ z. z.0 refl) (rw (now) ed) (rw (now) refl)
          (rw (now) refl) in
      (
        t,
        u,
        b ∷ (xs ++ ys),
        bwrite_ok,
        bytes,
        λ k ne.
            update_ne s.disk v.blockno k (copied (s.disk v.blockno) 0 v.bytes 0 block_size)
              (λ z. ne (sym z)),
        call,
        bc,
        cur,
        subst (λ x. bread u 1 x.blockno ≡ ok (some b, set_buf u b (busied x))) now found,
        disk,
      )
