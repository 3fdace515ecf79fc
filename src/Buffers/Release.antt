-- ===== src/Buffers/Release.antt =====
-- bio.c: what `binit` and `brelse` keep of the buffers.
use mathlib.Core.Path.{subst}
use cse3320_proj1_ahmed_bahb.Common.{
  ℕ, zero, suc, ◌+◌, ◌≤◌, ◌<◌, ◌≡◌, ◌≢◌, refl, sym, ap, ◌∙◌, true, false, List, [], ◌∷◌, ◌++◌, All,
  arith, ℕ_discrete, length, length-append,
}
use cse3320_proj1_ahmed_bahb.Common.Maps.{update, update_self, update_ne}
use cse3320_proj1_ahmed_bahb.Common.Outcome.{ok}
use cse3320_proj1_ahmed_bahb.Bitmap.{Disk}
use cse3320_proj1_ahmed_bahb.Buffers.{
  Buf, Bcache, head, nbuf, no_dev, set_buf, set_next, set_prev, push_front, init_from, binit,
  brelse,
}
use cse3320_proj1_ahmed_bahb.Buffers.Ring.{Lacks, Lacks-append, Lacks-left, Lacks-right}
use cse3320_proj1_ahmed_bahb.Buffers.Order.{IsRing, down, binit_lem, brelse_lem}
use cse3320_proj1_ahmed_bahb.Buffers.Lookup.{Has, IsUnique, IsBcache, keep-IsUnique}
use cse3320_proj1_ahmed_bahb.Buffers.Reads.{IsIdle, IsCurrent}

Lacks-forward :
    (k : ℕ) (xs : List ℕ) (b : ℕ) (ys : List ℕ)
    → Lacks k (xs ++ (b ∷ ys))
    → Lacks k (b ∷ (xs ++ ys))
Lacks-forward k xs b ys h =
    let r = Lacks-right k xs (b ∷ ys) h in
    (r.0, Lacks-append k xs ys (Lacks-left k xs (b ∷ ys) h) r.1)

Lacks-back :
    (k : ℕ) (xs : List ℕ) (b : ℕ) (ys : List ℕ)
    → Lacks k (b ∷ (xs ++ ys))
    → Lacks k (xs ++ (b ∷ ys))
Lacks-back k xs b ys (ne, h) =
    Lacks-append k xs (b ∷ ys) (Lacks-left k xs ys h) (ne, Lacks-right k xs ys h)

pub Has-split :
    (b : ℕ) (l : List ℕ) → Has b l → (xs : List ℕ) × (ys : List ℕ) × (l ≡ xs ++ (b ∷ ys))
Has-split b [] h = absurd (h tt)
Has-split b (c ∷ l) h = elim (ℕ_discrete c b) [
  | yes e ↦ ([], l, ap (λ k. k ∷ l) e)
  | no ne ↦ let (xs, ys, e) = Has-split b l (λ k. h (ne, k)) in (c ∷ xs, ys, ap (λ k. c ∷ k) e)
]

Has-All : (P : ℕ → Type 0) (b : ℕ) (l : List ℕ) → All P l → Has b l → P b
Has-All P b [] a h = absurd (h tt)
Has-All P b (c ∷ l) (p, a) h = elim (ℕ_discrete c b) [
  | yes e ↦ subst P e p
  | no ne ↦ Has-All P b l a (λ k. h (ne, k))
]

pub All-down : (m n : ℕ) → n ≤ m → All (λ k. k < m) (down n)
All-down m zero h = tt
All-down m (suc n) h = (omega arith, All-down m n (omega arith))

pub length-down : (n : ℕ) → length (down n) ≡ n
length-down zero = refl
length-down (suc n) = let e = length-down n in omega arith

contradiction : true ≡ false → ⊥
contradiction e = ground arith

-- The flags of a buffer in memory that is all zeros.
abbrev pub IsBlank : Buf → Type 0
IsBlank v = (v.valid ≡ false) × (v.dirty ≡ false)

update-IsBlank :
    (buf : ℕ → Buf) (b : ℕ)
    → ((k : ℕ) → IsBlank (buf k))
    → (k : ℕ) → IsBlank (update buf b (record (buf b) { dev = no_dev }) k)
update-IsBlank buf b h k = elim (ℕ_discrete b k) [
  | yes e ↦ rw (sym e, update_self buf b (record (buf b) { dev = no_dev })) (h b)
  | no ne ↦ rw (update_ne buf b k (record (buf b) { dev = no_dev }) ne) (h k)
]

init_from-IsBlank :
    (n : ℕ) (s : Bcache) (b : ℕ)
    → ((k : ℕ) → IsBlank (s.buf k))
    → (k : ℕ) → IsBlank ((init_from n s b).buf k)
unfolding init_from
init_from-IsBlank zero s b h = h
init_from-IsBlank (suc n) s b h =
    init_from-IsBlank n (set_buf (push_front s b) b (record (s.buf b) { dev = no_dev })) (b + 1)
      (update-IsBlank s.buf b h)

binit-IsBlank : (s : Bcache) → ((k : ℕ) → IsBlank (s.buf k)) → (k : ℕ) → IsBlank ((binit s).buf k)
unfolding binit
binit-IsBlank s h = init_from-IsBlank nbuf (set_next (set_prev s head head) head head) 0 h

-- `binit`, on buffers none of which is valid or dirty, makes a list of all NBUF buffers, linked in both
-- directions, the last buffer first. No block is held twice, and a buffer that nobody holds and that is valid
-- and clean has the bytes of its block.
pub binit-IsBcache :
    (s : Bcache)
    → ((k : ℕ) → IsBlank (s.buf k))
    → IsBcache (binit s) (down nbuf) × IsCurrent (binit s) (down nbuf)
binit-IsBcache s blank =
    let (r, empty) = binit_lem s in
    let unique : IsUnique (binit s).buf (down nbuf) = λ a b ha hb e e' ne. absurd (
      ne (empty a (Has-All (λ k. k < nbuf) a (down nbuf) (All-down nbuf nbuf (omega arith)) ha))) in
    let current : IsCurrent (binit s) (down nbuf) = λ b hb y.
      let (v, d) = binit-IsBlank s blank b in
      (λ z. absurd (contradiction (sym z ∙ d)), λ e z e'. absurd (contradiction (sym z ∙ v))) in
    ((r, length-down nbuf, unique), current)

-- The buffer as `brelse` leaves it.
abbrev pub freed : Buf → Buf
freed v = record v { busy = false }

freed-IsIdle :
    (buf : ℕ → Buf) (disk : Disk) (b k : ℕ)
    → IsIdle disk (buf b)
    → (b ≢ k → (buf k).busy ≡ false → IsIdle disk (buf k))
    → (update buf b (freed (buf b)) k).busy ≡ false
    → IsIdle disk (update buf b (freed (buf b)) k)
freed-IsIdle buf disk b k idle f y = elim (ℕ_discrete b k) [
  | yes z ↦ rw (sym z, update_self buf b (freed (buf b))) idle
  | no ne ↦ let e = update_ne buf b k (freed (buf b)) ne in rw (e) (f ne (rw (e) at y))
]

-- The result of `brelse`.
abbrev pub Released : Bcache → List ℕ → ℕ → Type 0
Released s l b =
    (xs : List ℕ) × (ys : List ℕ) × (t : Bcache) × (l ≡ xs ++ (b ∷ ys))
    × (brelse s b ≡ ok t)
    × (t.buf ≡ update s.buf b (freed (s.buf b)))
    × (t.disk ≡ s.disk)
    × (t.disksize ≡ s.disksize)
    × IsBcache t (b ∷ (xs ++ ys))
    × IsCurrent t (b ∷ (xs ++ ys))

-- `brelse` of a busy buffer of a sound cache, if that buffer is valid when it is dirty and has the bytes of its
-- block when it is valid and clean: it does not panic. It moves the buffer to the front of the list, keeps the
-- order of the others and the links in both directions, and changes no buffer but for the busy flag of that
-- one. The cache stays sound: no block is held twice, and what is valid, clean and not held is its block.
pub brelse-IsBcache :
    (s : Bcache) (l : List ℕ) (b : ℕ)
    → IsBcache s l
    → IsCurrent s l
    → Has b l
    → (s.buf b).busy ≡ true
    → IsIdle s.disk (s.buf b)
    → Released s l b
brelse-IsBcache s l b (r, len, u) cur has busy idle =
    let (xs, ys, e) = Has-split b l has in
    let (t, call, ring, same, disk, size) = brelse_lem s xs b ys (subst (IsRing s) e r) busy in
    let back : (k : ℕ) → Has k (b ∷ (xs ++ ys)) → Has k l =
      λ k h lk. h (Lacks-forward k xs b ys (subst (Lacks k) e lk)) in
    let count : length (b ∷ (xs ++ ys)) ≡ nbuf =
      let whole : length l ≡ length (xs ++ (b ∷ ys)) = ap length e in
      let before = length-append xs (b ∷ ys) in let after = length-append xs ys in omega arith in
    let unique : IsUnique t.buf (b ∷ (xs ++ ys)) = rw (same) (λ i j hi hj.
      keep-IsUnique s.buf l b (freed (s.buf b)) refl refl u i j (back i hi) (back j hj)) in
    let current : IsCurrent t (b ∷ (xs ++ ys)) = λ k hk y.
      rw (disk, same)
        (freed-IsIdle s.buf s.disk b k idle (λ ne. cur k (back k hk)) (rw (same) at y)) in
    (xs, ys, t, e, call, same, disk, size, (ring, count, unique), current)
