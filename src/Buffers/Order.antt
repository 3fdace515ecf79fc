-- ===== src/Buffers/Order.antt =====
-- bio.c: the list that `binit` makes and the order in which `brelse` keeps it.
use mathlib.Core.Path.{subst}
use cse3320_proj1_ahmed_bahb.Common.{
  ℕ, zero, suc, ◌+◌, ◌≤◌, ◌<◌, ◌≡◌, ◌≢◌, true, false, refl, sym, List, [], ◌∷◌, ◌++◌, arith,
  ℕ_discrete,
}
use cse3320_proj1_ahmed_bahb.Common.Maps.{update, update_self, update_ne}
use cse3320_proj1_ahmed_bahb.Common.Outcome.{ok}
use cse3320_proj1_ahmed_bahb.Buffers.{
  Buf, Bcache, head, nbuf, no_dev, set_buf, set_prev, set_next, push_front, init_from, binit,
  brelse,
}
use cse3320_proj1_ahmed_bahb.Buffers.Ring.{
  Seg, Lacks, IsDistinct, Lacks-append, Lacks-left, Lacks-right, IsDistinct-middle,
}
use cse3320_proj1_ahmed_bahb.Buffers.Relink.{unlink-Seg, push-Seg}

-- The buffers of the list, the most recently released first; both directions of links agree.
abbrev pub IsRing : Bcache → List ℕ → Type 0
IsRing s l = Seg s.next s.prev head l head × IsDistinct l × Lacks head l

-- The numbers below `n`, the largest first.
abbrev pub down : ℕ → List ℕ
down zero = []
down (suc n) = n ∷ down n

Lacks-down : (b n : ℕ) → n ≤ b → Lacks b (down n)
Lacks-down b zero h = tt
Lacks-down b (suc n) h = (omega arith, Lacks-down b n (omega arith))

IsDistinct-down : (n : ℕ) → IsDistinct (down n)
IsDistinct-down zero = tt
IsDistinct-down (suc n) = (Lacks-down n n (omega arith), IsDistinct-down n)

pub push-IsRing :
    (s : Bcache) (b : ℕ) (l : List ℕ)
    → b ≢ head
    → Lacks b l
    → IsRing s l
    → IsRing (push_front s b) (b ∷ l)
push-IsRing s b l nb lb (g, d, lh) = (push-Seg s b l nb lb d lh g, (lb, d), (nb, lh))

-- The list holds the buffers below `b`, and none of these holds a block.
abbrev pub IsInited : Bcache → ℕ → Type 0
IsInited s b = IsRing s (down b) × ((k : ℕ) → k < b → (s.buf k).dev ≡ no_dev)

empties :
    (buf : ℕ → Buf) (b : ℕ)
    → ((k : ℕ) → k < b → (buf k).dev ≡ no_dev)
    → (k : ℕ) → k < suc b
    → (update buf b (record (buf b) { dev = no_dev }) k).dev ≡ no_dev
empties buf b f k kb = elim (ℕ_discrete b k) [
  | yes e ↦ rw (sym e, update_self buf b (record (buf b) { dev = no_dev })) refl
  | no ne ↦ rw (update_ne buf b k (record (buf b) { dev = no_dev }) ne) (f k (omega arith))
]

init_from_lem :
    (n : ℕ) (s : Bcache) (b : ℕ) → n + b ≡ nbuf → IsInited s b → IsInited (init_from n s b) nbuf
unfolding init_from
init_from_lem zero s b e i = let done : b ≡ nbuf = omega arith in subst (IsInited s) done i
init_from_lem (suc n) s b e (r, f) =
    let nb : b ≢ head = λ z. ground arith in
    let next : IsInited (set_buf (push_front s b) b (record (s.buf b) { dev = no_dev })) (suc b) =
      (push-IsRing s b (down b) nb (Lacks-down b b (omega arith)) r, empties s.buf b f) in
    init_from_lem n (set_buf (push_front s b) b (record (s.buf b) { dev = no_dev })) (b + 1)
      (omega arith)
      (subst (IsInited (set_buf (push_front s b) b (record (s.buf b) { dev = no_dev })))
        (omega arith) next)

pub binit_lem : (s : Bcache) → IsInited (binit s) nbuf
unfolding binit
binit_lem s =
    init_from_lem nbuf (set_next (set_prev s head head) head head) 0 refl
      (((update_self s.next head head, update_self s.prev head head), tt, tt), λ k h. ground arith)

same_prev : (p : ℕ → ℕ) (i b : ℕ) → update p i (p b) b ≡ p b
same_prev p i b = elim (ℕ_discrete i b) [
  | yes e ↦ rw (sym e) (update_self p i (p i))
  | no ne ↦ update_ne p i b (p b) ne
]

pub brelse_lem :
    (s : Bcache) (xs : List ℕ) (b : ℕ) (ys : List ℕ)
    → IsRing s (xs ++ (b ∷ ys))
    → (s.buf b).busy ≡ true
    → (t : Bcache) × (brelse s b ≡ ok t)
      × IsRing t (b ∷ (xs ++ ys))
      × (t.buf ≡ update s.buf b (record (s.buf b) { busy = false }))
      × (t.disk ≡ s.disk)
      × (t.disksize ≡ s.disksize)
unfolding brelse
brelse_lem s xs b ys (g, d, lh) busy =
    let s1 = set_prev s (s.next b) (s.prev b) in
    let s2 = set_next s1 (s1.prev b) (s1.next b) in
    let s3 = push_front s2 b in
    let (d', lb) = IsDistinct-middle xs b ys d in
    let bh = Lacks-right head xs (b ∷ ys) lh in
    let linked : Seg s2.next s2.prev head (xs ++ ys) head =
      subst (λ q. Seg (update s.next q (s.next b)) s2.prev head (xs ++ ys) head)
        (sym (same_prev s.prev (s.next b) b)) (unlink-Seg s.next s.prev head xs b ys d lh g) in
    let ring : IsRing s2 (xs ++ ys) =
      (linked, d', Lacks-append head xs ys (Lacks-left head xs (b ∷ ys) lh) bh.1) in
    let t = set_buf s3 b (record (s3.buf b) { busy = false }) in
    (t, rw (busy) refl, push-IsRing s2 b (xs ++ ys) bh.0 lb ring, refl, refl, refl)
