-- ===== src/Buffers/Relink.antt =====
-- bio.c: taking a buffer out of the list and putting it in front, link by link.
use cse3320_proj1_ahmed_bahb.Common.{ℕ, ◌≡◌, ◌≢◌, sym, ◌∙◌, List, [], ◌∷◌, ◌++◌, append-nil, All}
use cse3320_proj1_ahmed_bahb.Common.Maps.{update, update_self, update_ne}
use mathlib.Core.Path.{subst}
use cse3320_proj1_ahmed_bahb.Buffers.{Bcache, head, push_front}
use cse3320_proj1_ahmed_bahb.Buffers.Ring.{
  Seg, Lacks, IsDistinct, last_of, first_of, Lacks-append, Lacks-left, Lacks-right, Lacks-last,
  Lacks-first, IsDistinct-left, IsDistinct-middle, Seg-first, Seg-last, Seg-left, Seg-right,
  Seg-join, Seg-agree,
}

-- Links that differ at one place only, which the list lacks.
agree-update :
    (n p : ℕ → ℕ) (i j x y : ℕ) (l : List ℕ)
    → Lacks i l
    → Lacks j l
    → All (λ b. (update n i x b ≡ n b) × (update p j y b ≡ p b)) l
agree-update n p i j x y [] h k = tt
agree-update n p i j x y (b ∷ l) (ne, h) (ne', k) = (
  (update_ne n i b x (λ e. ne (sym e)), update_ne p j b y (λ e. ne' (sym e))),
  agree-update n p i j x y l h k,
)

-- The left part, when its end is linked to `q`.
left-linked :
    (n p : ℕ → ℕ) (a : ℕ) (xs : List ℕ) (b q : ℕ)
    → Lacks a xs
    → IsDistinct xs
    → Lacks q xs
    → Seg n p a xs b
    → Seg (update n (last_of a xs) q) (update p q (last_of a xs)) a xs q
left-linked n p a [] b q la d lq s = (update_self n a q, update_self p q a)
left-linked n p a (x ∷ xs) b q (ne, la) (lx, d) (nq, lq) (e, e', s) =
    let other : last_of x xs ≢ a = Lacks-last a x xs ne la in
    (
      update_ne n (last_of x xs) a q other ∙ e,
      update_ne p q x (last_of x xs) (λ z. nq (sym z)) ∙ e',
      left-linked n p x xs b q lx d lq s,
    )

last-Lacks :
    (a : ℕ) (xs ys : List ℕ) → Lacks a (xs ++ ys) → IsDistinct (xs ++ ys) → Lacks (last_of a xs) ys
last-Lacks a [] ys la d = la
last-Lacks a (x ∷ xs) ys la (lx, d) = last-Lacks x xs ys lx d

-- `b->next->prev = b->prev; b->prev->next = b->next;`
pub unlink-Seg :
    (n p : ℕ → ℕ) (a : ℕ) (xs : List ℕ) (b : ℕ) (ys : List ℕ)
    → IsDistinct (xs ++ (b ∷ ys))
    → Lacks a (xs ++ (b ∷ ys))
    → Seg n p a (xs ++ (b ∷ ys)) a
    → Seg (update n (p b) (n b)) (update p (n b) (p b)) a (xs ++ ys) a
unlink-Seg n p a xs b [] d la s =
    let l = Seg-left n p a xs b [] a s in
    let r = Seg-right n p a xs b [] a s in
    let ep = Seg-last n p a xs b l in
    rw (ep, r.0, append-nil xs)
      (left-linked n p a xs b a (Lacks-left a xs (b ∷ []) la)
        (rw (append-nil xs) at (IsDistinct-middle xs b [] d).0) (Lacks-left a xs (b ∷ []) la) l)
unlink-Seg n p a xs b (c ∷ ys) d la s =
    let l = Seg-left n p a xs b (c ∷ ys) a s in
    let (e, e', r) = Seg-right n p a xs b (c ∷ ys) a s in
    let ep = Seg-last n p a xs b l in
    let (d', lb) = IsDistinct-middle xs b (c ∷ ys) d in
    let (d'', lc) = IsDistinct-middle xs c ys d' in
    let la' =
      Lacks-append a xs (c ∷ ys) (Lacks-left a xs (b ∷ c ∷ ys) la)
        (Lacks-right a xs (b ∷ c ∷ ys) la).1 in
    let (nc, ly) = last-Lacks a xs (c ∷ ys) la' d' in
    let ac = (Lacks-right a xs (c ∷ ys) la').0 in
    let d3 = IsDistinct-left xs ys d'' in
    rw (ep, e)
      (Seg-join (update n (last_of a xs) c) (update p c (last_of a xs)) a xs c ys a
        (left-linked n p a xs b c (Lacks-left a xs (c ∷ ys) la') d3 (Lacks-left c xs ys lc) l)
        (Seg-agree n p (update n (last_of a xs) c) (update p c (last_of a xs)) c ys a
          (update_ne n (last_of a xs) c c (λ z. nc (sym z))) (update_ne p c a (last_of a xs) ac)
          (agree-update n p (last_of a xs) c c (last_of a xs) ys ly (Lacks-right c xs ys lc)) r))

-- Links that differ at two places, which the list lacks.
agree-update2 :
    (n p : ℕ → ℕ) (b i j x x' y y' : ℕ) (l : List ℕ)
    → Lacks b l
    → Lacks i l
    → Lacks j l
    → All (λ k. (update (update n b x) i x' k ≡ n k) × (update (update p b y) j y' k ≡ p k)) l
agree-update2 n p b i j x x' y y' [] lb li lj = tt
agree-update2 n p b i j x x' y y' (k ∷ l) (nb, lb) (ni, li) (nj, lj) = (
  (
    update_ne (update n b x) i k x' (λ e. ni (sym e)) ∙ update_ne n b k x (λ e. nb (sym e)),
    update_ne (update p b y) j k y' (λ e. nj (sym e)) ∙ update_ne p b k y (λ e. nb (sym e)),
  ),
  agree-update2 n p b i j x x' y y' l lb li lj,
)

-- The list from the new buffer on.
from-front :
    (n p : ℕ → ℕ) (b : ℕ) (l : List ℕ)
    → b ≢ head
    → Lacks b l
    → IsDistinct l
    → Lacks head l
    → Seg n p head l head
    → Seg
        (update (update n b (first_of l head)) head b)
        (update (update p b head) (first_of l head) b)
        b
        l
        head
from-front n p b [] nb lb d lh g = (
  update_ne (update n b head) head b b (λ z. nb (sym z)) ∙ update_self n b head,
  update_self (update p b head) head b,
)
from-front n p b (x ∷ l) nb (nx, lb) (lx, d) (hx, lh) (e1, e2, g) = (
  update_ne (update n b x) head b b (λ z. nb (sym z)) ∙ update_self n b x,
  update_self (update p b head) x b,
  Seg-agree n p (update (update n b x) head b) (update (update p b head) x b) x l head
      (update_ne (update n b x) head x b (λ z. hx (sym z)) ∙ update_ne n b x x (λ z. nx (sym z)))
      (update_ne (update p b head) x head b hx ∙ update_ne p b head head nb)
      (agree-update2 n p b head x x b head b l lb lh lx) g,
)

-- `b->next = head.next; b->prev = &head; head.next->prev = b; head.next = b;`
pub push-Seg :
    (s : Bcache) (b : ℕ) (l : List ℕ)
    → b ≢ head
    → Lacks b l
    → IsDistinct l
    → Lacks head l
    → Seg s.next s.prev head l head
    → Seg (push_front s b).next (push_front s b).prev head (b ∷ l) head
push-Seg s b l nb lb d lh g =
    let first = Seg-first s.next s.prev head l head g in
    let same : first_of l head ≡ update s.next b (s.next head) head =
      sym first ∙ sym (update_ne s.next b head (s.next head) nb) in
    let other : first_of l head ≢ b = Lacks-first b head l (λ z. nb (sym z)) lb in
    (
      update_self (update s.next b (s.next head)) head b,
      subst (λ c. update (update s.prev b head) c b b ≡ head) same
          (update_ne (update s.prev b head) (first_of l head) b b other
            ∙ update_self s.prev b head),
      subst
          (λ c.
            Seg (update (update s.next b (s.next head)) head b) (update (update s.prev b head) c b)
              b l head)
          same
          (subst
            (λ c.
              Seg (update (update s.next b c) head b)
                (update (update s.prev b head) (first_of l head) b) b l head)
            (sym first) (from-front s.next s.prev b l nb lb d lh g)),
    )
