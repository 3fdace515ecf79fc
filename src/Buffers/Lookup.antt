-- ===== src/Buffers/Lookup.antt =====
-- bio.c: `bget`, on all its branches, and that no block is cached twice.
use mathlib.Core.Path.{subst}
use cse3320_proj1_ahmed_bahb.Common.{
  ℕ, ◌+◌, ◌≡◌, ◌≢◌, refl, sym, ◌∙◌, ◌⊎◌, inl, inr, Bool, true, false, Option, none, some, List, [],
  ◌∷◌, ◌++◌, arith, ℕ_discrete, length, Bool-cases,
}
use cse3320_proj1_ahmed_bahb.Common.Maps.{update, update_self, update_ne}
use cse3320_proj1_ahmed_bahb.Common.Outcome.{ok, panic}
use cse3320_proj1_ahmed_bahb.Buffers.{
  Buf, Bcache, head, nbuf, no_dev, set_buf, caches, is_clean, find_cached, find_clean, bget,
}
use cse3320_proj1_ahmed_bahb.Buffers.Ring.{Lacks, Lacks-right}
use cse3320_proj1_ahmed_bahb.Buffers.Order.{IsRing}
use cse3320_proj1_ahmed_bahb.Buffers.Search.{
  IsFor, IsSpare, Without, Fails-Without, caches_hit, hit_IsFor, clean_IsSpare, spare_is_clean,
  first_in, last_in, or_else, Fails, first_in-cases, last_in-cases, find_cached_lem, find_clean_lem,
}

abbrev pub Has : ℕ → List ℕ → Type 0
Has b l = ¬ (Lacks b l)

pub Has-middle : (xs : List ℕ) (b : ℕ) (ys : List ℕ) → Has b (xs ++ (b ∷ ys))
Has-middle xs b ys lb = (Lacks-right b xs (b ∷ ys) lb).0 refl

Fails-Lacks : (p : ℕ → Bool) (b : ℕ) (l : List ℕ) → p b ≡ true → Fails p l → Lacks b l
Fails-Lacks p b [] e f = tt
Fails-Lacks p b (x ∷ l) e (e', f) =
    (λ z. let q : p x ≡ true = rw (z) e in ground arith, Fails-Lacks p b l e f)

-- No two buffers of the list hold one block of a device.
abbrev pub IsUnique : (ℕ → Buf) → List ℕ → Type 0
IsUnique buf l =
    (a b : ℕ)
    → Has a l
    → Has b l
    → (buf a).dev ≡ (buf b).dev
    → (buf a).blockno ≡ (buf b).blockno
    → (buf a).dev ≢ no_dev
    → a ≡ b

abbrev pub IsBcache : Bcache → List ℕ → Type 0
IsBcache s l = IsRing s l × (length l ≡ nbuf) × IsUnique s.buf l

abbrev pub busied : Buf → Buf
busied v = record v { busy = true }

abbrev pub reassigned : Buf → ℕ → ℕ → Buf
reassigned v dev blockno = record v {
  dev = dev;
  blockno = blockno;
  busy = true;
  valid = false;
  dirty = false;
}

-- A buffer whose device and block number stay.
pub keep-IsUnique :
    (buf : ℕ → Buf) (l : List ℕ) (b : ℕ) (v : Buf)
    → v.dev ≡ (buf b).dev
    → v.blockno ≡ (buf b).blockno
    → IsUnique buf l
    → IsUnique (update buf b v) l
keep-IsUnique buf l b v ed eb u i j hi hj =
    let at : (k : ℕ)
        → ((update buf b v k).dev ≡ (buf k).dev) × ((update buf b v k).blockno ≡ (buf k).blockno) =
      λ k. elim (ℕ_discrete b k) [
        | yes e ↦ rw (sym e, update_self buf b v) (ed, eb)
        | no ne ↦ rw (update_ne buf b k v ne) (refl, refl)
      ] in
    let (di, bi) = at i in
    let (dj, bj) = at j in
    λ e e' ne. u i j hi hj (sym di ∙ e ∙ dj) (sym bi ∙ e' ∙ bj) (λ z. ne (di ∙ z))

or_else-none : (o : Option ℕ) → or_else o none ≡ o
or_else-none none = refl
or_else-none (some b) = refl

-- A buffer that takes a block that no buffer held.
pub fresh-IsUnique :
    (buf : ℕ → Buf) (l : List ℕ) (b : ℕ) (v : Buf)
    → Fails (λ k. caches v.dev v.blockno (buf k)) l
    → IsUnique buf l
    → IsUnique (update buf b v) l
fresh-IsUnique buf l b v f u i j hi hj e e' ne =
    let absent : (k : ℕ) → Has k l → (buf k).dev ≡ v.dev → (buf k).blockno ≡ v.blockno → ⊥ =
      λ k h d d'. h (
        Fails-Lacks (λ m. caches v.dev v.blockno (buf m)) k l
          (caches_hit v.dev v.blockno (buf k) d d') f) in
    let here : (k : ℕ) → b ≡ k → update buf b v k ≡ v = λ k z. rw (sym z) (update_self buf b v) in
    let away : (k : ℕ) → b ≢ k → update buf b v k ≡ buf k = λ k z. update_ne buf b k v z in
    elim (ℕ_discrete b i) [
      | yes ei ↦ elim (ℕ_discrete b j) [
        | yes ej ↦ sym ei ∙ ej
        | no nj ↦ absurd (
            absent j hj (sym (rw (here i ei, away j nj) at e))
              (sym (rw (here i ei, away j nj) at e')))
      ]
      | no ni ↦ elim (ℕ_discrete b j) [
        | yes ej ↦
            absurd (absent i hi (rw (away i ni, here j ej) at e) (rw (away i ni, here j ej) at e'))
        | no nj ↦
            u i j hi hj (rw (away i ni, away j nj) at e) (rw (away i ni, away j nj) at e')
              (rw (away i ni) at ne)
      ]
    ]

-- The results of `bget`.
abbrev pub Fetched : Bcache → List ℕ → ℕ → ℕ → Type 0
Fetched s l dev blockno =
    ((b : ℕ) × Has b l
      × IsFor dev blockno (s.buf b)
      × (((s.buf b).busy ≡ true) × (bget s dev blockno ≡ ok (none, s))
          ⊎ ((s.buf b).busy ≡ false)
            × (bget s dev blockno ≡ ok (some b, set_buf s b (busied (s.buf b))))
            × IsBcache (set_buf s b (busied (s.buf b))) l))
    ⊎ (Without (λ k. IsFor dev blockno (s.buf k)) l
        × (((xs : List ℕ) × (b : ℕ) × (ys : List ℕ) × (l ≡ xs ++ (b ∷ ys))
              × IsSpare (s.buf b)
              × Without (λ k. IsSpare (s.buf k)) ys
              × (bget s dev blockno ≡ ok (some b, set_buf s b (reassigned (s.buf b) dev blockno)))
              × IsBcache (set_buf s b (reassigned (s.buf b) dev blockno)) l)
            ⊎ Without (λ k. IsSpare (s.buf k)) l × (bget s dev blockno ≡ panic)))

module _ (s : Bcache) (l : List ℕ) (c : IsBcache s l) (dev blockno : ℕ) where
  cached_lem :
      find_cached (nbuf + 1) s dev blockno (s.next head)
      ≡ first_in (λ b. caches dev blockno (s.buf b)) l
  cached_lem =
      let ((g, d, lh), len, u) = c in
      find_cached_lem s dev blockno (nbuf + 1) head l g lh (omega arith)

  clean_lem : find_clean (nbuf + 1) s (s.prev head) ≡ last_in (λ b. is_clean (s.buf b)) l
  unfolding find_clean
  clean_lem =
      let ((g, d, lh), len, u) = c in
      find_clean_lem s (nbuf + 1) 1 head l head (omega arith) g lh
      ∙ or_else-none (last_in (λ b. is_clean (s.buf b)) l)

  unclean : (ys : List ℕ) → Fails (λ b. is_clean (s.buf b)) ys → Without (λ k. IsSpare (s.buf k)) ys
  unclean =
      Fails-Without (λ b. is_clean (s.buf b)) (λ k. IsSpare (s.buf k))
        (λ k h. spare_is_clean (s.buf k) h.0 h.1)

  -- `bget` on a cache whose list is sound and that holds no block twice. If a buffer of the list has the block,
  -- `bget` sleeps if that buffer is busy and else returns it, busy. If none has it, `bget` takes the last
  -- buffer of the list, the one least recently released, that is neither busy nor dirty, for the block,
  -- busy and not valid; it panics exactly if there is none. Whatever it returns, the list is as before
  -- and still no block is held twice.
  pub bget_lem : Fetched s l dev blockno
  unfolding bget
  bget_lem =
      let (r, len, u) = c in
      elim (first_in-cases (λ b. caches dev blockno (s.buf b)) l) [
        | inl (xs, b, ys, el, hit, fails, e) ↦
            let has : Has b l = subst (Has b) (sym el) (Has-middle xs b ys) in
            inl (
              b,
              has,
              hit_IsFor dev blockno (s.buf b) hit,
              elim (Bool-cases (s.buf b).busy) [
                | inl y ↦ inl (y, rw (bget, cached_lem, e, y) refl)
                | inr y ↦ inr (
                  y,
                  rw (bget, cached_lem, e, y) refl,
                  (r, len, keep-IsUnique s.buf l b (busied (s.buf b)) refl refl u),
                )
              ],
            )
        | inr (fails, e) ↦ inr (
          Fails-Without (λ b. caches dev blockno (s.buf b)) (λ k. IsFor dev blockno (s.buf k))
              (λ k h. caches_hit dev blockno (s.buf k) h.0 h.1) l fails,
          elim (last_in-cases (λ b. is_clean (s.buf b)) l) [
            | inl (xs, b, ys, el, hit, after, e') ↦ inl (
              xs,
              b,
              ys,
              el,
              clean_IsSpare (s.buf b) hit,
              unclean ys after,
              rw (bget, cached_lem, e, clean_lem, e') refl,
              (r, len, fresh-IsUnique s.buf l b (reassigned (s.buf b) dev blockno) fails u),
            )
            | inr (none_clean, e') ↦
                inr (unclean l none_clean, rw (bget, cached_lem, e, clean_lem, e') refl)
          ],
        )
      ]
