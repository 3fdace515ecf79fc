-- ===== src/Buffers/Ring.antt =====
-- bio.c: the list of buffers, as a path of links in both directions.
use cse3320_proj1_ahmed_bahb.Common.{ℕ, ◌≡◌, ◌≢◌, sym, ◌∙◌, List, [], ◌∷◌, ◌++◌, All}

-- From `a` the links pass the buffers of the list and end at `z`.
abbrev pub Seg : (ℕ → ℕ) → (ℕ → ℕ) → ℕ → List ℕ → ℕ → Type 0
Seg next prev a [] z = (next a ≡ z) × (prev z ≡ a)
Seg next prev a (b ∷ l) z = (next a ≡ b) × (prev b ≡ a) × Seg next prev b l z

abbrev pub Lacks : ℕ → List ℕ → Type 0
Lacks b = All (λ x. x ≢ b)

abbrev pub IsDistinct : List ℕ → Type 0
IsDistinct [] = Unit
IsDistinct (b ∷ l) = Lacks b l × IsDistinct l

-- The last of `a ∷ l`, and the first of `l ++ (z ∷ [])`.
abbrev pub last_of : ℕ → List ℕ → ℕ
last_of a [] = a
last_of a (b ∷ l) = last_of b l

abbrev pub first_of : List ℕ → ℕ → ℕ
first_of [] z = z
first_of (b ∷ l) z = b

pub Lacks-append : (b : ℕ) (xs ys : List ℕ) → Lacks b xs → Lacks b ys → Lacks b (xs ++ ys)
Lacks-append b [] ys h k = k
Lacks-append b (x ∷ xs) ys (ne, h) k = (ne, Lacks-append b xs ys h k)

pub Lacks-left : (b : ℕ) (xs ys : List ℕ) → Lacks b (xs ++ ys) → Lacks b xs
Lacks-left b [] ys h = tt
Lacks-left b (x ∷ xs) ys (ne, h) = (ne, Lacks-left b xs ys h)

pub Lacks-right : (b : ℕ) (xs ys : List ℕ) → Lacks b (xs ++ ys) → Lacks b ys
Lacks-right b [] ys h = h
Lacks-right b (x ∷ xs) ys (ne, h) = Lacks-right b xs ys h

pub Lacks-last : (b a : ℕ) (l : List ℕ) → a ≢ b → Lacks b l → last_of a l ≢ b
Lacks-last b a [] ne h = ne
Lacks-last b a (c ∷ l) ne (ne', h) = Lacks-last b c l ne' h

pub Lacks-first : (b z : ℕ) (l : List ℕ) → z ≢ b → Lacks b l → first_of l z ≢ b
Lacks-first b z [] ne h = ne
Lacks-first b z (c ∷ l) ne (ne', h) = ne'

pub IsDistinct-left : (xs ys : List ℕ) → IsDistinct (xs ++ ys) → IsDistinct xs
IsDistinct-left [] ys d = tt
IsDistinct-left (x ∷ xs) ys (lx, d) = (Lacks-left x xs ys lx, IsDistinct-left xs ys d)

-- What a list lacks, by its first element.
pub IsDistinct-middle :
    (xs : List ℕ) (b : ℕ) (ys : List ℕ)
    → IsDistinct (xs ++ (b ∷ ys))
    → IsDistinct (xs ++ ys) × Lacks b (xs ++ ys)
IsDistinct-middle [] b ys (lb, d) = (d, lb)
IsDistinct-middle (x ∷ xs) b ys (lx, d) =
    let (d', lb) = IsDistinct-middle xs b ys d in
    let ne = (Lacks-right x xs (b ∷ ys) lx).0 in
    (
      (Lacks-append x xs ys (Lacks-left x xs (b ∷ ys) lx) (Lacks-right x xs (b ∷ ys) lx).1, d'),
      (λ e. ne (sym e), lb),
    )

module _ (next prev : ℕ → ℕ) where
  pub Seg-first : (a : ℕ) (l : List ℕ) (z : ℕ) → Seg next prev a l z → next a ≡ first_of l z
  Seg-first a [] z s = s.0
  Seg-first a (b ∷ l) z s = s.0

  pub Seg-last : (a : ℕ) (l : List ℕ) (z : ℕ) → Seg next prev a l z → prev z ≡ last_of a l
  Seg-last a [] z s = s.1
  Seg-last a (b ∷ l) z s = Seg-last b l z s.2

  pub Seg-left :
      (a : ℕ) (xs : List ℕ) (b : ℕ) (ys : List ℕ) (z : ℕ)
      → Seg next prev a (xs ++ (b ∷ ys)) z
      → Seg next prev a xs b
  Seg-left a [] b ys z (e, e', s) = (e, e')
  Seg-left a (x ∷ xs) b ys z (e, e', s) = (e, e', Seg-left x xs b ys z s)

  pub Seg-right :
      (a : ℕ) (xs : List ℕ) (b : ℕ) (ys : List ℕ) (z : ℕ)
      → Seg next prev a (xs ++ (b ∷ ys)) z
      → Seg next prev b ys z
  Seg-right a [] b ys z (e, e', s) = s
  Seg-right a (x ∷ xs) b ys z (e, e', s) = Seg-right x xs b ys z s

  pub Seg-join :
      (a : ℕ) (xs : List ℕ) (b : ℕ) (ys : List ℕ) (z : ℕ)
      → Seg next prev a xs b
      → Seg next prev b ys z
      → Seg next prev a (xs ++ (b ∷ ys)) z
  Seg-join a [] b ys z (e, e') s = (e, e', s)
  Seg-join a (x ∷ xs) b ys z (e, e', s') s = (e, e', Seg-join x xs b ys z s' s)

-- A path depends on the links of its own buffers.
pub Seg-agree :
    (n p n' p' : ℕ → ℕ) (a : ℕ) (l : List ℕ) (z : ℕ)
    → n' a ≡ n a
    → p' z ≡ p z
    → All (λ b. (n' b ≡ n b) × (p' b ≡ p b)) l
    → Seg n p a l z
    → Seg n' p' a l z
Seg-agree n p n' p' a [] z ea ez all (e, e') = (ea ∙ e, ez ∙ e')
Seg-agree n p n' p' a (b ∷ l) z ea ez ((en, ep), all) (e, e', s) =
    (ea ∙ e, ep ∙ e', Seg-agree n p n' p' b l z en ez all s)
