-- ===== src/Paths/Elements.antt =====
-- fs.c: what skipelem cuts off a path.
use cse3320_proj1_ahmed_bahb.Common.{
  ℕ, ◌+◌, ◌≤◌, ◌<◌, ◌≡◌, ◌≢◌, refl, sym, zero, suc, ltb, dec_lt, ap, ◌∙◌, ◌⊎◌, inl, inr, true,
  false, List, [], ◌∷◌, ◌++◌, length, take, All, append-nil, none, some, ◌==◌, arith, ℕ_discrete,
}
use cse3320_proj1_ahmed_bahb.Paths.{dirsiz, skip_slashes, element, after, stored_name, skipelem}

-- The text does not begin with a slash.
abbrev pub Unslashed : List ℕ → Type 0
Unslashed [] = Unit
Unslashed (c ∷ cs) = c ≢ b'/'

skip_slashes_lem :
    (p : List ℕ)
    → (pre : List ℕ) × (p ≡ pre ++ skip_slashes p)
      × All (λ c. c ≡ b'/') pre
      × Unslashed (skip_slashes p)
      × (length (skip_slashes p) ≤ length p)
unfolding skip_slashes
skip_slashes_lem [] = ([], refl, tt, tt, omega arith)
skip_slashes_lem (c ∷ cs) = elim (ℕ_discrete c b'/') [
  | yes e ↦
      let t : (c == b'/') ≡ true = ground arith in
      let (pre, eq, all, un, le) = skip_slashes_lem cs in
      (c ∷ pre, rw t (ap (λ r. c ∷ r) eq), (e, all), rw t un, rw t (omega arith))
  | no ne ↦
      let t : (c == b'/') ≡ false = ground arith in ([], rw t refl, tt, rw t ne, rw t (omega arith))
]

element_lem :
    (p : List ℕ)
    → (p ≡ element p ++ after p)
      × All (λ c. c ≢ b'/') (element p)
      × (length p ≡ length (element p) + length (after p))
unfolding element after
element_lem [] = (refl, tt, omega arith)
element_lem (c ∷ cs) = elim (ℕ_discrete c b'/') [
  | yes e ↦ let t : (c == b'/') ≡ true = ground arith in (rw t refl, rw t tt, rw t (omega arith))
  | no ne ↦
      let t : (c == b'/') ≡ false = ground arith in
      let (eq, all, len) = element_lem cs in
      (rw t (ap (λ r. c ∷ r) eq), rw t (ne, all), rw t (omega arith))
]

-- The path is slashes, a word without slashes that is not empty, slashes and what comes after them.
pub record Cut (path name rest : List ℕ) : Type 0 where
  pub before : List ℕ
  pub word : List ℕ
  pub between : List ℕ
  pub whole : path ≡ before ++ (word ++ (between ++ rest))
  pub slashes : All (λ c. c ≡ b'/') before × All (λ c. c ≡ b'/') between
  pub plain : All (λ c. c ≢ b'/') word
  pub some_word : 0 < length word
  pub next : Unslashed rest
  pub short : name ≡ take dirsiz word
  pub shorter : length rest < length path

abbrev pub Skipped : List ℕ → Type 0
Skipped path =
    ((skipelem path ≡ none) × All (λ c. c ≡ b'/') path)
    ⊎ ((name : List ℕ) × (rest : List ℕ) × (skipelem path ≡ some (name, rest)) × Cut path name rest)

word_length : (c : ℕ) (cs : List ℕ) → c ≢ b'/' → 0 < length (element (c ∷ cs))
unfolding element
word_length c cs ne = let t : (c == b'/') ≡ false = ground arith in rw t (omega arith)

take-all : (n : ℕ) (xs : List ℕ) → length xs ≤ n → take n xs ≡ xs
take-all zero [] h = refl
take-all zero (x ∷ xs) h = absurd (omega arith)
take-all (suc n) [] h = refl
take-all (suc n) (x ∷ xs) h = ap (λ r. x ∷ r) (take-all n xs (omega arith))

-- Both cases of the copy leave the first DIRSIZ bytes of the word.
stored_name-eq : (word : List ℕ) → stored_name word ≡ take dirsiz word
stored_name-eq word = elim (dec_lt (length word) dirsiz) [
  | yes short ↦
      let t : ltb (length word) dirsiz ≡ true = ground arith in
      rw t (sym (take-all dirsiz word (omega arith)))
  | no long ↦ let t : ltb (length word) dirsiz ≡ false = ground arith in rw t refl
]

from_word :
    (path q pre : List ℕ)
    → skip_slashes path ≡ q
    → path ≡ pre ++ q
    → All (λ c. c ≡ b'/') pre
    → Unslashed q
    → length q ≤ length path
    → Skipped path
unfolding skipelem
from_word path [] pre e eq all un le = inl (rw e refl, rw (eq ∙ append-nil pre) all)
from_word path (c ∷ cs) pre e eq all un le =
    let q : List ℕ = c ∷ cs in
    let (eq2, plain, len) = element_lem (c ∷ cs) in
    let (between, eq3, all3, un3, le3) = skip_slashes_lem (after (c ∷ cs)) in
    let some_word : 0 < length (element (c ∷ cs)) = word_length c cs un in
    inr (
      stored_name (element (c ∷ cs)),
      skip_slashes (after (c ∷ cs)),
      rw e refl,
      record {
        before = pre;
        word = element (c ∷ cs);
        between = between;
        whole = eq ∙ ap (λ r. pre ++ r) (eq2 ∙ ap (λ r. element (c ∷ cs) ++ r) eq3);
        slashes = (all, all3);
        plain = plain;
        some_word = some_word;
        next = un3;
        short = stored_name-eq (element (c ∷ cs));
        shorter = omega arith;
      },
    )

-- `skipelem` returns 0 exactly for a path of slashes only. Otherwise the path is slashes, a word that is
-- not empty and has no slash, slashes again and the rest, which does not begin with one; the name is the
-- word, cut to DIRSIZ bytes, and the rest is shorter than the path, so that a loop over the elements ends.
pub skipelem_lem : (path : List ℕ) → Skipped path
skipelem_lem path =
    let (pre, eq, all, un, le) = skip_slashes_lem path in
    from_word path (skip_slashes path) pre refl eq all un le
