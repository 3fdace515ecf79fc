-- ===== src/Xvsh/Words.antt =====
-- xvsh.c: the words of a line, as lists, that its pointers are compared with.
use cse3320_proj1_ahmed_bahb.Common.{
  ℕ, ◌+◌, ◌-◌, ◌≤◌, ◌<◌, ◌≡◌, refl, ap, ◌∙◌, inl, inr, List, [], ◌∷◌, length, true, false, Option,
  none, some, if◌then◌else◌, arith, Bool-cases,
}
use cse3320_proj1_ahmed_bahb.Xvsh.{is_delim}

-- The text without its leading delimiters, its part before the first delimiter, and what is behind that.
unfoldable pub strip : List ℕ → List ℕ → List ℕ
strip ds [] = []
strip ds (c ∷ cs) = let rest = strip ds cs in if is_delim ds c then rest else c ∷ cs

unfoldable pub first : List ℕ → List ℕ → List ℕ
first ds [] = []
first ds (c ∷ cs) = let rest = first ds cs in if is_delim ds c then [] else c ∷ rest

unfoldable pub past : List ℕ → List ℕ → Option (List ℕ)
past ds [] = none
past ds (c ∷ cs) = let rest = past ds cs in if is_delim ds c then some cs else rest

abbrev pub push : ℕ → List (List ℕ) → List (List ℕ)
push c [] = (c ∷ []) ∷ []
push c (w ∷ ws) = (c ∷ w) ∷ ws

-- A text cut at every delimiter.
unfoldable pub split : List ℕ → List ℕ → List (List ℕ)
split ds [] = [] ∷ []
split ds (c ∷ cs) = let rest = split ds cs in if is_delim ds c then [] ∷ rest else push c rest

unfoldable pub nonempty : List (List ℕ) → List (List ℕ)
nonempty [] = []
nonempty ([] ∷ ws) = nonempty ws
nonempty ((c ∷ cs) ∷ ws) = (c ∷ cs) ∷ nonempty ws

-- The words of a text: what stands between delimiters and is not empty.
unfoldable pub words : List ℕ → List ℕ → List (List ℕ)
unfolding split nonempty
words ds text = nonempty (split ds text)

abbrev pub words_past : List ℕ → Option (List ℕ) → List (List ℕ)
words_past ds none = []
words_past ds (some r) = words ds r

abbrev split_past : List ℕ → Option (List ℕ) → List (List ℕ)
split_past ds none = []
split_past ds (some r) = split ds r

pub length-push : (c : ℕ) (ws : List (List ℕ)) → length (push c ws) ≤ 1 + (length ws - 1)
length-push c [] = omega arith
length-push c (w ∷ ws) = omega arith

split-first : (ds text : List ℕ) → split ds text ≡ first ds text ∷ split_past ds (past ds text)
unfolding split first past
split-first ds [] = refl
split-first ds (c ∷ cs) = elim (Bool-cases (is_delim ds c)) [
  | inl t ↦ rw t refl
  | inr f ↦ let ih = split-first ds cs in rw (f, ih) refl
]

nonempty-past : (ds : List ℕ) (o : Option (List ℕ)) → nonempty (split_past ds o) ≡ words_past ds o
unfolding words nonempty
nonempty-past ds none = refl
nonempty-past ds (some r) = refl

words-delim :
    (ds : List ℕ) (c : ℕ) (cs : List ℕ) → is_delim ds c ≡ true → words ds (c ∷ cs) ≡ words ds cs
unfolding words
words-delim ds c cs t = rw t refl

words-word :
    (ds : List ℕ) (c : ℕ) (cs : List ℕ)
    → is_delim ds c ≡ false
    → words ds (c ∷ cs) ≡ (c ∷ first ds cs) ∷ words_past ds (past ds cs)
unfolding words nonempty
words-word ds c cs f =
    let e = split-first ds cs in
    let p = nonempty-past ds (past ds cs) in rw (f, e) (ap (λ ws. (c ∷ first ds cs) ∷ ws) p)

words-nil : (ds : List ℕ) → words ds [] ≡ []
unfolding words split nonempty
words-nil ds = refl

-- The words by the first of them.
pub words-strip-nil : (ds text : List ℕ) → strip ds text ≡ [] → words ds text ≡ []
unfolding strip
words-strip-nil ds [] e = words-nil ds
words-strip-nil ds (c ∷ cs) e = elim (Bool-cases (is_delim ds c)) [
  | inl t ↦ words-delim ds c cs t ∙ words-strip-nil ds cs (rw t at e)
  | inr f ↦ let bad = rw f at e in cc (bad)
]

pub words-strip :
    (ds text : List ℕ) (c : ℕ) (cs : List ℕ)
    → strip ds text ≡ c ∷ cs
    → words ds text ≡ (c ∷ first ds cs) ∷ words_past ds (past ds cs)
unfolding strip
words-strip ds [] c cs e = cc (e)
words-strip ds (d ∷ text) c cs e = elim (Bool-cases (is_delim ds d)) [
  | inl t ↦ words-delim ds d text t ∙ words-strip ds text c cs (rw t at e)
  | inr f ↦
      let e' = rw f at e in
      let r : words ds (d ∷ text) ≡ words ds (c ∷ cs) = ap (words ds) e' in
      let fc : is_delim ds c ≡ false = head_delim d text c cs f e' in r ∙ words-word ds c cs fc
]
  where
    head_delim :
        (d : ℕ) (text : List ℕ) (c : ℕ) (cs : List ℕ)
        → is_delim ds d ≡ false
        → d ∷ text ≡ c ∷ cs
        → is_delim ds c ≡ false
    head_delim d text c cs f e = cc (f, e)

pub length-past : (ds text r : List ℕ) → past ds text ≡ some r → length r < length text
unfolding past
length-past ds [] r e = cc (e)
length-past ds (c ∷ cs) r e = elim (Bool-cases (is_delim ds c)) [
  | inl t ↦ let e' = rw t at e in let s : cs ≡ r = cc (e') in rw (← s) (omega arith)
  | inr f ↦ let ih = length-past ds cs r (rw f at e) in omega arith
]

pub length-first : (ds text : List ℕ) → length (first ds text) ≤ length text
unfolding first
length-first ds [] = omega arith
length-first ds (c ∷ cs) = let ih = length-first ds cs in ground arith
