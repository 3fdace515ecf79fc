-- ===== src/Grep/Language.antt =====
-- grep.c: the regular expressions that the comment at the top of the file lists, as a language.
use cse3320_proj1_ahmed_bahb.Common.{ℕ, ◌≡◌, List, [], ◌∷◌, ◌++◌, true, ◌==◌, if◌then◌else◌, All}
use cse3320_proj1_ahmed_bahb.Grep.{fits}

-- A pattern is a sequence of such parts: a byte or any byte once, the same repeated, the end.
pub data Item : Type 0 where
  one : ℕ → Item
  star : ℕ → Item
  end : Item

unfoldable pub items : List ℕ → List Item
items [] = []
items (c ∷ []) = (if c == b'$' then end else one c) ∷ []
items (c ∷ d ∷ re) =
    let after_star = items re in
    let after_one = items (d ∷ re) in if d == b'*' then star c ∷ after_star else one c ∷ after_one

-- The text begins with a match of the parts in order.
abbrev pub Begins : List Item → List ℕ → Type 0
Begins [] text = Unit
Begins (one c ∷ is) text =
    (x : ℕ) × (rest : List ℕ) × (text ≡ x ∷ rest) × (fits c x ≡ true) × Begins is rest
Begins (star c ∷ is) text =
    (run : List ℕ) × (rest : List ℕ) × (text ≡ run ++ rest)
    × All (λ x. fits c x ≡ true) run
    × Begins is rest
Begins (end ∷ is) text = (text ≡ []) × Begins is text

-- A match begins somewhere in the text.
abbrev pub Occurs : List Item → List ℕ → Type 0
Occurs is text = (before : List ℕ) × (rest : List ℕ) × (text ≡ before ++ rest) × Begins is rest

-- What a whole pattern means: `^` at its start ties it to the start of the text.
abbrev pub Finds : List ℕ → List ℕ → Type 0
Finds [] text = Occurs (items []) text
Finds (c ∷ re) text = if c == b'^' then Begins (items re) text else Occurs (items (c ∷ re)) text
