-- ===== src/Grep/Matcher.antt =====
-- grep.c: match, matchhere and matchstar decide the language.
use cse3320_proj1_ahmed_bahb.Common.{
  ℕ, ◌≡◌, refl, ◌↔◌, inl, inr, Bool, true, List, [], ◌∷◌, ◌++◌, ◌==◌, All, Bool-cases, arith,
}
use cse3320_proj1_ahmed_bahb.Grep.{
  fits, matchstar, match_one, is_nul, matchhere, match_from, matches,
}
use cse3320_proj1_ahmed_bahb.Grep.Language.{Item, one, star, end, items, Begins, Occurs, Finds}

-- `here` decides the parts `is`.
abbrev Decides : (List ℕ → Bool) → List Item → Type 0
Decides here is = (text : List ℕ) → (here text ≡ true) ↔ Begins is text

matchstar-here :
    (here : List ℕ → Bool) (c : ℕ) (text : List ℕ) → here text ≡ true → matchstar here c text ≡ true
unfolding matchstar
matchstar-here here c [] h = h
matchstar-here here c (x ∷ text) h = rw h refl

matchstar-run :
    (here : List ℕ → Bool) (c : ℕ) (run rest : List ℕ)
    → All (λ x. fits c x ≡ true) run
    → here rest ≡ true
    → matchstar here c (run ++ rest) ≡ true
unfolding matchstar
matchstar-run here c [] rest a h = matchstar-here here c rest h
matchstar-run here c (x ∷ run) rest (f, a) h =
    let m = matchstar-run here c run rest a h in
    elim (Bool-cases (here (x ∷ run ++ rest))) [
      | inl now ↦ rw now refl
      | inr later ↦ rw (later, f) m
    ]

matchstar-Decides :
    (here : List ℕ → Bool) (c : ℕ) (is : List Item)
    → Decides here is
    → Decides (matchstar here c) (star c ∷ is)
unfolding matchstar
matchstar-Decides here c is d text =
    (sound text, λ b. rw (b.2) (matchstar-run here c b.0 b.1 b.3 ((d b.1).1 b.4)))
  where
    sound : (text : List ℕ) → matchstar here c text ≡ true → Begins (star c ∷ is) text
    sound [] e = ([], [], refl, tt, (d []).0 e)
    sound (x ∷ text) e = elim (Bool-cases (here (x ∷ text))) [
      | inl now ↦ ([], x ∷ text, refl, tt, (d (x ∷ text)).0 now)
      | inr later ↦
          let f : fits c x ≡ true = ground arith in
          let m : matchstar here c text ≡ true = ground arith in
          let r = sound text m in (x ∷ r.0, r.1, rw (← r.2) refl, (f, r.3), r.4)
    ]

one-Decides :
    (here : List ℕ → Bool) (c : ℕ) (is : List Item)
    → Decides here is
    → Decides (match_one here c) (one c ∷ is)
one-Decides here c is d [] = ((λ e. cc), (λ b. let e = b.2 in cc))
one-Decides here c is d (x ∷ text) = (
  (λ e.
      let f : fits c x ≡ true = ground arith in
      let h : here text ≡ true = ground arith in (x, text, refl, f, (d text).0 h)),
  (λ b.
      let e = b.2 in
      let f : fits c x ≡ true = let f' = b.3 in let same : b.0 ≡ x = cc in rw same at f' in
      let t : b.1 ≡ text = cc in
      let h : here text ≡ true = rw t at ((d b.1).1 b.4) in rw (f, h) refl),
)

end-Decides : Decides is_nul (end ∷ [])
end-Decides [] = ((λ e. (refl, tt)), (λ b. refl))
end-Decides (x ∷ text) = ((λ e. cc), (λ b. let e = b.0 in cc))

true-Decides : Decides (λ t. true) []
true-Decides text = ((λ e. tt), (λ b. refl))

matchhere-Decides : (re : List ℕ) → Decides (matchhere re) (items re)
unfolding matchhere items
matchhere-Decides [] = true-Decides
matchhere-Decides (c ∷ []) = elim (Bool-cases (c == b'$')) [
  | inl dollar ↦ rw dollar end-Decides
  | inr other ↦ rw other (one-Decides (λ t. true) c [] true-Decides)
]
matchhere-Decides (c ∷ d ∷ re) = elim (Bool-cases (d == b'*')) [
  | inl repeated ↦
      rw repeated (matchstar-Decides (matchhere re) c (items re) (matchhere-Decides re))
  | inr single ↦
      rw single (one-Decides (matchhere (d ∷ re)) c (items (d ∷ re)) (matchhere-Decides (d ∷ re)))
]

match_from-Occurs : (re text : List ℕ) → match_from re text ≡ true → Occurs (items re) text
unfolding match_from
match_from-Occurs re [] e = ([], [], refl, (matchhere-Decides re []).0 e)
match_from-Occurs re (x ∷ text) e = elim (Bool-cases (matchhere re (x ∷ text))) [
  | inl now ↦ ([], x ∷ text, refl, (matchhere-Decides re (x ∷ text)).0 now)
  | inr later ↦
      let r = match_from-Occurs re text (rw later at e) in (x ∷ r.0, r.1, rw (← r.2) refl, r.3)
]

matchhere-match_from :
    (re before rest : List ℕ) → matchhere re rest ≡ true → match_from re (before ++ rest) ≡ true
unfolding match_from
matchhere-match_from re [] [] h = h
matchhere-match_from re [] (x ∷ rest) h = rw h refl
matchhere-match_from re (x ∷ before) rest h =
    let m = matchhere-match_from re before rest h in ground arith

match_from_iff : (re text : List ℕ) → (match_from re text ≡ true) ↔ Occurs (items re) text
match_from_iff re text = (
  match_from-Occurs re text,
  (λ o. rw (o.2) (matchhere-match_from re o.0 o.1 ((matchhere-Decides re o.1).1 o.3))),
)

-- `match` returns 1 exactly if the text has a match of the pattern, at its start where the pattern begins
-- with `^`, and otherwise anywhere.
pub matches_iff : (re text : List ℕ) → (matches re text ≡ true) ↔ Finds re text
unfolding matches
matches_iff [] text = match_from_iff [] text
matches_iff (c ∷ re) text = elim (Bool-cases (c == b'^')) [
  | inl tied ↦ rw tied (matchhere-Decides re text)
  | inr free ↦ rw free (match_from_iff (c ∷ re) text)
]
