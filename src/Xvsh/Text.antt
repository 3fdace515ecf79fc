-- ===== src/Xvsh/Text.antt =====
-- xvsh.c: strings in memory, and the two scans of strtok_custom over one.
use cse3320_proj1_ahmed_bahb.Common.{
  ℕ, zero, suc, ◌+◌, ◌≤◌, ◌<◌, ◌≡◌, ◌≢◌, refl, sym, ap, ◌∙◌, inl, inr, List, [], ◌∷◌, length, Bool,
  true, false, ◌&&◌, Option, none, some, ◌==◌, arith, Bool-cases,
}
use cse3320_proj1_ahmed_bahb.Strings.{Memory}
use cse3320_proj1_ahmed_bahb.Xvsh.{is_delim, skip_from, scan_to, text_is}
use cse3320_proj1_ahmed_bahb.Xvsh.Words.{strip, first, past}

-- The string `w` stands at `a`, with its NUL.
abbrev pub IsText : Memory → ℕ → List ℕ → Type 0
IsText mem a [] = mem a ≡ 0
IsText mem a (c ∷ cs) = (mem a ≡ c) × (c ≢ 0) × IsText mem (a + 1) cs

-- Pointers and the strings that they point to.
abbrev pub AreTexts : Memory → List ℕ → List (List ℕ) → Type 0
AreTexts mem [] [] = Unit
AreTexts mem (p ∷ ps) (w ∷ ws) = IsText mem p w × AreTexts mem ps ws
AreTexts mem [] (w ∷ ws) = ⊥
AreTexts mem (p ∷ ps) [] = ⊥

-- A string depends on its own bytes only.
pub IsText-agree :
    (m n : Memory) (a : ℕ) (w : List ℕ)
    → ((x : ℕ) → a ≤ x → x ≤ a + length w → n x ≡ m x)
    → IsText m a w
    → IsText n a w
IsText-agree m n a [] h t = h a (omega arith) (omega arith) ∙ t
IsText-agree m n a (c ∷ cs) h (e, nz, t) = (
  h a (omega arith) (omega arith) ∙ e,
  nz,
  IsText-agree m n (a + 1) cs (λ x lo hi. h x (omega arith) (omega arith)) t,
)

-- Comparison with a literal, by the lists.
abbrev pub same : List ℕ → List ℕ → Bool
same [] [] = true
same [] (d ∷ ds) = false
same (c ∷ cs) [] = false
same (c ∷ cs) (d ∷ ds) = c == d && same cs ds

-- None of the bytes of a literal is 0.
abbrev pub IsLiteral : List ℕ → Type 0
IsLiteral [] = Unit
IsLiteral (c ∷ cs) = (c ≢ 0) × IsLiteral cs

pub text_is-same :
    (mem : Memory) (p : ℕ) (w lit : List ℕ)
    → IsText mem p w
    → IsLiteral lit
    → text_is mem p lit ≡ same w lit
text_is-same mem p [] [] t l = ground arith
text_is-same mem p [] (d ∷ ds) t (nz, l) = ground arith
text_is-same mem p (c ∷ cs) [] (e, nz, t) l = ground arith
text_is-same mem p (c ∷ cs) (d ∷ ds) (e, nz, t) (nz', l) =
    let ih = text_is-same mem (p + 1) cs ds t l in rw (e, ih) refl

module _ (ds : List ℕ) (not_nul : is_delim ds 0 ≡ false) where
  pub skip_from_lem :
      (n : ℕ) (mem : Memory) (a : ℕ) (w : List ℕ)
      → IsText mem a w
      → length w < n
      → IsText mem (skip_from n ds mem a) (strip ds w)
        × (a ≤ skip_from n ds mem a)
        × (skip_from n ds mem a + length (strip ds w) ≡ a + length w)
  unfolding skip_from strip
  skip_from_lem zero mem a w t h = absurd (omega arith)
  skip_from_lem (suc n) mem a [] t h =
      let f : is_delim ds (mem a) ≡ false = rw t not_nul in
      rw (skip_from, f) (t, omega arith, omega arith)
  skip_from_lem (suc n) mem a (c ∷ cs) (e, nz, t) h = elim (Bool-cases (is_delim ds c)) [
    | inl d ↦
        let d' : is_delim ds (mem a) ≡ true = rw e d in
        let (t', le, len) = skip_from_lem n mem (a + 1) cs t (omega arith) in
        rw (skip_from, d', d) (t', omega arith, omega arith)
    | inr f ↦
        let f' : is_delim ds (mem a) ≡ false = rw e f in
        rw (skip_from, f', f) ((e, nz, t), omega arith, omega arith)
  ]

  -- Where the scan stops: at the NUL, or at the delimiter in front of the string that is left.
  abbrev pub Stops : Memory → ℕ → ℕ → List ℕ → Option (List ℕ) → Type 0
  Stops mem a e w none = (mem e ≡ 0) × (first ds w ≡ w)
  Stops mem a e w (some r) = (mem e ≢ 0) × IsText mem (e + 1) r × (e + 1 + length r ≡ a + length w)

  Stops-later :
      (mem : Memory) (a e c : ℕ) (cs : List ℕ) (o : Option (List ℕ))
      → is_delim ds c ≡ false
      → Stops mem (a + 1) e cs o
      → Stops mem a e (c ∷ cs) o
  unfolding first
  Stops-later mem a e c cs none f (z, all) = (z, rw f (ap (λ r. c ∷ r) all))
  Stops-later mem a e c cs (some r) f (nz, t, len) = (nz, t, omega arith)

  pub scan_to_lem :
      (n : ℕ) (mem : Memory) (a : ℕ) (w : List ℕ)
      → IsText mem a w
      → length w < n
      → (scan_to n ds mem a ≡ a + length (first ds w))
        × Stops mem a (scan_to n ds mem a) w (past ds w)
        × ((length (first ds w)) ≤ length w)
  unfolding scan_to first past
  scan_to_lem zero mem a w t h = absurd (omega arith)
  scan_to_lem (suc n) mem a [] t h =
      let z : (mem a == 0) ≡ true = ground arith in
      rw (scan_to, z) (omega arith, (t, refl), omega arith)
  scan_to_lem (suc n) mem a (c ∷ cs) (e, nz, t) h =
      let z : (mem a == 0) ≡ false = ground arith in
      elim (Bool-cases (is_delim ds c)) [
        | inl d ↦
            let d' : is_delim ds (mem a) ≡ true = rw e d in
            rw (scan_to, z, d', d) (omega arith, (λ x. nz (sym e ∙ x), t, omega arith), omega arith)
        | inr f ↦
            let f' : is_delim ds (mem a) ≡ false = rw e f in
            let (at, stops, le) = scan_to_lem n mem (a + 1) cs t (omega arith) in
            rw (scan_to, z, f', f)
              (
                at ∙ omega arith,
                Stops-later mem a (scan_to n ds mem (a + 1)) c cs (past ds cs) f stops,
                omega arith,
              )
      ]
