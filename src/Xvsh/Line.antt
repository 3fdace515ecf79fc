-- ===== src/Xvsh/Line.antt =====
-- xvsh.c: the tokens of a line.
use cse3320_proj1_ahmed_bahb.Common.{
  ℕ, zero, suc, ◌+◌, ◌≤◌, ◌<◌, ◌≡◌, refl, sym, ap, ◌∙◌, inl, inr, List, [], ◌∷◌, length, Bool, true,
  false, ◌||◌, Option, none, some, if◌then◌else◌, arith, Bool-cases,
}
use mathlib.Core.Path.{subst}
use cse3320_proj1_ahmed_bahb.Strings.{Memory}
use cse3320_proj1_ahmed_bahb.Xvsh.{
  maxline, Strtok, strtok_custom, next_token, text_is, space, Parsed, token_loop,
}
use cse3320_proj1_ahmed_bahb.Xvsh.Words.{
  first, past, words, words_past, words-strip, words-strip-nil, length-past,
}
use cse3320_proj1_ahmed_bahb.Xvsh.Text.{IsText, AreTexts, IsText-agree, same, text_is-same}
use cse3320_proj1_ahmed_bahb.Xvsh.Cut.{Continues, Token, next_token_lem}

abbrev pub ampersand : List ℕ
ampersand = b'&' ∷ []

-- The words in front of the first "&", and whether there is one.
unfoldable pub until_amp : List (List ℕ) → List (List ℕ)
until_amp [] = []
until_amp (w ∷ ws) = let rest = until_amp ws in if same w ampersand then [] else w ∷ rest

unfoldable pub has_amp : List (List ℕ) → Bool
has_amp [] = false
has_amp (w ∷ ws) = same w ampersand || has_amp ws

-- What the loop makes of the words that are left behind `last`.
pub record Tokenised (r : Parsed) (mem : Memory) (a : ℕ) (ws : List (List ℕ)) : Type 0 where
  pub texts : AreTexts r.st.mem r.tok (until_amp ws)
  pub bg : r.bg ≡ has_amp ws
  pub keeps : (x : ℕ) → x < a → r.st.mem x ≡ mem x

-- `strtok_custom` goes on where it was.
strtok_custom-next :
    (mem : Memory) (a : ℕ) (ds : List ℕ)
    → strtok_custom (record { mem = mem; last = some a }) none ds ≡ next_token ds mem a
unfolding strtok_custom
strtok_custom-next mem a ds = refl

pub strtok_custom-stop :
    (st : Strtok) (ds : List ℕ) → st.last ≡ none → strtok_custom st none ds ≡ (none, st)
unfolding strtok_custom
strtok_custom-stop st ds e = rw e refl

pub loop-stop :
    (n : ℕ) (st : Strtok)
    → st.last ≡ none
    → token_loop n st ≡ record { tok = []; bg = false; st = st }
unfolding token_loop
loop-stop zero st e = refl
loop-stop (suc n) st e =
    let call = strtok_custom-stop st space e in rw (token_loop, call, call) refl

nothing-Tokenised :
    (st : Strtok) (a : ℕ) → Tokenised (record { tok = []; bg = false; st = st }) st.mem a []
unfolding until_amp has_amp
nothing-Tokenised st a = record { texts = tt; bg = refl; keeps = λ x lt. refl }

word-Tokenised :
    (rest : Parsed) (mem : Memory) (a : ℕ) (w : List ℕ) (p : ℕ) (st : Strtok) (ws : List (List ℕ))
    → IsText st.mem p w
    → ((x : ℕ) → x < a → st.mem x ≡ mem x)
    → ((x : ℕ) → x ≤ p + length w → rest.st.mem x ≡ st.mem x)
    → AreTexts rest.st.mem rest.tok (until_amp ws)
    → rest.bg ≡ has_amp ws
    → a ≤ p
    → Tokenised
        (if text_is st.mem p ampersand
          then record { tok = []; bg = true; st = st }
          else record { tok = p ∷ rest.tok; bg = rest.bg; st = rest.st })
        mem
        a
        (w ∷ ws)
unfolding until_amp has_amp
word-Tokenised rest mem a w p st ws t before keeps texts bg le =
    let amp = text_is-same st.mem p w ampersand t (omega arith, tt) in
    elim (Bool-cases (same w ampersand)) [
      | inl s ↦
          rw (amp, s)
            (record { texts = rw (until_amp, s) tt; bg = rw (has_amp, s) refl; keeps = before })
      | inr f ↦
          rw (amp, f)
            (record {
              texts =
                  rw (until_amp, f)
                    (IsText-agree st.mem rest.st.mem p w (λ x lo hi. keeps x hi) t, texts);
              bg = rw (has_amp, f) bg;
              keeps = λ x lt. keeps x (omega arith) ∙ before x lt;
            })
    ]

-- A token in front of what the loop makes of the rest.
one-Tokenised :
    (rest : Parsed) (mem : Memory) (a c : ℕ) (cs : List ℕ) (p : ℕ) (st : Strtok)
    (ws : List (List ℕ))
    → Token space mem a c cs p st
    → Tokenised rest st.mem (p + 1 + length (first space cs) + 1) ws
    → Tokenised
        (if text_is st.mem p ampersand
          then record { tok = []; bg = true; st = st }
          else record { tok = p ∷ rest.tok; bg = rest.bg; st = rest.st })
        mem
        a
        ((c ∷ first space cs) ∷ ws)
one-Tokenised rest mem a c cs p st ws tok more =
    let le = tok.from in
    word-Tokenised rest mem a (c ∷ first space cs) p st ws tok.text
      (λ x lt. tok.keeps x (omega arith)) (λ x lt. more.keeps x (omega arith)) more.texts more.bg le

-- What the loop makes of the string behind a token, if there is one.
pub rest-Tokenised :
    (n : ℕ) (st : Strtok) (e : ℕ) (o : Option (List ℕ))
    → ((mem : Memory) (a : ℕ) (w : List ℕ)
        → IsText mem a w
        → length w < maxline
        → length w < n
        → Tokenised (token_loop n (record { mem = mem; last = some a })) mem a (words space w))
    → Continues st e o
    → ((r : List ℕ) → o ≡ some r → (length r < maxline) × (length r < n))
    → Tokenised (token_loop n st) st.mem (e + 1) (words_past space o)
rest-Tokenised n st e none ih last fits = rw (loop-stop n st last) (nothing-Tokenised st (e + 1))
rest-Tokenised n st e (some r) ih (last, t) fits =
    let ok = fits r refl in
    let s : st ≡ record { mem = st.mem; last = some (e + 1) } =
      ap (λ (l : Option ℕ). let k : Strtok = record { mem = st.mem; last = l } in k) last in
    let found = ih st.mem (e + 1) r t ok.0 ok.1 in
    subst (λ (k : Strtok). Tokenised (token_loop n k) st.mem (e + 1) (words space r)) (sym s) found

pub token_loop_lem :
    (n : ℕ) (mem : Memory) (a : ℕ) (w : List ℕ)
    → IsText mem a w
    → length w < maxline
    → length w < n
    → Tokenised (token_loop n (record { mem = mem; last = some a })) mem a (words space w)
unfolding token_loop
token_loop_lem zero mem a w t h hn = absurd (omega arith)
token_loop_lem (suc n) mem a w t h hn = elim (next_token_lem space refl mem a w t h) [
  | inl (s, e) ↦
      let call = strtok_custom-next mem a space ∙ e in
      rw (token_loop, call, call, words-strip-nil space w s)
        (nothing-Tokenised (record { mem = mem; last = none }) a)
  | inr (c, cs, p, st, s, e, tok, len) ↦
      let call = strtok_custom-next mem a space ∙ e in
      let le = tok.from in
      let rest =
        rest-Tokenised n st (p + 1 + length (first space cs)) (past space cs) (token_loop_lem n)
          tok.next (λ r o. let l = length-past space cs r o in (omega arith, omega arith)) in
      rw (token_loop, call, call, words-strip space w c cs s)
        (one-Tokenised (token_loop n st) mem a c cs p st (words_past space (past space cs)) tok
          rest)
]
