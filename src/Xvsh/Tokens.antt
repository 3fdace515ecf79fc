-- ===== src/Xvsh/Tokens.antt =====
-- xvsh.c: the array of tokens of a line and its room.
use cse3320_proj1_ahmed_bahb.Common.{
  ℕ, zero, suc, ◌+◌, ◌≤◌, ◌<◌, ◌≡◌, ◌≢◌, refl, sym, ap, ◌∙◌, inl, inr, List, [], ◌∷◌, length, Bool,
  true, false, none, some, ◌==◌, arith, Bool-cases,
}
use cse3320_proj1_ahmed_bahb.Strings.{Memory}
use cse3320_proj1_ahmed_bahb.Xvsh.{
  maxline, Strtok, strtok_custom, next_token, space, count_spaces, num_tok, Parsed, token_loop,
  tokens,
}
use cse3320_proj1_ahmed_bahb.Xvsh.Words.{
  strip, first, past, split, nonempty, words, words-strip, words-strip-nil, length-past,
  length-push,
}
use cse3320_proj1_ahmed_bahb.Xvsh.Text.{IsText, AreTexts, IsText-agree}
use cse3320_proj1_ahmed_bahb.Xvsh.Cut.{next_token_lem}
use cse3320_proj1_ahmed_bahb.Xvsh.Line.{
  until_amp, has_amp, token_loop_lem, rest-Tokenised, loop-stop,
}

-- The words that a line's tokens are to be: the first one, and the others up to an "&".
abbrev pub arguments : List (List ℕ) → List (List ℕ)
arguments [] = []
arguments (w ∷ ws) = w ∷ until_amp ws

abbrev pub in_background : List (List ℕ) → Bool
in_background [] = false
in_background (w ∷ ws) = has_amp ws

pub length-AreTexts :
    (mem : Memory) (ps : List ℕ) (ws : List (List ℕ)) → AreTexts mem ps ws → length ps ≡ length ws
length-AreTexts mem [] [] t = refl
length-AreTexts mem (p ∷ ps) (w ∷ ws) (_, t) = ap suc (length-AreTexts mem ps ws t)
length-AreTexts mem [] (w ∷ ws) t = elim t [ ]
length-AreTexts mem (p ∷ ps) [] t = elim t [ ]

length-until_amp : (ws : List (List ℕ)) → length (until_amp ws) ≤ length ws
unfolding until_amp
length-until_amp [] = omega arith
length-until_amp (w ∷ ws) = let ih = length-until_amp ws in ground arith

length-arguments : (ws : List (List ℕ)) → length (arguments ws) ≤ length ws
length-arguments [] = omega arith
length-arguments (w ∷ ws) = let l = length-until_amp ws in omega arith

length-nonempty : (ws : List (List ℕ)) → length (nonempty ws) ≤ length ws
unfolding nonempty
length-nonempty [] = omega arith
length-nonempty ([] ∷ ws) = let ih = length-nonempty ws in omega arith
length-nonempty ((c ∷ cs) ∷ ws) = let ih = length-nonempty ws in omega arith

length-split :
    (n : ℕ) (mem : Memory) (a : ℕ) (w : List ℕ)
    → IsText mem a w
    → length w < n
    → length (split space w) ≤ count_spaces n mem a + 1
unfolding split count_spaces
length-split zero mem a w t h = absurd (omega arith)
length-split (suc n) mem a [] t h = omega arith
length-split (suc n) mem a (c ∷ cs) (e, nz, t) h =
    let ih = length-split n mem (a + 1) cs t (omega arith) in
    let z : (mem a == 0) ≡ false = ground arith in
    elim (Bool-cases (c == b' ')) [
      | inl s ↦
          let s' : (mem a == b' ') ≡ true = rw e s in rw (count_spaces, z, s', s) (omega arith)
      | inr f ↦
          let f' : (mem a == b' ') ≡ false = rw e f in
          let p = length-push c (split space cs) in rw (count_spaces, z, f', f) (ground arith)
    ]

pub length-words :
    (mem : Memory) (a : ℕ) (w : List ℕ)
    → IsText mem a w
    → length w < maxline
    → length (words space w) ≤ num_tok mem a
unfolding words
length-words mem a w t h =
    let s = length-split maxline mem a w t h in
    let l = length-nonempty (split space w) in omega arith

pub strtok_custom-first :
    (st : Strtok) (a : ℕ) (ds : List ℕ) → strtok_custom st (some a) ds ≡ next_token ds st.mem a
unfolding strtok_custom
strtok_custom-first st a ds = refl

-- `tok`, `bg` and the memory after the loops over the tokens of a line.
pub record Tokens (st : Strtok) (buf : ℕ) (line : List ℕ) (r : Parsed) : Type 0 where
  pub texts : AreTexts r.st.mem r.tok (arguments (words space line))
  pub bg : r.bg ≡ in_background (words space line)
  pub room : length r.tok ≤ num_tok st.mem buf
  pub keeps : (x : ℕ) → x < buf → r.st.mem x ≡ st.mem x
  pub front :
      (v : List ℕ)
      → strip space line ≡ v
      → v ≢ []
      → (p : ℕ) × (ps : List ℕ) × (r.tok ≡ p ∷ ps) × (p + length v ≡ buf + length line)

-- For a line of less than MAXLINE bytes, whatever `strtok_custom` was called on before: the tokens point to
-- the words of the line in order, the first of them always and the others up to the first "&"; `bg` says
-- whether there was an "&"; they and the NULL behind them fit in the array; memory in front of the line stays.
pub tokens_lem :
    (st : Strtok) (buf : ℕ) (line : List ℕ)
    → IsText st.mem buf line
    → length line < maxline
    → Tokens st buf line (tokens st buf)
unfolding tokens
tokens_lem st buf line t h = elim (next_token_lem space refl st.mem buf line t h) [
  | inl (s, e) ↦
      let call = strtok_custom-first st buf space ∙ e in
      let stop = loop-stop maxline (record { mem = st.mem; last = none }) refl in
      let ws = words-strip-nil space line s in
      rw (tokens, call, call, stop)
        (record {
          texts = rw ws tt;
          bg = rw ws refl;
          room = omega arith;
          keeps = λ x lt. refl;
          front = λ v e' ne. absurd (ne (sym e' ∙ s));
        })
  | inr (c, cs, p, st', s, e, tok, len) ↦
      let call = strtok_custom-first st buf space ∙ e in
      let le = tok.from in
      let rest =
        rest-Tokenised maxline st' (p + 1 + length (first space cs)) (past space cs)
          (token_loop_lem maxline) tok.next
          (λ r o. let l = length-past space cs r o in (omega arith, omega arith)) in
      let ws = words-strip space line c cs s in
      let texts : AreTexts (token_loop maxline st').st.mem (p ∷ (token_loop maxline st').tok)
          (arguments (words space line)) =
        rw ws (
          IsText-agree st'.mem (token_loop maxline st').st.mem p (c ∷ first space cs)
              (λ x lo hi. rest.keeps x (omega arith)) tok.text,
          rest.texts,
        ) in
      let count =
        length-AreTexts (token_loop maxline st').st.mem (p ∷ (token_loop maxline st').tok)
          (arguments (words space line)) texts in
      let few = length-arguments (words space line) in
      let most = length-words st.mem buf line t h in
      rw (tokens, call, call)
        (record {
          texts = texts;
          bg = rest.bg ∙ rw ws refl;
          room = omega arith;
          keeps = λ x lt. rest.keeps x (omega arith) ∙ tok.keeps x (omega arith);
          front = λ v e' ne.
              let l = ap length (sym e' ∙ s) in
              (p, (token_loop maxline st').tok, refl, omega arith);
        })
]
