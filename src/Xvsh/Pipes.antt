-- ===== src/Xvsh/Pipes.antt =====
-- xvsh.c: what becomes of a line with a pipe.
use cse3320_proj1_ahmed_bahb.Common.{
  ℕ, zero, suc, ◌<◌, ◌≡◌, ◌≢◌, refl, sym, ap, ◌∙◌, inl, inr, List, [], ◌∷◌, length, All, Bool, true,
  false, ◌||◌, none, some, arith,
}
use cse3320_proj1_ahmed_bahb.Strings.{Memory}
use cse3320_proj1_ahmed_bahb.Xvsh.{
  maxline, is_delim, skip_from, Strtok, strtok_custom, space, bar, tokens, exit_check, has_token,
  command_loop, split_commands, piped, process_one_cmd,
}
use cse3320_proj1_ahmed_bahb.Xvsh.Words.{
  strip, first, past, words, words_past, words-strip, length-first,
}
use cse3320_proj1_ahmed_bahb.Xvsh.Text.{IsText, AreTexts, same, text_is-same, IsLiteral}
use cse3320_proj1_ahmed_bahb.Xvsh.Cut.{next_token_lem}
use cse3320_proj1_ahmed_bahb.Xvsh.Tokens.{arguments, strtok_custom-first, tokens_lem}
use cse3320_proj1_ahmed_bahb.Xvsh.Line.{until_amp, strtok_custom-stop}

-- Whether one of the words is the literal.
abbrev pub has_word : List ℕ → List (List ℕ) → Bool
has_word lit [] = false
has_word lit (w ∷ ws) = same w lit || has_word lit ws

pub has_token-words :
    (mem : Memory) (lit : List ℕ) (ps : List ℕ) (ws : List (List ℕ))
    → IsLiteral lit
    → AreTexts mem ps ws
    → has_token mem lit ps ≡ has_word lit ws
has_token-words mem lit [] [] l t = refl
has_token-words mem lit (p ∷ ps) (w ∷ ws) l (t, ts) =
    let one = text_is-same mem p w lit t l in
    let ih = has_token-words mem lit ps ws l ts in rw (one, ih) refl
has_token-words mem lit [] (w ∷ ws) l t = elim t [ ]
has_token-words mem lit (p ∷ ps) [] l t = elim t [ ]

-- A text without the delimiter is one piece.
first-All : (w : List ℕ) → All (λ c. c ≢ b'|') w → (first bar w ≡ w) × (past bar w ≡ none)
unfolding first past
first-All [] a = (refl, refl)
first-All (c ∷ cs) (ne, a) =
    let f : is_delim bar c ≡ false = ground arith in
    let (e, e') = first-All cs a in (rw f (ap (λ r. c ∷ r) e), rw f e')

strip-all : (c : ℕ) (cs : List ℕ) → c ≢ b'|' → strip bar (c ∷ cs) ≡ c ∷ cs
unfolding strip
strip-all c cs ne = let f : is_delim bar c ≡ false = ground arith in rw f refl

skip_from-here :
    (n : ℕ) (ds : List ℕ) (mem : Memory) (p : ℕ)
    → is_delim ds (mem p) ≡ false
    → skip_from n ds mem p ≡ p
unfolding skip_from
skip_from-here zero ds mem p f = refl
skip_from-here (suc n) ds mem p f = rw f refl

no_command : (n : ℕ) (st : Strtok) → command_loop n st none ≡ ([], st)
unfolding command_loop
no_command zero st = refl
no_command (suc n) st = refl

one_command :
    (n : ℕ) (st : Strtok) (p : ℕ)
    → strtok_custom st none bar ≡ (none, st)
    → skip_from maxline space st.mem p ≡ p
    → command_loop (suc n) st (some p) ≡ (p ∷ [], st)
unfolding command_loop
one_command n st p stop here =
    let last = no_command n st in rw (command_loop, stop, last, here) refl

-- A string without "|" is split into one command, which is the string.
split_commands-one :
    (st : Strtok) (buf c : ℕ) (cs : List ℕ)
    → IsText st.mem buf (c ∷ cs)
    → All (λ c. c ≢ b'|') (c ∷ cs)
    → c ≢ b' '
    → length (c ∷ cs) < maxline
    → (st' : Strtok) × (split_commands st buf ≡ (buf ∷ [], st')) × IsText st'.mem buf (c ∷ cs)
unfolding split_commands
split_commands-one st buf c cs t (nb, all) ns h =
    elim (next_token_lem bar refl st.mem buf (c ∷ cs) t h) [
      | inl (s, e) ↦ let bad = sym (strip-all c cs nb) ∙ s in cc (bad)
      | inr (d, ds, p, st', s, e, tok, len) ↦
          let same_text : d ∷ ds ≡ c ∷ cs = sym s ∙ strip-all c cs nb in
          let ed : d ≡ c = cc (same_text) in
          let eds : ds ≡ cs = cc (same_text) in
          let same_length = ap length eds in
          let at : p ≡ buf = omega arith in
          let whole = first-All cs all in
          let text = tok.text in
          let text' : IsText st'.mem buf (c ∷ cs) = rw (ed, eds, whole.0, at) at text in
          let next = tok.next in
          let stop : st'.last ≡ none = rw (eds, whole.1) at next in
          let call = strtok_custom-first st buf bar ∙ e in
          let f : is_delim space (st'.mem buf) ≡ false = let y = text'.0 in ground arith in
          let f' : is_delim space (st'.mem p) ≡ false = rw at f in
          let one =
            one_command 15 st' p (strtok_custom-stop st' bar stop)
              (skip_from-here maxline space st'.mem p f') in
          let done : split_commands st buf ≡ (p ∷ [], st') = rw (split_commands, call) one in
          (st', done ∙ rw at refl, text')
    ]

abbrev pub exit_text : List ℕ
exit_text = b'e' ∷ b'x' ∷ b'i' ∷ b't' ∷ []

-- The tests of `process_one_cmd` on the tokens of a line with a "|".
tests :
    (mem : Memory) (tok : List ℕ) (p : ℕ) (ps : List ℕ) (w : List ℕ) (ws : List (List ℕ))
    → tok ≡ p ∷ ps
    → AreTexts mem tok (w ∷ ws)
    → same w exit_text ≡ false
    → has_word bar (w ∷ ws) ≡ true
    → (exit_check mem tok ≡ false) × (has_token mem bar tok ≡ true) × IsText mem p w
tests mem tok p ps w ws e texts not_exit has =
    let texts' = rw e at texts in
    let quits = text_is-same mem p w exit_text texts'.0 (omega arith) in
    let bars = has_token-words mem bar tok (w ∷ ws) (omega arith, tt) texts in
    (rw (e, quits) not_exit, bars ∙ has, texts'.0)

-- What runs for a line with a pipe: for every line that begins with a word without "|" that is not "exit", and
-- that has a word "|" later on (and before an "&"), `process_one_cmd` runs a pipeline of one command, which is
-- the first word alone. The commands behind the "|", and the arguments of the first, are not run.
pub process_one_cmd-piped :
    (st : Strtok) (buf c : ℕ) (cs : List ℕ)
    → IsText st.mem buf (c ∷ cs)
    → length (c ∷ cs) < maxline
    → c ≢ b' '
    → All (λ d. d ≢ b'|') (c ∷ first space cs)
    → same (c ∷ first space cs) exit_text ≡ false
    → has_word bar (arguments (words space (c ∷ cs))) ≡ true
    → (t : Strtok) × (process_one_cmd st buf ≡ (piped (buf ∷ []), t))
      × IsText t.mem buf (c ∷ first space cs)
unfolding process_one_cmd strip
process_one_cmd-piped st buf c cs t h ns nb not_exit has_bar =
    let f : is_delim space c ≡ false = ground arith in
    let line = tokens_lem st buf (c ∷ cs) t h in
    let own : strip space (c ∷ cs) ≡ c ∷ cs = rw f refl in
    let (p, ps, e, len) = line.front (c ∷ cs) own (λ z. cc (z)) in
    let at : p ≡ buf = omega arith in
    let ws = words-strip space (c ∷ cs) c cs own in
    let texts = rw ws at line.texts in
    let (quits, has, text) =
      tests (tokens st buf).st.mem (tokens st buf).tok buf ps (c ∷ first space cs)
        (until_amp (words_past space (past space cs))) (rw at at e) texts not_exit
        (rw ws at has_bar) in
    let short = length-first space cs in
    let (u, one, text') =
      split_commands-one (tokens st buf).st buf c (first space cs) text nb ns (omega arith) in
    (u, rw (process_one_cmd, quits, has, one) refl, text')
