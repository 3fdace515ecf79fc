-- ===== src/Xvsh/Tests.antt =====
-- xvsh.c: some lines, and the theorems at inputs that meet their hypotheses.
use cse3320_proj1_ahmed_bahb.Common.{
  ℕ, ◌≡◌, refl, List, [], ◌∷◌, true, false, none, some, get_or, arith,
}
use cse3320_proj1_ahmed_bahb.Common.Outcome.{ok}
use cse3320_proj1_ahmed_bahb.Descriptors.{Ftable}
use cse3320_proj1_ahmed_bahb.Descriptors.Order.{IsCounted}
use cse3320_proj1_ahmed_bahb.Descriptors.Samples.{three_open, three_open-IsCounted}
use cse3320_proj1_ahmed_bahb.Xvsh.{
  skip_from, scan_to, space, bar, Strtok, strtok_custom, token_loop, tokens, normal, piped,
  redirected, process_one_cmd,
}
use cse3320_proj1_ahmed_bahb.Xvsh.Words.{first, words}
use cse3320_proj1_ahmed_bahb.Xvsh.Text.{IsText}
use cse3320_proj1_ahmed_bahb.Xvsh.Line.{until_amp}
use cse3320_proj1_ahmed_bahb.Xvsh.Tokens.{Tokens, arguments, tokens_lem}
use cse3320_proj1_ahmed_bahb.Xvsh.Pipes.{has_word, process_one_cmd-piped}
use cse3320_proj1_ahmed_bahb.Xvsh.Run.{redirected_child, moves}
use cse3320_proj1_ahmed_bahb.Xvsh.Children.{redirected_child_keeps}

-- A line at address 0, before any call of `strtok_custom`.
abbrev typed : List ℕ → Strtok
typed line = record { mem = λ a. get_or line a 0; last = none }

-- "ls a | wc"
abbrev with_bar : List ℕ
with_bar = b'l' ∷ b's' ∷ b' ' ∷ b'a' ∷ b' ' ∷ b'|' ∷ b' ' ∷ b'w' ∷ b'c' ∷ []

-- "ls  a &"
abbrev with_amp : List ℕ
with_amp = b'l' ∷ b's' ∷ b' ' ∷ b' ' ∷ b'a' ∷ b' ' ∷ b'&' ∷ []

-- "ls > f"
abbrev with_file : List ℕ
with_file = b'l' ∷ b's' ∷ b' ' ∷ b'>' ∷ b' ' ∷ b'f' ∷ []

amp_runs : (process_one_cmd (typed with_amp) 0).0 ≡ normal (0 ∷ 4 ∷ []) true
unfolding process_one_cmd token_loop strtok_custom skip_from scan_to
amp_runs = refl

file_runs : (process_one_cmd (typed with_file) 0).0 ≡ redirected (0 ∷ []) (some 5) false
unfolding process_one_cmd token_loop strtok_custom skip_from scan_to
file_runs = refl

tokens_example : Tokens (typed with_bar) 0 with_bar (tokens (typed with_bar) 0)
tokens_example = tokens_lem (typed with_bar) 0 with_bar (omega arith) (omega arith)

bar_word : has_word bar (arguments (words space with_bar)) ≡ true
unfolding words until_amp
bar_word = refl

process_one_cmd-piped_example :
    (t : Strtok) × (process_one_cmd (typed with_bar) 0 ≡ (piped (0 ∷ []), t))
    × IsText t.mem 0 (b'l' ∷ b's' ∷ [])
unfolding first
process_one_cmd-piped_example =
    process_one_cmd-piped (typed with_bar) 0 b'l'
      (b's' ∷ b' ' ∷ b'a' ∷ b' ' ∷ b'|' ∷ b' ' ∷ b'w' ∷ b'c' ∷ []) (omega arith) (omega arith)
      (omega arith) (omega arith) refl bar_word

redirected_child_example :
    (t : Ftable) × (moves (redirected_child (some 2)) three_open 0 ≡ ok t)
    × IsCounted t
    × (t.ofile 0 1 ≡ some 0)
redirected_child_example =
    redirected_child_keeps three_open 0 2 0 three_open-IsCounted (omega arith) (omega arith)
      (omega arith) refl
