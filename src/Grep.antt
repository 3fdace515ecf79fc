-- ===== src/Grep.antt =====
-- grep.c: the matcher of regular expressions with ^ . * $, and the loop over the lines of a file.
-- A string is the list of its bytes before the NUL, so that `re[0]` of the empty list is the NUL.
pub mod Language
pub mod Matcher
pub mod Lines
mod Tests
use cse3320_proj1_ahmed_bahb.Common.{
  ℕ, Bool, true, false, not, ◌||◌, ◌&&◌, List, [], ◌∷◌, ◌++◌, ◌==◌, if◌then◌else◌,
}

-- `re[0]=='.' || re[0]==*text`
abbrev pub fits : ℕ → ℕ → Bool
fits c x = c == b'.' || c == x

-- `matchstar`, with the call `matchhere(re, text)` as a function of the text.
pub matchstar : (List ℕ → Bool) → ℕ → List ℕ → Bool
matchstar here c [] = here []
matchstar here c (x ∷ text) = here (x ∷ text) || (fits c x && matchstar here c text)

-- `*text!='\0' && (re[0]=='.' || re[0]==*text)`, then `matchhere` of the rest.
abbrev pub match_one : (List ℕ → Bool) → ℕ → List ℕ → Bool
match_one here c [] = false
match_one here c (x ∷ text) = fits c x && here text

abbrev pub is_nul : List ℕ → Bool
is_nul [] = true
is_nul (x ∷ text) = false

pub matchhere : List ℕ → List ℕ → Bool
unfolding matchstar
matchhere [] text = true
matchhere (c ∷ []) text = if c == b'$' then is_nul text else match_one (λ t. true) c text
matchhere (c ∷ d ∷ re) text =
    let star = matchstar (matchhere re) c text in
    let one = match_one (matchhere (d ∷ re)) c text in if d == b'*' then star else one

-- The loop of `match`: `matchhere` at each place of the text, its end included.
pub match_from : List ℕ → List ℕ → Bool
unfolding matchhere
match_from re [] = matchhere re []
match_from re (x ∷ text) = matchhere re (x ∷ text) || match_from re text

unfoldable pub matches : List ℕ → List ℕ → Bool
unfolding match_from
matches [] text = match_from [] text
matches (c ∷ re) text = if c == b'^' then matchhere re text else match_from (c ∷ re) text

-- The loop of `grep` over `buf` that looks for newlines: what it writes, and what follows the last
-- newline. `line` is the part of the present line that it has passed. `strchr` stops at a NUL, so that what
-- follows the last newline before a NUL is kept, with the NUL and all that comes after it.
pub scan_lines : List ℕ → List ℕ → List ℕ → List ℕ × List ℕ
unfolding matches
scan_lines re line [] = ([], line)
scan_lines re line (x ∷ buf) =
    let ends = scan_lines re [] buf in
    let goes_on = scan_lines re (line ++ x ∷ []) buf in
    if x == 0
    then ([], line ++ x ∷ buf)
    else if x == b'\n'
    then ((if matches re line then line ++ x ∷ [] else []) ++ ends.0, ends.1)
    else goes_on

-- Whether `strchr` finds a newline, so that `p` leaves `buf`.
pub has_newline : List ℕ → Bool
has_newline [] = false
has_newline (x ∷ buf) = not (x == 0) && (x == b'\n' || has_newline buf)

-- A round of `grep` with `kept` bytes in `buf` and a `read` that returns `chunk`: what it writes and
-- what it keeps.
unfoldable pub round : List ℕ → List ℕ → List ℕ → List ℕ × List ℕ
unfolding scan_lines has_newline
round re kept chunk =
    let r = scan_lines re [] (kept ++ chunk) in
    (r.0, if has_newline (kept ++ chunk) then r.1 else [])

-- `grep`: the chunks that `read` returns before it returns 0.
unfoldable pub grep : List ℕ → List ℕ → List (List ℕ) → List ℕ
unfolding round
grep re kept [] = []
grep re kept (chunk ∷ chunks) = (round re kept chunk).0 ++ grep re (round re kept chunk).1 chunks
