-- ===== src/Xvsh.antt =====
-- xvsh.c: the shell of this repository, from a line of input to the commands that it runs.
-- A pointer is an address and NULL is `none`; a string literal is the list of its bytes without the NUL.
-- The line ends in `buf`, which has MAXLINE bytes, so that no loop over it has more than MAXLINE rounds.
pub mod Text
pub mod Words
pub mod Cut
pub mod Line
pub mod Tokens
pub mod Pipes
pub mod Run
pub mod Children
mod Tests
use cse3320_proj1_ahmed_bahb.Common.{
  ℕ, zero, suc, ◌+◌, ◌-◌, List, [], ◌∷◌, Bool, true, false, ◌&&◌, ◌||◌, Option, none, some, ◌==◌,
  if◌then◌else◌,
}
use cse3320_proj1_ahmed_bahb.Common.Maps.{update}
use cse3320_proj1_ahmed_bahb.Strings.{Memory}

abbrev pub maxline : ℕ
maxline = 256

abbrev pub maxtokens : ℕ
maxtokens = 16

-- The loop over `spanp`.
abbrev pub is_delim : List ℕ → ℕ → Bool
is_delim [] c = false
is_delim (d ∷ ds) c = c == d || is_delim ds c

-- The loop at `cont`: the first byte from `s` on that is no delimiter.
pub skip_from : ℕ → List ℕ → Memory → ℕ → ℕ
skip_from zero ds mem s = s
skip_from (suc n) ds mem s =
    let rest = skip_from n ds mem (s + 1) in if is_delim ds (mem s) then rest else s

-- The scan of a token: the first delimiter or NUL from `s` on.
pub scan_to : ℕ → List ℕ → Memory → ℕ → ℕ
scan_to zero ds mem s = s
scan_to (suc n) ds mem s =
    let rest = scan_to n ds mem (s + 1) in if mem s == 0 || is_delim ds (mem s) then s else rest

-- The memory and the static `last` of `strtok_custom`.
pub record Strtok : Type 0 where
  pub mem : Memory
  pub last : Option ℕ

-- What follows the skipping, for a token that would begin at `b` and end at `e`.
abbrev pub cut_token : Memory → ℕ → ℕ → Option ℕ × Strtok
cut_token mem b e = if mem b == 0 then (none, record { mem = mem; last = none }) else (
  some b,
  if mem e == 0
      then record { mem = mem; last = none }
      else record { mem = update mem e 0; last = some (e + 1) },
)

abbrev pub next_token : List ℕ → Memory → ℕ → Option ℕ × Strtok
next_token ds mem a =
    let b = skip_from maxline ds mem a in cut_token mem b (scan_to maxline ds mem (b + 1))

unfoldable pub strtok_custom : Strtok → Option ℕ → List ℕ → Option ℕ × Strtok
strtok_custom st (some s) ds = next_token ds st.mem s
strtok_custom st none ds = elim st.last [ none ↦ (none, st) | some a ↦ next_token ds st.mem a ]

-- `strcmp(p, text) == 0`
abbrev pub text_is : Memory → ℕ → List ℕ → Bool
text_is mem p [] = mem p == 0
text_is mem p (c ∷ cs) = mem p == c && text_is mem (p + 1) cs

abbrev pub space : List ℕ
space = b' ' ∷ []

abbrev pub bar : List ℕ
bar = b'|' ∷ []

-- The loop that counts the spaces of the line; `tok` gets one entry more than there are spaces, and one for NULL.
pub count_spaces : ℕ → Memory → ℕ → ℕ
count_spaces zero mem a = 0
count_spaces (suc n) mem a =
    let rest = count_spaces n mem (a + 1) in
    if mem a == 0 then 0 else (if mem a == b' ' then 1 + rest else rest)

abbrev pub num_tok : Memory → ℕ → ℕ
num_tok mem buf = count_spaces maxline mem buf + 1

-- `tok` up to its NULL, and `bg`.
pub record Parsed : Type 0 where
  pub tok : List ℕ
  pub bg : Bool
  pub st : Strtok

-- The loop that fills `tok` from its second entry on.
pub token_loop : ℕ → Strtok → Parsed
token_loop zero st = record { tok = []; bg = false; st = st }
token_loop (suc n) st =
    let r = strtok_custom st none space in
    let rest = token_loop n r.1 in
    elim r.0 [
      | none ↦ record { tok = []; bg = false; st = r.1 }
      | some p ↦
          if text_is r.1.mem p (b'&' ∷ [])
          then record { tok = []; bg = true; st = r.1 }
          else record { tok = p ∷ rest.tok; bg = rest.bg; st = rest.st }
    ]

-- With no first token `tok[0]` is NULL, whatever follows.
pub tokens : Strtok → ℕ → Parsed
tokens st buf =
    let r = strtok_custom st (some buf) space in
    let rest = token_loop maxline r.1 in
    elim r.0 [ none ↦ record rest { tok = [] } | some p ↦ record rest { tok = p ∷ rest.tok } ]

abbrev pub exit_check : Memory → List ℕ → Bool
exit_check mem [] = false
exit_check mem (t ∷ ts) = text_is mem t (b'e' ∷ b'x' ∷ b'i' ∷ b't' ∷ [])

-- The loops that look for "|" and ">".
abbrev pub has_token : Memory → List ℕ → List ℕ → Bool
has_token mem text [] = false
has_token mem text (t ∷ ts) = text_is mem t text || has_token mem text ts

-- The loop of `split_commands`, with room for `n` commands. The NULL that ends `commands` is left out; with
-- MAXTOKENS commands the source writes it past the end of the array.
pub command_loop : ℕ → Strtok → Option ℕ → List ℕ × Strtok
command_loop zero st cmd = ([], st)
command_loop (suc n) st none = ([], st)
command_loop (suc n) st (some cmd) =
    let r = strtok_custom st none bar in
    let rest = command_loop n r.1 r.0 in (skip_from maxline space st.mem cmd ∷ rest.0, rest.1)

pub split_commands : Strtok → ℕ → List ℕ × Strtok
split_commands st buf = let r = strtok_custom st (some buf) bar in command_loop maxtokens r.1 r.0

-- The first loop of `execute_redirection`, with room for `n` arguments: `cmd_args` and `outfile`.
pub redirection : ℕ → Memory → List ℕ → List ℕ × Option ℕ
redirection zero mem toks = ([], none)
redirection (suc n) mem [] = ([], none)
redirection (suc n) mem (t ∷ ts) =
    let rest = redirection n mem ts in
    if text_is mem t (b'>' ∷ [])
    then ([], elim ts [ [] ↦ none | f ∷ fs ↦ some f ])
    else (t ∷ rest.0, rest.1)

-- What `process_one_cmd` has run: the arguments are pointers into the memory that it leaves.
pub data Action : Type 0 where
  quit : Action
  piped : List ℕ → Action
  redirected : List ℕ → Option ℕ → Bool → Action
  normal : List ℕ → Bool → Action

unfoldable pub process_one_cmd : Strtok → ℕ → Action × Strtok
unfolding tokens split_commands redirection
process_one_cmd st buf =
    let line = tokens st buf in
    let mem = line.st.mem in
    let commands = split_commands line.st buf in
    let parts = redirection (maxtokens - 1) mem line.tok in
    if exit_check mem line.tok
    then (quit, line.st)
    else if has_token mem bar line.tok
    then (piped commands.0, commands.1)
    else if has_token mem (b'>' ∷ []) line.tok
    then (redirected parts.0 parts.1 line.bg, line.st)
    else (normal line.tok line.bg, line.st)
