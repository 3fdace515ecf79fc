-- ===== src/Console.antt =====
-- console.c: the line editor of the console, from the keys to the bytes that `consoleread` gives.
-- `r`, `w` and `e` are uints that count bytes for ever and wrap. `consputc` appends to `echo`, the last first.
pub mod Ring
pub mod Erase
pub mod Keys
pub mod Reading
pub mod Typing
mod Tests
use cse3320_proj1_ahmed_bahb.Common.{
  ℕ, zero, suc, ◌+◌, ◌-◌, ◌%◌, ◌^◌, List, [], ◌∷◌, Bool, true, false, not, ◌&&◌, ◌||◌, ltb, ◌==◌,
  if◌then◌else◌,
}
use cse3320_proj1_ahmed_bahb.Common.Maps.{update}
use cse3320_proj1_ahmed_bahb.Strings.{Memory}

abbrev pub input_buf : ℕ
input_buf = 128

abbrev pub backspace : ℕ
backspace = 0x100

-- `C(x)`, for a letter.
abbrev pub control : ℕ → ℕ
control x = x - b'@'

abbrev pub newline : ℕ
newline = 10

-- `woken` says whether `wakeup(&input.r)` was called, `doprocdump` whether the processes are to be listed.
pub record Input : Type 0 where
  pub buf : Memory
  pub r : ℕ
  pub w : ℕ
  pub e : ℕ
  pub echo : List ℕ
  pub woken : Bool
  pub doprocdump : Bool

-- `input.e--; consputc(BACKSPACE);`
abbrev pub rub_out : Input → Input
rub_out s = record s { e = (s.e + 2 ^ 32 - 1) % 2 ^ 32; echo = backspace ∷ s.echo }

-- The loop of `C('U')`. The line has INPUT_BUF bytes at most.
unfoldable pub kill_line : ℕ → Input → Input
kill_line zero s = s
kill_line (suc n) s =
    let rest = kill_line n (rub_out s) in
    if s.e == s.w || s.buf ((s.e + 2 ^ 32 - 1) % 2 ^ 32 % input_buf) == newline then s else rest

-- A byte that is not a command of the editor, when there is room for it.
abbrev pub store_key : Input → ℕ → Input
store_key s c =
    let t = record s {
      buf = update s.buf (s.e % input_buf) (c % 256);
      e = (s.e + 1) % 2 ^ 32;
      echo = c ∷ s.echo;
    } in
    if c == newline || c == control b'D' || t.e == (t.r + input_buf) % 2 ^ 32
    then record t { w = t.e; woken = true }
    else t

-- One round of the loop of `consoleintr`.
unfoldable pub key : Input → ℕ → Input
key s c =
    if c == control b'P'
    then record s { doprocdump = true }
    else if c == control b'U'
    then kill_line input_buf s
    else if c == control b'H' || c == 127
    then (if s.e == s.w then s else rub_out s)
    else if not (c == 0) && ltb ((s.e + 2 ^ 32 - s.r) % 2 ^ 32) input_buf
    then store_key s (if c == 13 then newline else c)
    else s

-- The loop of `consoleintr` over the keys that `getc` returns before it returns -1.
unfoldable pub consoleintr : Input → List ℕ → Input
consoleintr s [] = s
consoleintr s (c ∷ cs) = consoleintr (key s c) cs

-- How a run of `consoleread` ends; one that sleeps has so many bytes left to read.
pub data Ending : Type 0 where
  returns : ℕ → Ending
  fails : Ending
  sleeps : ℕ → Ending

pub record Run : Type 0 where
  pub dst : List ℕ
  pub ending : Ending
  pub input : Input

abbrev pub read_byte : Input → Input
read_byte s = record s { r = (s.r + 1) % 2 ^ 32 }

abbrev pub unread_byte : Input → Input
unread_byte s = record s { r = (s.r + 2 ^ 32 - 1) % 2 ^ 32 }

-- A run of `consoleread`, up to `sleep` or `return`, with `n` of `target` bytes left.
unfoldable pub consoleread : Bool → ℕ → ℕ → Input → Run
consoleread killed target zero s = record { dst = []; ending = returns target; input = s }
consoleread killed target (suc n) s =
    let c = s.buf (s.r % input_buf) in
    let t = read_byte s in
    let rest = consoleread killed target n t in
    if s.r == s.w
    then record { dst = []; ending = (if killed then fails else sleeps (suc n)); input = s }
    else if c == control b'D'
    then record {
      dst = [];
      ending = returns (target - suc n);
      input = if ltb (suc n) target then unread_byte t else t;
    }
    else if c == newline
    then record { dst = c ∷ []; ending = returns (target - n); input = t }
    else record { dst = c ∷ rest.dst; ending = rest.ending; input = rest.input }
