-- ===== src/Console/Tests.antt =====
-- console.c on the keys "hi" and return, with a key erased, and the theorems at inputs that meet their hypotheses.
use cse3320_proj1_ahmed_bahb.Common.{
  ℕ, ◌+◌, ◌-◌, ◌^◌, ◌<◌, ◌≡◌, refl, List, [], ◌∷◌, ◌++◌, All, arith, length, false,
}
use cse3320_proj1_ahmed_bahb.Console.{
  Input, newline, returns, sleeps, key, kill_line, consoleread, consoleintr,
}
use cse3320_proj1_ahmed_bahb.Console.Ring.{Shows}
use cse3320_proj1_ahmed_bahb.Console.Keys.{Edited, presses, consoleintr_lem}
use cse3320_proj1_ahmed_bahb.Console.Reading.{Reads, take_line, consoleread_lem}
use cse3320_proj1_ahmed_bahb.Console.Typing.{IsPlain, line_arrives}

-- The counters are about to wrap.
abbrev idle : Input
idle = record {
  buf = λ a. 0;
  r = 2 ^ 32 - 1;
  w = 2 ^ 32 - 1;
  e = 2 ^ 32 - 1;
  echo = [];
  woken = false;
  doprocdump = false;
}

abbrev nothing : Edited
nothing = record { ready = []; line = [] }

abbrev keys : List ℕ
keys = b'h' ∷ b'o' ∷ 8 ∷ b'i' ∷ 13 ∷ []

idle-Shows : Shows idle (2 ^ 32 - 1) [] []
idle-Shows = record {
  read = refl;
  written = refl;
  edited = refl;
  room = omega arith;
  bytes = tt;
  typed = tt;
  one_line = tt;
}

keys_byte : All (λ c. c < 256) keys
keys_byte = (omega arith, (omega arith, (omega arith, (omega arith, (omega arith, tt)))))

typed_hi : (consoleread false 10 10 (consoleintr idle keys)).dst ≡ b'h' ∷ b'i' ∷ newline ∷ []
unfolding consoleread consoleintr key kill_line
typed_hi = refl

half_typed : (consoleread false 10 10 (consoleintr idle (b'h' ∷ []))).ending ≡ sleeps 10
unfolding consoleread consoleintr key kill_line
half_typed = refl

consoleintr_example :
    Shows
      (consoleintr idle keys)
      (2 ^ 32 - 1)
      (presses keys nothing).ready
      (presses keys nothing).line
consoleintr_example = consoleintr_lem keys idle (2 ^ 32 - 1) nothing keys_byte idle-Shows

hi-Shows : Shows (consoleintr idle keys) (2 ^ 32 - 1) (b'h' ∷ b'i' ∷ newline ∷ []) []
hi-Shows = consoleintr_lem keys idle (2 ^ 32 - 1) nothing keys_byte idle-Shows

consoleread_example :
    Reads
      (consoleread false 10 10 (consoleintr idle keys))
      (take_line false 10 10 (b'h' ∷ b'i' ∷ newline ∷ []))
      []
consoleread_example =
    consoleread_lem false 10 10 (consoleintr idle keys) (2 ^ 32 - 1) (b'h' ∷ b'i' ∷ newline ∷ []) []
      hi-Shows

abbrev hi : List ℕ
hi = b'h' ∷ b'i' ∷ []

hi_h : IsPlain b'h'
hi_h = ground arith

hi_i : IsPlain b'i'
hi_i = ground arith

hi-IsPlain : All IsPlain hi
hi-IsPlain = (hi_h, (hi_i, tt))

line_arrives_example :
    ((consoleread false 10 10 (consoleintr idle (hi ++ (13 ∷ [])))).dst ≡ hi ++ (newline ∷ []))
    × ((consoleread false 10 10 (consoleintr idle (hi ++ (13 ∷ [])))).ending
        ≡ returns (length hi + 1))
    × ((q : ℕ) × Shows (consoleread false 10 10 (consoleintr idle (hi ++ (13 ∷ [])))).input q [] [])
line_arrives_example =
    line_arrives idle (2 ^ 32 - 1) hi 10 false idle-Shows hi-IsPlain (omega arith) (omega arith)
