-- ===== src/Console/Typing.antt =====
-- console.c: a line from the keys to the reader.
use mathlib.Core.Path.{subst}
use cse3320_proj1_ahmed_bahb.Common.{
  ℕ, zero, suc, ◌+◌, ◌-◌, ◌≤◌, ◌<◌, ◌≡◌, ◌≢◌, ap, ◌∙◌, List, [], ◌∷◌, ◌++◌, All, arith, length,
  length-append, append-nil, append_assoc, Bool, false, ◌==◌,
}
use cse3320_proj1_ahmed_bahb.Console.{Input, newline, returns, consoleread, consoleintr}
use cse3320_proj1_ahmed_bahb.Console.Ring.{Shows}
use cse3320_proj1_ahmed_bahb.Console.Keys.{Edited, press, presses, consoleintr_lem}
use cse3320_proj1_ahmed_bahb.Console.Reading.{Reads, take_line, consoleread_lem}

-- A byte that is no command: not NUL, ^D, ^H, newline, return, ^P, ^U or DEL.
abbrev pub IsPlain : ℕ → Type 0
IsPlain c =
    (c < 256) × (c ≢ 0) × (c ≢ 4) × (c ≢ 8) × (c ≢ 10) × (c ≢ 13) × (c ≢ 16) × (c ≢ 21) × (c ≢ 127)

press_plain :
    (c : ℕ) (v : Edited)
    → IsPlain c
    → length v.ready + length v.line + 1 < 128
    → press c v ≡ record v { line = v.line ++ (c ∷ []) }
press_plain c v (h, n0, n4, n8, n10, n13, n16, n21, n127) room = ground arith

press_return :
    (v : Edited)
    → length v.ready + length v.line < 128
    → press 13 v ≡ record { ready = v.ready ++ (v.line ++ (newline ∷ [])); line = [] }
press_return v room = ground arith

presses_plain :
    (cs : List ℕ) (ready line : List ℕ)
    → All IsPlain cs
    → length ready + length line + length cs < 128
    → presses (cs ++ (13 ∷ [])) (record { ready = ready; line = line })
      ≡ record { ready = ready ++ ((line ++ cs) ++ (newline ∷ [])); line = [] }
presses_plain [] ready line a room =
    let e = press_return (record { ready = ready; line = line }) (omega arith) in
    rw (append-nil line) e
presses_plain (c ∷ cs) ready line (h, a) room =
    let e = press_plain c (record { ready = ready; line = line }) h (omega arith) in
    let l = length-append line (c ∷ []) in
    let rest = presses_plain cs ready (line ++ (c ∷ [])) a (omega arith) in
    ap (presses (cs ++ (13 ∷ []))) e
    ∙ (rest
        ∙ ap (λ x. record { ready = ready ++ (x ++ (newline ∷ [])); line = [] })
            (append_assoc line (c ∷ []) cs))

plain_bytes : (cs : List ℕ) → All IsPlain cs → All (λ c. c < 256) (cs ++ (13 ∷ []))
plain_bytes [] a = (omega arith, tt)
plain_bytes (c ∷ cs) (h, a) = (h.0, plain_bytes cs a)

take_line_plain :
    (killed : Bool) (target n : ℕ) (cs rest : List ℕ)
    → All IsPlain cs
    → length cs < n
    → n ≤ target
    → take_line killed target n (cs ++ (newline ∷ rest)) ≡ record {
      dst = cs ++ (newline ∷ []);
      ending = returns (target - n + length cs + 1);
      left = rest;
    }
take_line_plain killed target zero cs rest a h le = absurd (ground arith)
take_line_plain killed target (suc n) [] rest a h le =
    let q : target - n ≡ target - suc n + 0 + 1 = omega arith in
    ap (λ k. record { dst = newline ∷ []; ending = returns k; left = rest }) q
take_line_plain killed target (suc n) (c ∷ cs) rest ((k, n0, n4, n8, n10, n13, n16, n21, n127), a) h
      le =
    let r = take_line_plain killed target n cs rest a (omega arith) (omega arith) in
    let no_end : (c == 4) ≡ false = ground arith in
    let no_newline : (c == newline) ≡ false = ground arith in
    let q : target - n + length cs + 1 ≡ target - suc n + suc (length cs) + 1 = omega arith in
    rw (no_end, no_newline)
      (ap (λ t. record { dst = c ∷ t.dst; ending = t.ending; left = t.left }) r
        ∙ ap (λ k. record { dst = c ∷ (cs ++ (newline ∷ [])); ending = returns k; left = rest }) q)

-- A line that is typed at a console with nothing left to read and nothing being edited, fewer than 128 bytes
-- none of which is a command of the editor, and then the return key, is read by the next `consoleread` with
-- room for it: that call returns without sleeping, with the line and its newline and their number, and leaves
-- nothing.
pub line_arrives :
    (s : Input) (p : ℕ) (cs : List ℕ) (n : ℕ) (killed : Bool)
    → Shows s p [] []
    → All IsPlain cs
    → length cs < 128
    → length cs < n
    → ((consoleread killed n n (consoleintr s (cs ++ (13 ∷ [])))).dst ≡ cs ++ (newline ∷ []))
      × ((consoleread killed n n (consoleintr s (cs ++ (13 ∷ [])))).ending
          ≡ returns (length cs + 1))
      × ((q : ℕ) × Shows (consoleread killed n n (consoleintr s (cs ++ (13 ∷ [])))).input q [] [])
line_arrives s p cs n killed h a few room =
    let t = consoleintr s (cs ++ (13 ∷ [])) in
    let shown =
      consoleintr_lem (cs ++ (13 ∷ [])) s p (record { ready = []; line = [] }) (plain_bytes cs a)
        h in
    let typed = presses_plain cs [] [] a (omega arith) in
    let shown' = subst (λ v. Shows t p v.ready v.line) typed shown in
    let run = consoleread_lem killed n n t p (cs ++ (newline ∷ [])) [] shown' in
    let taken = take_line_plain killed n n cs [] a room (omega arith) in
    let run' = subst (λ x. Reads (consoleread killed n n t) x []) taken run in
    let count : n - n + length cs + 1 ≡ length cs + 1 = omega arith in
    (run'.dst, run'.ending ∙ ap returns count, run'.left)
