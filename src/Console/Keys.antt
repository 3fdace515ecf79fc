-- ===== src/Console/Keys.antt =====
-- console.c: `consoleintr` as an editor of lists.
use cse3320_proj1_ahmed_bahb.Common.{
  ℕ, ◌+◌, ◌-◌, ◌%◌, ◌^◌, ◌<◌, ◌≡◌, ◌≢◌, List, [], ◌∷◌, ◌++◌, All, arith, length, length-append, not,
  ◌&&◌, ◌||◌, ltb, ◌==◌, if◌then◌else◌, Bool-cases, inl, inr,
}
use cse3320_proj1_ahmed_bahb.Common.Maps.{update, update_self}
use cse3320_proj1_ahmed_bahb.Strings.{Memory}
use cse3320_proj1_ahmed_bahb.Console.{Input, input_buf, newline, store_key, key, consoleintr}
use cse3320_proj1_ahmed_bahb.Console.Ring.{Window, Shows, Window-update, Window-append, drop_last}
use cse3320_proj1_ahmed_bahb.Console.Erase.{kill_line-Shows, rub-Shows}

-- What can be read, and the line being edited.
pub record Edited : Type 0 where
  pub ready : List ℕ
  pub line : List ℕ

abbrev pub stored : ℕ → Edited → Edited
stored c v =
    if c == newline || c == 4 || length v.ready + length v.line + 1 == 128
    then record { ready = v.ready ++ (v.line ++ (c ∷ [])); line = [] }
    else record v { line = v.line ++ (c ∷ []) }

-- A key: ^P edits nothing, ^U erases the line, ^H and DEL its last byte.
abbrev pub press : ℕ → Edited → Edited
press c v =
    if c == 16
    then v
    else if c == 21
    then record v { line = [] }
    else if c == 8 || c == 127
    then record v { line = drop_last v.line }
    else if not (c == 0) && ltb (length v.ready + length v.line) 128
    then stored (if c == 13 then newline else c) v
    else v

abbrev pub presses : List ℕ → Edited → Edited
presses [] v = v
presses (c ∷ cs) v = presses cs (press c v)

All-snoc : (P : ℕ → Type 0) (l : List ℕ) (c : ℕ) → All P l → P c → All P (l ++ (c ∷ []))
All-snoc P [] c a h = (h, tt)
All-snoc P (d ∷ l) c (k, a) h = (k, All-snoc P l c a h)

store-Window :
    (buf : Memory) (p e c : ℕ) (ready line : List ℕ)
    → e % input_buf ≡ (p + length ready + length line) % input_buf
    → c < 256
    → length ready + length line < input_buf
    → Window buf p ready
    → Window buf (p + length ready) line
    → Window (update buf (e % input_buf) (c % 256)) p ready
      × Window (update buf (e % input_buf) (c % 256)) (p + length ready) (line ++ (c ∷ []))
store-Window buf p e c ready line at hc room u w =
    let q = p + length ready + length line in
    let small : c % 256 ≡ c = omega arith in
    rw (at, small)
      (
        Window-update buf p q c ready (omega arith) (omega arith) u,
        Window-append (update buf (q % input_buf) c) (p + length ready) line (c ∷ [])
            (Window-update buf (p + length ready) q c line (omega arith) (omega arith) w)
            (update_self buf (q % input_buf) c, tt),
      )

store_key-Shows :
    (s : Input) (p c : ℕ) (v : Edited)
    → c < 256
    → length v.ready + length v.line < input_buf
    → Shows s p v.ready v.line
    → Shows (store_key s c) p (stored c v).ready (stored c v).line
store_key-Shows s p c v hc room h =
    let rd = h.read in
    let ed = h.edited in
    let (u, w) = store-Window s.buf p s.e c v.ready v.line (omega arith) hc room h.bytes h.typed in
    let one = length-append v.line (c ∷ []) in
    let all = length-append v.ready (v.line ++ (c ∷ [])) in
    let full : ((s.e + 1) % 2 ^ 32 == (s.r + input_buf) % 2 ^ 32)
        ≡ (length v.ready + length v.line + 1 == 128) =
      elim (Bool-cases (length v.ready + length v.line + 1 == 128)) [
        | inl y ↦
            let z : length v.ready + length v.line + 1 ≡ 128 = ground arith in
            let q : (s.e + 1) % 2 ^ 32 ≡ (s.r + input_buf) % 2 ^ 32 = omega arith in
            rw (y, q) (ground arith)
        | inr y ↦
            let z : length v.ready + length v.line + 1 ≢ 128 = ground arith in
            let q : (s.e + 1) % 2 ^ 32 ≢ (s.r + input_buf) % 2 ^ 32 = λ x. omega arith in
            rw (y) (ground arith)
      ] in
    elim (Bool-cases (c == newline || c == 4 || length v.ready + length v.line + 1 == 128)) [
      | inl y ↦
          rw (full, y)
            (record {
              read = rd;
              written = omega arith;
              edited = omega arith;
              room = omega arith;
              bytes =
                  Window-append (update s.buf (s.e % input_buf) (c % 256)) p v.ready
                    (v.line ++ (c ∷ [])) u w;
              typed = tt;
              one_line = tt;
            })
      | inr y ↦
          let ne : c ≢ newline = ground arith in
          rw (full, y)
            (record {
              read = rd;
              written = h.written;
              edited = omega arith;
              room = omega arith;
              bytes = u;
              typed = w;
              one_line = All-snoc (λ d. d ≢ newline) v.line c h.one_line ne;
            })
    ]

default-Shows :
    (s : Input) (p c : ℕ) (v : Edited)
    → c < 256
    → Shows s p v.ready v.line
    → Shows
        (if not (c == 0) && ltb ((s.e + 2 ^ 32 - s.r) % 2 ^ 32) input_buf
          then store_key s (if c == 13 then newline else c)
          else s)
        p
        (if not (c == 0) && ltb (length v.ready + length v.line) 128
          then stored (if c == 13 then newline else c) v
          else v).ready
        (if not (c == 0) && ltb (length v.ready + length v.line) 128
          then stored (if c == 13 then newline else c) v
          else v).line
default-Shows s p c v hc h =
    let rd = h.read in
    let ed = h.edited in
    let m = h.room in
    let count : (s.e + 2 ^ 32 - s.r) % 2 ^ 32 ≡ length v.ready + length v.line = omega arith in
    let small : (if c == 13 then newline else c) < 256 = ground arith in
    elim (Bool-cases (not (c == 0) && ltb (length v.ready + length v.line) 128)) [
      | inl y ↦
          let room : length v.ready + length v.line < input_buf = ground arith in
          rw (count, y) (store_key-Shows s p (if c == 13 then newline else c) v small room h)
      | inr n ↦ rw (count, n) h
    ]

key-Shows :
    (s : Input) (p c : ℕ) (v : Edited)
    → c < 256
    → Shows s p v.ready v.line
    → Shows (key s c) p (press c v).ready (press c v).line
unfolding key
key-Shows s p c v hc h = elim (Bool-cases (c == 16)) [
  | inl y ↦
      rw (key, y)
        (record {
          read = h.read;
          written = h.written;
          edited = h.edited;
          room = h.room;
          bytes = h.bytes;
          typed = h.typed;
          one_line = h.one_line;
        })
  | inr n1 ↦ elim (Bool-cases (c == 21)) [
    | inl y ↦
        rw (key, n1, y)
          (kill_line-Shows input_buf s p v.ready v.line (let m = h.room in omega arith) h)
    | inr n2 ↦ elim (Bool-cases (c == 8 || c == 127)) [
      | inl y ↦ rw (key, n1, n2, y) (rub-Shows s p v.ready v.line h)
      | inr n3 ↦ rw (key, n1, n2, n3) (default-Shows s p c v hc h)
    ]
  ]
]

-- `consoleintr`, for any keys that are bytes, does on the ring and its wrapping counters what `presses` does on
-- two lists: the bytes that can be read, and the line being edited. So it never overwrites a byte that has
-- not been read, never erases one that can be read, and ^U erases the whole line being edited.
pub consoleintr_lem :
    (cs : List ℕ) (s : Input) (p : ℕ) (v : Edited)
    → All (λ c. c < 256) cs
    → Shows s p v.ready v.line
    → Shows (consoleintr s cs) p (presses cs v).ready (presses cs v).line
unfolding consoleintr
consoleintr_lem [] s p v a h = h
consoleintr_lem (c ∷ cs) s p v (hc, a) h =
    consoleintr_lem cs (key s c) p (press c v) a (key-Shows s p c v hc h)
