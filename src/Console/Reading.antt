-- ===== src/Console/Reading.antt =====
-- console.c: `consoleread` on the bytes that can be read, and a line from the keys to the reader.
use cse3320_proj1_ahmed_bahb.Common.{
  ℕ, zero, suc, ◌+◌, ◌-◌, ◌%◌, ◌≡◌, ◌≢◌, refl, ap, List, [], ◌∷◌, arith, length, Bool, true, false,
  ltb, ◌==◌, if◌then◌else◌, Bool-cases, inl, inr,
}
use cse3320_proj1_ahmed_bahb.Console.{
  Input, input_buf, newline, Ending, returns, fails, sleeps, Run, read_byte, unread_byte,
  consoleread,
}
use cse3320_proj1_ahmed_bahb.Console.Ring.{Shows}

-- What a read of `n` more of `target` bytes takes from the bytes `ready`: up to a newline, with it, or a ^D, which is
-- taken only by a read that has nothing else.
pub record Taken : Type 0 where
  pub dst : List ℕ
  pub ending : Ending
  pub left : List ℕ

abbrev pub take_line : Bool → ℕ → ℕ → List ℕ → Taken
take_line killed target zero l = record { dst = []; ending = returns target; left = l }
take_line killed target (suc n) [] = record {
  dst = [];
  ending = (if killed then fails else sleeps (suc n));
  left = [];
}
take_line killed target (suc n) (c ∷ l) =
    let rest = take_line killed target n l in
    if c == 4
    then record {
      dst = [];
      ending = returns (target - suc n);
      left = if ltb (suc n) target then c ∷ l else l;
    }
    else if c == newline
    then record { dst = c ∷ []; ending = returns (target - n); left = l }
    else record { dst = c ∷ rest.dst; ending = rest.ending; left = rest.left }

-- The run gives what `take_line` gives and leaves what it leaves, with the line being edited as it was.
pub record Reads (run : Run) (t : Taken) (line : List ℕ) : Type 0 where
  pub dst : run.dst ≡ t.dst
  pub ending : run.ending ≡ t.ending
  pub left : (q : ℕ) × Shows run.input q t.left line

read_byte-Shows :
    (s : Input) (p c : ℕ) (l line : List ℕ)
    → Shows s p (c ∷ l) line
    → Shows (read_byte s) (p + 1) l line
read_byte-Shows s p c l line h =
    let rd = h.read in
    let wr = h.written in
    let ed = h.edited in
    let m = h.room in
    let q : p + suc (length l) ≡ p + 1 + length l = omega arith in
    record {
      read = omega arith;
      written = omega arith;
      edited = omega arith;
      room = omega arith;
      bytes = h.bytes.1;
      typed = rw (q) at h.typed;
      one_line = h.one_line;
    }

unread-Shows :
    (s : Input) (p : ℕ) (ready line : List ℕ)
    → Shows s p ready line
    → Shows (unread_byte (read_byte s)) p ready line
unread-Shows s p ready line h =
    let rd = h.read in
    record {
      read = omega arith;
      written = h.written;
      edited = h.edited;
      room = h.room;
      bytes = h.bytes;
      typed = h.typed;
      one_line = h.one_line;
    }

empty : (s : Input) (p : ℕ) (line : List ℕ) → Shows s p [] line → (s.r == s.w) ≡ true
empty s p line h =
    let rd = h.read in
    let wr = h.written in let q : s.r ≡ s.w = omega arith in rw (q) (ground arith)

not_empty : (s : Input) (p c : ℕ) (l line : List ℕ) → Shows s p (c ∷ l) line → (s.r == s.w) ≡ false
not_empty s p c l line h =
    let rd = h.read in
    let wr = h.written in let m = h.room in let q : s.r ≢ s.w = λ x. omega arith in ground arith

-- A run of `consoleread` gives what `take_line` takes from the bytes that can be read: up to `n` of them, up to
-- a newline or a ^D. It sleeps, or fails if the process is killed, only when all of them have been taken; and
-- the line being edited stays as it was.
pub consoleread_lem :
    (killed : Bool) (target n : ℕ) (s : Input) (p : ℕ) (ready line : List ℕ)
    → Shows s p ready line
    → Reads (consoleread killed target n s) (take_line killed target n ready) line
unfolding consoleread
consoleread_lem killed target zero s p ready line h = record {
  dst = refl;
  ending = refl;
  left = (p, h);
}
consoleread_lem killed target (suc n) s p [] line h =
    rw (consoleread, empty s p line h) (record { dst = refl; ending = refl; left = (p, h) })
consoleread_lem killed target (suc n) s p (c ∷ l) line h =
    let rd = h.read in
    let at : s.r % input_buf ≡ p % input_buf = omega arith in
    let byte : s.buf (s.r % input_buf) ≡ c = rw (at) h.bytes.0 in
    let next = read_byte-Shows s p c l line h in
    let rest = consoleread_lem killed target n (read_byte s) (p + 1) l line next in
    let some_left = not_empty s p c l line h in
    elim (Bool-cases (c == 4)) [
      | inl y ↦ elim (Bool-cases (ltb (suc n) target)) [
        | inl z ↦
            rw (consoleread, some_left, byte, y, z)
              (record { dst = refl; ending = refl; left = (p, unread-Shows s p (c ∷ l) line h) })
        | inr z ↦
            rw (consoleread, some_left, byte, y, z)
              (record { dst = refl; ending = refl; left = (p + 1, next) })
      ]
      | inr y ↦ elim (Bool-cases (c == newline)) [
        | inl z ↦
            rw (consoleread, some_left, byte, y, z)
              (record { dst = refl; ending = refl; left = (p + 1, next) })
        | inr z ↦
            rw (consoleread, some_left, byte, y, z)
              (record { dst = ap (λ k. c ∷ k) rest.dst; ending = rest.ending; left = rest.left })
      ]
    ]
