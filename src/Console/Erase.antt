-- ===== src/Console/Erase.antt =====
-- console.c: the keys that erase, on the line being edited.
use cse3320_proj1_ahmed_bahb.Common.{
  ℕ, zero, suc, ◌+◌, ◌-◌, ◌%◌, ◌^◌, ◌≤◌, ◌≡◌, ◌≢◌, refl, List, [], ◌∷◌, arith, length, true, false,
  ◌==◌, if◌then◌else◌,
}
use cse3320_proj1_ahmed_bahb.Console.{Input, input_buf, newline, rub_out, kill_line}
use cse3320_proj1_ahmed_bahb.Console.Ring.{
  Shows, drop_last, length-drop_last, Window-drop_last, All-drop_last, last-ne,
}

at_end :
    (s : Input) (p : ℕ) (ready line : List ℕ)
    → Shows s p ready line
    → length line ≡ 0
    → (s.e == s.w) ≡ true
at_end s p ready line h z =
    let e = h.edited in
    let w = h.written in let q : s.e ≡ s.w = omega arith in rw (q) (ground arith)

not_at_end :
    (s : Input) (p : ℕ) (ready line : List ℕ) (k : ℕ)
    → Shows s p ready line
    → length line ≡ suc k
    → (s.e == s.w) ≡ false
not_at_end s p ready line k h z =
    let e = h.edited in
    let w = h.written in let m = h.room in let q : s.e ≢ s.w = λ x. omega arith in ground arith

rub_out-Shows :
    (s : Input) (p : ℕ) (ready line : List ℕ) (k : ℕ)
    → length line ≡ suc k
    → Shows s p ready line
    → Shows (rub_out s) p ready (drop_last line)
rub_out-Shows s p ready line k e h =
    let l = length-drop_last line in
    let ed = h.edited in
    let m = h.room in
    record {
      read = h.read;
      written = h.written;
      edited = omega arith;
      room = omega arith;
      bytes = h.bytes;
      typed = Window-drop_last s.buf (p + length ready) line h.typed;
      one_line = All-drop_last (λ c. c ≢ newline) line h.one_line;
    }

pub kill_line-Shows :
    (n : ℕ) (s : Input) (p : ℕ) (ready line : List ℕ)
    → length line ≤ n
    → Shows s p ready line
    → Shows (kill_line n s) p ready []
unfolding kill_line
kill_line-Shows zero s p ready [] hn h = h
kill_line-Shows zero s p ready (c ∷ l) hn h = absurd (ground arith)
kill_line-Shows (suc n) s p ready [] hn h = rw (kill_line, at_end s p ready [] h refl) h
kill_line-Shows (suc n) s p ready (c ∷ l) hn h =
    let line : List ℕ = c ∷ l in
    let k = length l in
    let e = h.edited in
    let m = h.room in
    let at : (s.e + 2 ^ 32 - 1) % 2 ^ 32 % input_buf ≡ (p + length ready + k) % input_buf =
      omega arith in
    let ne = last-ne s.buf (p + length ready) k (c ∷ l) refl h.typed h.one_line in
    let stays : (s.buf ((p + length ready + k) % input_buf) == newline) ≡ false = ground arith in
    let less = length-drop_last (c ∷ l) in
    let rest =
      kill_line-Shows n (rub_out s) p ready (drop_last (c ∷ l)) (omega arith)
        (rub_out-Shows s p ready (c ∷ l) k refl h) in
    rw (kill_line, not_at_end s p ready (c ∷ l) k h refl, at, stays) rest

pub rub-Shows :
    (s : Input) (p : ℕ) (ready line : List ℕ)
    → Shows s p ready line
    → Shows (if s.e == s.w then s else rub_out s) p ready (drop_last line)
rub-Shows s p ready [] h = rw (at_end s p ready [] h refl) h
rub-Shows s p ready (c ∷ l) h =
    rw (not_at_end s p ready (c ∷ l) (length l) h refl)
      (rub_out-Shows s p ready (c ∷ l) (length l) refl h)
