-- ===== src/Console/Ring.antt =====
-- console.c: the bytes in the ring, also when the counters have wrapped.
use cse3320_proj1_ahmed_bahb.Common.{
  ℕ, zero, suc, ◌+◌, ◌-◌, ◌%◌, ◌^◌, ◌≤◌, ◌<◌, ◌≡◌, ◌≢◌, refl, sym, ◌∙◌, List, [], ◌∷◌, ◌++◌, All,
  arith, length,
}
use cse3320_proj1_ahmed_bahb.Common.Maps.{update, update_ne}
use cse3320_proj1_ahmed_bahb.Strings.{Memory}
use cse3320_proj1_ahmed_bahb.Console.{Input, input_buf, newline}

-- The bytes from the count `p` on.
abbrev pub Window : Memory → ℕ → List ℕ → Type 0
Window buf p [] = Unit
Window buf p (c ∷ l) = (buf (p % input_buf) ≡ c) × Window buf (p + 1) l

-- `ready` can be read and `line` is being edited, after `p` bytes have been read since the start.
pub record Shows (s : Input) (p : ℕ) (ready line : List ℕ) : Type 0 where
  pub read : s.r ≡ p % 2 ^ 32
  pub written : s.w ≡ (p + length ready) % 2 ^ 32
  pub edited : s.e ≡ (p + length ready + length line) % 2 ^ 32
  pub room : length ready + length line ≤ input_buf
  pub bytes : Window s.buf p ready
  pub typed : Window s.buf (p + length ready) line
  pub one_line : All (λ c. c ≢ newline) line

pub Window-update :
    (buf : Memory) (p q v : ℕ) (l : List ℕ)
    → p + length l ≤ q
    → q < p + input_buf
    → Window buf p l
    → Window (update buf (q % input_buf) v) p l
Window-update buf p q v [] lo hi w = tt
Window-update buf p q v (c ∷ l) lo hi (e, w) =
    let ne : q % input_buf ≢ p % input_buf = λ z. omega arith in
    (
      update_ne buf (q % input_buf) (p % input_buf) v ne ∙ e,
      Window-update buf (p + 1) q v l (omega arith) (omega arith) w,
    )

pub Window-append :
    (buf : Memory) (p : ℕ) (xs ys : List ℕ)
    → Window buf p xs
    → Window buf (p + length xs) ys
    → Window buf p (xs ++ ys)
Window-append buf p [] ys u w = let e : p + 0 ≡ p = omega arith in rw (e) at w
Window-append buf p (c ∷ xs) ys (e, u) w =
    let q : p + suc (length xs) ≡ p + 1 + length xs = omega arith in
    (e, Window-append buf (p + 1) xs ys u (rw (q) at w))

-- All but the last.
abbrev pub drop_last : List ℕ → List ℕ
drop_last [] = []
drop_last (c ∷ []) = []
drop_last (c ∷ d ∷ l) = c ∷ drop_last (d ∷ l)

pub length-drop_last : (l : List ℕ) → length (drop_last l) ≡ length l - 1
length-drop_last [] = refl
length-drop_last (c ∷ []) = refl
length-drop_last (c ∷ d ∷ l) = let e = length-drop_last (d ∷ l) in omega arith

pub Window-drop_last :
    (buf : Memory) (p : ℕ) (l : List ℕ) → Window buf p l → Window buf p (drop_last l)
Window-drop_last buf p [] w = tt
Window-drop_last buf p (c ∷ []) w = tt
Window-drop_last buf p (c ∷ d ∷ l) (e, w) = (e, Window-drop_last buf (p + 1) (d ∷ l) w)

pub All-drop_last : (P : ℕ → Type 0) (l : List ℕ) → All P l → All P (drop_last l)
All-drop_last P [] a = tt
All-drop_last P (c ∷ []) a = tt
All-drop_last P (c ∷ d ∷ l) (h, a) = (h, All-drop_last P (d ∷ l) a)

-- The last byte of a line is in front of its end.
pub last-ne :
    (buf : Memory) (p k : ℕ) (l : List ℕ)
    → length l ≡ suc k
    → Window buf p l
    → All (λ c. c ≢ newline) l
    → buf ((p + k) % input_buf) ≢ newline
last-ne buf p k [] e w a = absurd (ground arith)
last-ne buf p k (c ∷ []) e (h, w) (ne, a) =
    let z : p + k ≡ p = omega arith in λ q. ne (sym h ∙ (rw (z) at q))
last-ne buf p zero (c ∷ d ∷ l) e (h, w) (ne, a) = absurd (ground arith)
last-ne buf p (suc k) (c ∷ d ∷ l) e (h, w) (ne, a) =
    let z : p + suc k ≡ p + 1 + k = omega arith in
    let rest = last-ne buf (p + 1) k (d ∷ l) (omega arith) w a in λ q. rest (rw (z) at q)
