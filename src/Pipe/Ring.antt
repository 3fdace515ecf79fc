-- ===== src/Pipe/Ring.antt =====
-- pipe.c: the ring as a queue of bytes, also when the counters have wrapped.
use cse3320_proj1_ahmed_bahb.Common.{
  ℕ, zero, suc, ◌+◌, ◌-◌, ◌%◌, ◌≤◌, ◌<◌, ◌≡◌, ◌≢◌, refl, ap, ◌∙◌, List, [], ◌∷◌, ◌++◌, arith,
  length, length-set, get_or, set, get_or-set_self, get_or-set_ne, true, false,
}
use cse3320_proj1_ahmed_bahb.Pipe.{Pipe, pipe_size, u32, is_full, is_empty, put, front, advance}

-- The number of bytes in the pipe, `nwrite - nread` on uints.
abbrev pub count : Pipe → ℕ
count p = (p.nwrite + u32 - p.nread) % u32

pub record IsValid (p : Pipe) : Type 0 where
  pub storage : length p.buf ≡ pipe_size
  pub read_fits : p.nread < u32
  pub write_fits : p.nwrite < u32
  pub room : count p ≤ pipe_size

-- The `n` bytes from position `i` of the stream on.
abbrev pub window : List ℕ → ℕ → ℕ → List ℕ
window buf i zero = []
window buf i (suc n) = get_or buf (i % pipe_size) 0 ∷ window buf ((i + 1) % u32) n

-- What the pipe holds, the oldest byte first.
abbrev pub contents : Pipe → List ℕ
contents p = window p.buf p.nread (count p)

length-window : (buf : List ℕ) (i n : ℕ) → length (window buf i n) ≡ n
length-window buf i zero = refl
length-window buf i (suc n) = ap suc (length-window buf ((i + 1) % u32) n)

pub length-contents : (p : Pipe) → length (contents p) ≡ count p
length-contents p = length-window p.buf p.nread (count p)

-- The tests of the code, through the count.
pub is_full_of_count : (p : Pipe) → IsValid p → count p ≡ pipe_size → is_full p ≡ true
is_full_of_count p v h = ground arith

pub count_of_is_full : (p : Pipe) → IsValid p → is_full p ≡ true → count p ≡ pipe_size
count_of_is_full p v h = ground arith

pub count_of_not_full : (p : Pipe) → IsValid p → is_full p ≡ false → count p < pipe_size
count_of_not_full p v h = ground arith

pub count_of_is_empty : (p : Pipe) → IsValid p → is_empty p ≡ true → count p ≡ 0
count_of_is_empty p v h = ground arith

pub count_of_not_empty : (p : Pipe) → IsValid p → is_empty p ≡ false → 0 < count p
count_of_not_empty p v h = ground arith

-- A byte written just past a window extends it.
window-set :
    (buf : List ℕ) (x n i w : ℕ)
    → length buf ≡ pipe_size
    → n < pipe_size
    → i < u32
    → w ≡ (i + n) % u32
    → window (set buf (w % pipe_size) x) i (suc n) ≡ window buf i n ++ x ∷ []
window-set buf x zero i w size few fits e =
    let at : i ≡ w = omega arith in rw (at, get_or-set_self buf (w % pipe_size) x 0 (omega arith))
window-set buf x (suc n) i w size few fits e =
    let apart : w % pipe_size ≢ i % pipe_size = omega arith in
    let rest =
      window-set buf x n ((i + 1) % u32) w size (omega arith) (omega arith) (omega arith) in
    rw (get_or-set_ne buf (w % pipe_size) (i % pipe_size) x 0 apart, rest)

module _ (p : Pipe) (v : IsValid p) where
  pub count-put : (x : ℕ) → count p < pipe_size → count (put p x) ≡ count p + 1
  count-put x h = omega (arith, v.read_fits, v.write_fits)

  pub put-IsValid : (x : ℕ) → count p < pipe_size → IsValid (put p x)
  put-IsValid x h = record {
    storage = length-set p.buf (p.nwrite % pipe_size) x ∙ v.storage;
    read_fits = v.read_fits;
    write_fits = omega arith;
    room = omega (arith, v.read_fits, v.write_fits);
  }

  -- Writing a byte appends it to the contents.
  pub contents-put : (x : ℕ) → count p < pipe_size → contents (put p x) ≡ contents p ++ x ∷ []
  contents-put x h =
      let c : count (put p x) ≡ suc (count p) = omega (arith, count-put x h) in
      rw c (
        window-set p.buf x (count p) p.nread p.nwrite v.storage h v.read_fits
          (omega (arith, v.read_fits, v.write_fits)))

  pub advance-IsValid : 0 < count p → IsValid (advance p)
  advance-IsValid h = record {
    storage = v.storage;
    read_fits = omega arith;
    write_fits = v.write_fits;
    room = omega (arith, v.read_fits, v.write_fits, v.room);
  }

  -- Reading a byte takes the front of the contents.
  pub contents-advance : 0 < count p → contents p ≡ front p ∷ contents (advance p)
  contents-advance h =
      let c : count p ≡ suc (count (advance p)) = omega (arith, v.read_fits, v.write_fits) in rw c
