-- ===== src/Strings.antt =====
-- string.c: memory and strings of the kernel, over a memory of bytes.
-- An address range given to these functions does not run past the end of the address space.
pub mod Move
pub mod Compare
pub mod Copy
mod Tests
use cse3320_proj1_ahmed_bahb.Common.{
  ℕ, zero, suc, ◌+◌, ◌-◌, ◌*◌, ◌/◌, ◌%◌, ◌^◌, Bool, true, false, ◌&&◌, Option, none, some, ltb, leb,
  ◌==◌, if◌then◌else◌,
}
use cse3320_proj1_ahmed_bahb.Common.Maps.{update}

abbrev pub Memory : Type 0
Memory = ℕ → ℕ

-- The difference of two bytes, an int: `less n` is -(n + 1).
pub data Difference : Type 0 where
  same : Difference
  more : ℕ → Difference
  less : ℕ → Difference

-- `*s1 - *s2`
abbrev pub byte_diff : ℕ → ℕ → Difference
byte_diff a b = if a == b then same else (if ltb b a then more (a - b - 1) else less (b - a - 1))

-- `rep stosb`: the low byte of `c`, `n` times from `d` on.
pub stosb : ℕ → Memory → ℕ → ℕ → Memory
stosb zero mem d c = mem
stosb (suc n) mem d c = stosb n (update mem d (c % 256)) (d + 1) c

-- A 32-bit word is stored with its low byte first.
abbrev pub store32 : Memory → ℕ → ℕ → Memory
store32 mem a w =
    update
      (update (update (update mem a (w % 256)) (a + 1) (w / 2 ^ 8 % 256)) (a + 2)
        (w / 2 ^ 16 % 256))
      (a + 3) (w / 2 ^ 24 % 256)

-- `rep stosl`: the word `w`, `n` times from `d` on.
pub stosl : ℕ → Memory → ℕ → ℕ → Memory
stosl zero mem d w = mem
stosl (suc n) mem d w = stosl n (store32 mem d w) (d + 4) w

-- `c` is a byte here, so that the four shifted copies do not overlap and `|` adds them.
abbrev pub four_times : ℕ → ℕ
four_times c = c * 2 ^ 24 + c * 2 ^ 16 + c * 2 ^ 8 + c

unfoldable pub memset : Memory → ℕ → ℕ → ℕ → Memory
memset mem d c n =
    if d % 4 == 0 && n % 4 == 0 then stosl (n / 4) mem d (four_times (c % 256)) else stosb n mem d c

-- `while(n-- > 0) *d++ = *s++;`
pub move_up : ℕ → Memory → ℕ → ℕ → Memory
move_up zero mem d s = mem
move_up (suc n) mem d s = move_up n (update mem d (mem s)) (d + 1) (s + 1)

-- `while(n-- > 0) *--d = *--s;` from the ends of both ranges.
pub move_down : ℕ → Memory → ℕ → ℕ → Memory
move_down zero mem d s = mem
move_down (suc n) mem d s = move_down n (update mem (d + n) (mem (s + n))) d s

unfoldable pub memmove : Memory → ℕ → ℕ → ℕ → Memory
memmove mem d s n = if ltb s d && ltb d (s + n) then move_down n mem d s else move_up n mem d s

unfoldable pub memcmp : ℕ → Memory → ℕ → ℕ → Difference
memcmp zero mem p q = same
memcmp (suc n) mem p q =
    let rest = memcmp n mem (p + 1) (q + 1) in
    if mem p == mem q then rest else byte_diff (mem p) (mem q)

unfoldable pub strncmp : ℕ → Memory → ℕ → ℕ → Difference
strncmp zero mem p q = same
strncmp (suc n) mem p q =
    let rest = strncmp n mem (p + 1) (q + 1) in
    if mem p == 0
    then byte_diff (mem p) (mem q)
    else (if mem p == mem q then rest else byte_diff (mem p) (mem q))

-- `while(n-- > 0) *s++ = 0;`
pub zero_fill : ℕ → Memory → ℕ → Memory
zero_fill zero mem s = mem
zero_fill (suc n) mem s = zero_fill n (update mem s 0) (s + 1)

-- A negative `n` does nothing, as 0 does.
unfoldable pub strncpy : ℕ → Memory → ℕ → ℕ → Memory
unfolding zero_fill
strncpy zero mem s t = mem
strncpy (suc n) mem s t =
    let rest = strncpy n (update mem s (mem t)) (s + 1) (t + 1) in
    if mem t == 0 then zero_fill n (update mem s (mem t)) (s + 1) else rest

-- The loop of `safestrcpy` with `n` bytes left beside the last one, and the final NUL.
pub safe_copy : ℕ → Memory → ℕ → ℕ → Memory
safe_copy zero mem s t = update mem s 0
safe_copy (suc n) mem s t =
    let rest = safe_copy n (update mem s (mem t)) (s + 1) (t + 1) in
    if mem t == 0 then update (update mem s (mem t)) (s + 1) 0 else rest

unfoldable pub safestrcpy : ℕ → Memory → ℕ → ℕ → Memory
safestrcpy zero mem s t = mem
safestrcpy (suc n) mem s t = safe_copy n mem s t

-- The loop of `strlen` from `n` on; `none` means that the fuel ran out.
pub strlen_from : ℕ → Memory → ℕ → ℕ → Option ℕ
strlen_from zero mem s n = none
strlen_from (suc fuel) mem s n =
    let rest = strlen_from fuel mem s (n + 1) in if mem (s + n) == 0 then some n else rest

unfoldable pub strlen : ℕ → Memory → ℕ → Option ℕ
strlen fuel mem s = strlen_from fuel mem s 0
