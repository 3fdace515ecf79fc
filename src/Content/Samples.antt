-- ===== src/Content/Samples.antt =====
-- A small disk with one file on it.
use cse3320_proj1_ahmed_bahb.Common.{
  ℕ, zero, suc, ◌+◌, ◌/◌, ◌<◌, ◌≡◌, refl, true, false, ◌∷◌, get_or, replicate, ltb, ◌==◌,
  if◌then◌else◌, arith, dec_lt,
}
use cse3320_proj1_ahmed_bahb.Strings.{Memory}
use cse3320_proj1_ahmed_bahb.Bitmap.{Super, bit, bpb}
use cse3320_proj1_ahmed_bahb.Content.{Node}
use cse3320_proj1_ahmed_bahb.Content.Places.{place, IsOwned, IsFile}

abbrev pub small_disk : Super
small_disk = record {
  size = 10;
  nblocks = 7;
  ninodes = 8;
  nlog = 0;
  logstart = 2;
  inodestart = 1;
  bmapstart = 2;
  reads = λ b. true;
  logs = λ b. true;
}

-- Blocks 0 to 4 are used; block 3 is the first of the file.
abbrev pub sample : ℕ → ℕ → Memory → Node
sample type size block = record {
  disk = λ b a. if b == 2 then (if a == 0 then 31 else 0) else block a;
  fields = record {
    type = type;
    major = 0;
    minor = 0;
    nlink = 1;
    size = size;
    addrs = 3 ∷ replicate 12 0;
  };
}

get_or-zeros : (n k : ℕ) → get_or {A = ℕ} (replicate n 0) k 0 ≡ 0
get_or-zeros zero k = refl
get_or-zeros (suc n) zero = refl
get_or-zeros (suc n) (suc k) = get_or-zeros n k

module _ (type size : ℕ) (block : Memory) where
  pub place-sample : (p : ℕ) → place (sample type size block) p ≡ (if p == 0 then 3 else 0)
  unfolding place
  place-sample zero = refl
  place-sample (suc k) = elim (dec_lt (suc k) 13) [
    | yes lt ↦
        let t : ltb (suc k) 13 ≡ true = ground arith in
        let f : (suc k == 0) ≡ false = ground arith in rw (t, f) (get_or-zeros 12 k)
    | no ge ↦
        let t : ltb (suc k) 13 ≡ false = ground arith in
        let f : (suc k == 0) ≡ false = ground arith in rw (t, f) refl
  ]

  first_block : IsOwned small_disk (sample type size block).disk 3
  unfolding bit
  first_block = (omega arith, refl, λ j h. omega arith)

  pub sample-IsFile : ((a : ℕ) → block a < 256) → IsFile small_disk (sample type size block)
  unfolding bit
  sample-IsFile bytes_ = record {
    calls = λ b. (refl, refl);
    bitmap = record {
      bytes = λ b a. let z = bytes_ a in ground arith;
      inside = λ c lt. omega arith;
      reserved = λ c lt. let e : c / bpb + 2 ≡ 2 = omega arith in rw e refl;
    };
    sized = (omega arith, omega arith);
    boot = refl;
    count = refl;
    owned = λ p h ne.
        let e = place-sample p in
        let t : place (sample type size block) p ≡ 3 = ground arith in rw t first_block;
    distinct = λ p q hp hq ne e. let ep = place-sample p in let eq = place-sample q in ground arith;
  }
