-- ===== src/Dinode/Words.antt =====
-- fs.c: words of two and four bytes in a block.
use cse3320_proj1_ahmed_bahb.Common.{
  ℕ, ◌+◌, ◌*◌, ◌^◌, ◌≤◌, ◌<◌, ◌≡◌, refl, ◌∙◌, ◌⊎◌, inl, List, [], ◌∷◌, length, All, arith,
}
use cse3320_proj1_ahmed_bahb.Strings.{Memory, store32}
use cse3320_proj1_ahmed_bahb.Args.{load}
use cse3320_proj1_ahmed_bahb.Dinode.{load16, store16, load_words, store_words}

pub load16-store16 : (mem : Memory) (a w : ℕ) → w < 2 ^ 16 → load16 (store16 mem a w) a ≡ w
load16-store16 mem a w h = ground arith

pub load-store32 : (mem : Memory) (a w : ℕ) → w < 2 ^ 32 → load (store32 mem a w) a ≡ w
load-store32 mem a w h = ground arith

-- Outside its bytes a store changes nothing.
pub store16-out : (mem : Memory) (a w b : ℕ) → (b < a) ⊎ (a + 2 ≤ b) → store16 mem a w b ≡ mem b
store16-out mem a w b h = ground arith

pub store32-out : (mem : Memory) (a w b : ℕ) → (b < a) ⊎ (a + 4 ≤ b) → store32 mem a w b ≡ mem b
store32-out mem a w b h = ground arith

pub store_words-out :
    (ws : List ℕ) (mem : Memory) (a b : ℕ)
    → (b < a) ⊎ (a + 4 * length ws ≤ b)
    → store_words ws mem a b ≡ mem b
unfolding store_words
store_words-out [] mem a b h = refl
store_words-out (w ∷ ws) mem a b h =
    store_words-out ws (store32 mem a w) (a + 4) b (omega arith)
    ∙ store32-out mem a w b (omega arith)

pub load_words-store_words :
    (ws : List ℕ) (mem : Memory) (a : ℕ)
    → All (λ w. w < 2 ^ 32) ws
    → load_words (length ws) (store_words ws mem a) a ≡ ws
unfolding load_words store_words
load_words-store_words [] mem a h = refl
load_words-store_words (w ∷ ws) mem a (h, hs) =
    let m = store32 mem a w in
    let out = λ (b : ℕ) (lt : b < a + 4). store_words-out ws m (a + 4) b (inl lt) in
    let first : load (store_words ws m (a + 4)) a ≡ w =
      rw
        (
          out a (omega arith),
          out (a + 1) (omega arith),
          out (a + 2) (omega arith),
          out (a + 3) (omega arith),
        )
        (load-store32 mem a w h) in
    rw (first, load_words-store_words ws m (a + 4) hs) refl
