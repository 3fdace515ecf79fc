-- ===== src/Log/Header.antt =====
-- log.c: the header block, written by write_head and read back by read_head.
use cse3320_proj1_ahmed_bahb.Common.{
  ℕ, ◌+◌, ◌≤◌, ◌<◌, ◌≡◌, refl, ◌∙◌, List, [], ◌∷◌, arith, length, get_or, set, length-set,
  get_or-set_self, get_or-set_ne,
}
use cse3320_proj1_ahmed_bahb.Log.{Block, block_words, put_words, get_words, head_block, header}

length-put_words : (i : ℕ) (bs : List ℕ) (v : Block) → length (put_words i bs v) ≡ length v
unfolding put_words
length-put_words i [] v = refl
length-put_words i (b ∷ bs) v = length-put_words (i + 1) bs (set v i b) ∙ length-set v i b

-- The words below the first one written stay.
get-put_words_below :
    (j i : ℕ) (bs : List ℕ) (v : Block) → j < i → get_or (put_words i bs v) j 0 ≡ get_or v j 0
unfolding put_words
get-put_words_below j i [] v h = refl
get-put_words_below j i (b ∷ bs) v h =
    get-put_words_below j (i + 1) bs (set v i b) (omega arith)
    ∙ get_or-set_ne v i j b 0 (omega arith)

get-put_words :
    (i : ℕ) (bs : List ℕ) (v : Block)
    → i + length bs ≤ length v
    → get_words (length bs) i (put_words i bs v) ≡ bs
unfolding put_words get_words
get-put_words i [] v h = refl
get-put_words i (b ∷ bs) v h =
    let first : get_or (put_words (i + 1) bs (set v i b)) i 0 ≡ b =
      get-put_words_below i (i + 1) bs (set v i b) (omega arith)
      ∙ get_or-set_self v i b 0 (omega arith) in
    rw (first, get-put_words (i + 1) bs (set v i b) (omega (arith, length-set v i b)))

pub length-head_block : (bs : List ℕ) (v : Block) → length (head_block bs v) ≡ length v
unfolding head_block
length-head_block bs v = length-put_words 1 bs (set v 0 (length bs)) ∙ length-set v 0 (length bs)

-- What `write_head` writes over any block of 128 words, `read_head` reads back, as long as the
-- entries fit.
pub header-head_block :
    (bs : List ℕ) (v : Block)
    → length v ≡ block_words
    → length bs < block_words
    → header (head_block bs v) ≡ bs
unfolding header head_block
header-head_block bs v size fits =
    let count : get_or (put_words 1 bs (set v 0 (length bs))) 0 0 ≡ length bs =
      get-put_words_below 0 1 bs (set v 0 (length bs)) (omega arith)
      ∙ get_or-set_self v 0 (length bs) 0 (omega arith) in
    rw count (get-put_words 1 bs (set v 0 (length bs)) (omega (arith, length-set v 0 (length bs))))
