-- ===== src/Dinode/Layout.antt =====
-- fs.c: the fields of a struct dinode in its 64 bytes.
use mathlib.Core.Path.{ap₂}
use cse3320_proj1_ahmed_bahb.Common.{
  ℕ, zero, suc, ◌+◌, ◌*◌, ◌^◌, ◌≤◌, ◌<◌, ◌≡◌, refl, ◌∙◌, ◌⊎◌, inl, length, All, arith,
}
use cse3320_proj1_ahmed_bahb.Strings.{Memory, store32}
use cse3320_proj1_ahmed_bahb.Args.{load}
use cse3320_proj1_ahmed_bahb.Dinode.{
  Dinode, ndirect, dinode_size, load16, store16, load_words, read_dinode, write_dinode,
}
use cse3320_proj1_ahmed_bahb.Dinode.Words.{store_words-out, load_words-store_words}

-- The fields fit into their places.
pub record IsDinode (d : Dinode) : Type 0 where
  pub type : d.type < 2 ^ 16
  pub major : d.major < 2 ^ 16
  pub minor : d.minor < 2 ^ 16
  pub nlink : d.nlink < 2 ^ 16
  pub size : d.size < 2 ^ 32
  pub count : length d.addrs ≡ ndirect + 1
  pub addrs : All (λ w. w < 2 ^ 32) d.addrs

module _ (mem : Memory) (a : ℕ) (d : Dinode) where
  -- The block before the words of `addrs` are stored.
  abbrev head : Memory
  head =
      store32
        (store16 (store16 (store16 (store16 mem a d.type) (a + 2) d.major) (a + 4) d.minor) (a + 6)
          d.nlink)
        (a + 8) d.size

  write_dinode-head : (b : ℕ) → b < a + 12 → write_dinode mem a d b ≡ head b
  unfolding write_dinode
  write_dinode-head b lt = store_words-out d.addrs head (a + 12) b (inl lt)

  load16-head : (b : ℕ) → b + 1 < a + 12 → load16 (write_dinode mem a d) b ≡ load16 head b
  load16-head b lt =
      ap₂ (λ (x y : ℕ). x + y * 256) (write_dinode-head b (omega arith))
        (write_dinode-head (b + 1) lt)

  load-head : load (write_dinode mem a d) (a + 8) ≡ load head (a + 8)
  load-head =
      rw
        (
          write_dinode-head (a + 8) (omega arith),
          write_dinode-head (a + 8 + 1) (omega arith),
          write_dinode-head (a + 8 + 2) (omega arith),
          write_dinode-head (a + 8 + 3) (omega arith),
        )
        refl

  -- No other byte of the block changes.
  pub write_dinode-out :
      (b : ℕ)
      → length d.addrs ≡ ndirect + 1
      → (b < a) ⊎ (a + dinode_size ≤ b)
      → write_dinode mem a d b ≡ mem b
  unfolding write_dinode
  write_dinode-out b count out =
      store_words-out d.addrs head (a + 12) b (omega arith) ∙ ground arith

  module _ (v : IsDinode d) where
    type_lem : load16 (write_dinode mem a d) a ≡ d.type
    type_lem = load16-head a (omega arith) ∙ (let h = v.type in ground arith)

    major_lem : load16 (write_dinode mem a d) (a + 2) ≡ d.major
    major_lem = load16-head (a + 2) (omega arith) ∙ (let h = v.major in ground arith)

    minor_lem : load16 (write_dinode mem a d) (a + 4) ≡ d.minor
    minor_lem = load16-head (a + 4) (omega arith) ∙ (let h = v.minor in ground arith)

    nlink_lem : load16 (write_dinode mem a d) (a + 6) ≡ d.nlink
    nlink_lem = load16-head (a + 6) (omega arith) ∙ (let h = v.nlink in ground arith)

    size_lem : load (write_dinode mem a d) (a + 8) ≡ d.size
    size_lem = load-head ∙ (let h = v.size in ground arith)

    addrs_lem : load_words (ndirect + 1) (write_dinode mem a d) (a + 12) ≡ d.addrs
    unfolding write_dinode
    addrs_lem = rw (← v.count) (load_words-store_words d.addrs head (a + 12) v.addrs)

-- What is written as the inode at an address of a block is read back from there.
pub read_dinode-write_dinode :
    (mem : Memory) (a : ℕ) (d : Dinode) → IsDinode d → read_dinode (write_dinode mem a d) a ≡ d
unfolding read_dinode
read_dinode-write_dinode mem a d v = λ i. record {
  type = type_lem mem a d v i;
  major = major_lem mem a d v i;
  minor = minor_lem mem a d v i;
  nlink = nlink_lem mem a d v i;
  size = size_lem mem a d v i;
  addrs = addrs_lem mem a d v i;
}

load_words-agree :
    (n : ℕ) (mem mem' : Memory) (a : ℕ)
    → ((b : ℕ) → a ≤ b → b < a + 4 * n → mem' b ≡ mem b)
    → load_words n mem' a ≡ load_words n mem a
unfolding load_words
load_words-agree zero mem mem' a h = refl
load_words-agree (suc n) mem mem' a h =
    rw
      (
        h a (omega arith) (omega arith),
        h (a + 1) (omega arith) (omega arith),
        h (a + 2) (omega arith) (omega arith),
        h (a + 3) (omega arith) (omega arith),
        load_words-agree n mem mem' (a + 4) (λ b lo hi. h b (omega arith) (omega arith)),
      )
      refl

-- An inode is its 64 bytes.
pub read_dinode-agree :
    (mem mem' : Memory) (a : ℕ)
    → ((b : ℕ) → a ≤ b → b < a + dinode_size → mem' b ≡ mem b)
    → read_dinode mem' a ≡ read_dinode mem a
unfolding read_dinode
read_dinode-agree mem mem' a h =
    let short = λ (b : ℕ) (lo : a ≤ b) (hi : b + 1 < a + dinode_size).
      let e : load16 mem' b ≡ load16 mem b =
        ap₂ (λ (x y : ℕ). x + y * 256) (h b lo (omega arith)) (h (b + 1) (omega arith) hi) in
      e in
    let long : load mem' (a + 8) ≡ load mem (a + 8) =
      rw
        (
          h (a + 8) (omega arith) (omega arith),
          h (a + 8 + 1) (omega arith) (omega arith),
          h (a + 8 + 2) (omega arith) (omega arith),
          h (a + 8 + 3) (omega arith) (omega arith),
        )
        refl in
    let words =
      load_words-agree (ndirect + 1) mem mem' (a + 12)
        (λ b lo hi. h b (omega arith) (omega arith)) in
    λ i. record {
      type = short a (omega arith) (omega arith) i;
      major = short (a + 2) (omega arith) (omega arith) i;
      minor = short (a + 4) (omega arith) (omega arith) i;
      nlink = short (a + 6) (omega arith) (omega arith) i;
      size = long i;
      addrs = words i;
    }
