-- ===== src/Log/States.antt =====
-- log.c: the states of the disk that recovery understands, and one write of the header block.
use cse3320_proj1_ahmed_bahb.Common.{
  ℕ, ◌≤◌, ◌<◌, ◌≡◌, ◌≢◌, refl, ◌+◌, List, [], ◌∷◌, arith, length, All,
}
use cse3320_proj1_ahmed_bahb.Log.{
  Log, Block, block_words, bread, bwrite, header, head_block, write_head, install_from,
}
use cse3320_proj1_ahmed_bahb.Log.Writes.{IsHome, NotIn, Logged}

-- The log lies in `[start, start + size)`, and its header fits in a block.
pub record IsLayout (start size : ℕ) : Type 0 where
  pub some_log : 0 < size
  pub header_fits : size ≤ block_words

-- A disk from which recovery gives `content`: either the header is empty and the home blocks have
-- it, or the log has it for the blocks of the header and the other home blocks have it already.
pub record Recoverable (start size : ℕ) (disk content : ℕ → Block) : Type 0 where
  pub entries : List ℕ
  pub is_header : header (disk start) ≡ entries
  pub home : All (IsHome start size) entries
  pub room : length entries < size
  pub logged : Logged disk content start 0 entries
  pub stays : (b : ℕ) → IsHome start size b → NotIn b entries → disk b ≡ content b
  pub words : length (disk start) ≡ block_words

-- A disk with an empty log and `content` in the home blocks.
pub record Settled (start size : ℕ) (disk content : ℕ → Block) : Type 0 where
  pub empty : header (disk start) ≡ []
  pub stays : (b : ℕ) → IsHome start size b → disk b ≡ content b
  pub words : length (disk start) ≡ block_words

pub Settled-Recoverable :
    (start size : ℕ) (disk content : ℕ → Block)
    → IsLayout start size
    → Settled start size disk content
    → Recoverable start size disk content
Settled-Recoverable start size disk content layout d = record {
  entries = [];
  is_header = d.empty;
  home = tt;
  room = layout.some_log;
  logged = tt;
  stays = λ b h n. d.stays b h;
  words = d.words;
}

-- A log about to be installed: `lh` is the header on the disk, and the cache has the log's blocks.
pub record Ready (s : Log) (content : ℕ → Block) : Type 0 where
  pub layout : IsLayout s.start s.size
  pub disk : Recoverable s.start s.size s.disk content
  pub entries : disk.entries ≡ s.lh
  pub logged : Logged s.cache content s.start 0 s.lh
  pub words : length (s.cache s.start) ≡ block_words

-- The state of the disk after a write of the header block, by whether the power was still there.
module _ (s : Log) where
  pub disk-write_head_dead : s.left ≡ 0 → (write_head s).disk ≡ s.disk
  unfolding write_head bwrite bread
  disk-write_head_dead e = ground arith

  pub disk-write_head_start :
      (p : ℕ) → s.start ≡ p → s.left ≢ 0 → (write_head s).disk p ≡ head_block s.lh (s.cache p)
  unfolding write_head bwrite bread
  disk-write_head_start p at e = rw (← at) (ground arith)

  pub disk-write_head_ne : (q : ℕ) → q ≢ s.start → (write_head s).disk q ≡ s.disk q
  unfolding write_head bwrite bread
  disk-write_head_ne q ne = ground arith

  pub cache-write_head_start :
      (p : ℕ) → s.start ≡ p → (write_head s).cache p ≡ head_block s.lh (s.cache p)
  unfolding write_head bwrite bread
  cache-write_head_start p at = rw (← at) (ground arith)

  pub cache-write_head_ne : (q : ℕ) → q ≢ s.start → (write_head s).cache q ≡ s.cache q
  unfolding write_head bwrite bread
  cache-write_head_ne q ne = ground arith

-- Installing never moves the log.
pub layout-install_from :
    (tail : ℕ) (bs : List ℕ) (s : Log)
    → ((install_from tail bs s).start ≡ s.start) × ((install_from tail bs s).size ≡ s.size)
unfolding install_from bwrite bread
layout-install_from tail [] s = (refl, refl)
layout-install_from tail (b ∷ bs) s =
    layout-install_from (tail + 1) bs (bwrite s b (bread s (s.start + tail + 1)))
