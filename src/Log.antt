-- ===== src/Log.antt =====
-- log.c: the redo log of the file system.
-- `disk` is what the disk holds, and `cache` what `bread` returns: the last contents that were given
-- to the buffer cache, in a buffer that is pinned by B_DIRTY (`dirty`) until it is written.
-- A block is 128 words of 32 bits. `left` counts the block writes that the disk still performs
-- before the power fails; from then on a write changes nothing on the disk.
-- `lh` is the used part of `struct logheader`: `n` is its length and `block[i]` its entries.
-- `outstanding` is a C int, held as its 32-bit pattern.
pub mod Header
pub mod Writes
pub mod States
pub mod Recover
pub mod Commit
pub mod Crash
pub mod Admission
pub mod Quota
mod Tests
use cse3320_proj1_ahmed_bahb.Common.{
  ℕ, zero, suc, ◌+◌, ◌-◌, ◌*◌, ◌%◌, ◌^◌, Bool, true, false, ◌||◌, List, [], ◌∷◌, Option, none, some,
  ltb, leb, ◌==◌, if◌then◌else◌, length, get_or, set,
}
use cse3320_proj1_ahmed_bahb.Common.Maps.{update}
use cse3320_proj1_ahmed_bahb.Common.Outcome.{Outcome, ok, panic, ◌>>=◌}

abbrev pub Block : Type 0
Block = List ℕ

abbrev pub block_words : ℕ
block_words = 128

abbrev pub max_op_blocks : ℕ
max_op_blocks = 10

abbrev pub log_size : ℕ
log_size = max_op_blocks * 3

pub record Log : Type 0 where
  pub disk : ℕ → Block
  pub cache : ℕ → Block
  pub dirty : ℕ → Bool
  pub left : ℕ
  pub start : ℕ
  pub size : ℕ
  pub outstanding : ℕ
  pub committing : Bool
  pub lh : List ℕ

unfoldable pub bread : Log → ℕ → Block
bread s b = s.cache b

-- `bwrite` of a buffer that holds block `b` with contents `v`; the driver clears B_DIRTY.
unfoldable pub bwrite : Log → ℕ → Block → Log
bwrite s b v = record s {
  disk = if s.left == 0 then s.disk else update s.disk b v;
  cache = update s.cache b v;
  dirty = update s.dirty b false;
  left = s.left - 1;
}

-- `hb->block[i] = log.lh.block[i]`, from word `i` of the header block on.
pub put_words : ℕ → List ℕ → Block → Block
put_words i [] v = v
put_words i (b ∷ bs) v = put_words (i + 1) bs (set v i b)

pub get_words : ℕ → ℕ → Block → List ℕ
get_words zero i v = []
get_words (suc n) i v = get_or v i 0 ∷ get_words n (i + 1) v

-- The header block with `n` in its first word and the entries behind it.
unfoldable pub head_block : List ℕ → Block → Block
head_block bs v = put_words 1 bs (set v 0 (length bs))

unfoldable pub header : Block → List ℕ
header v = get_words (get_or v 0 0) 1 v

unfoldable pub read_head : Log → Log
unfolding bread
read_head s = record s { lh = header (bread s s.start) }

unfoldable pub write_head : Log → Log
unfolding bread
write_head s = bwrite s s.start (head_block s.lh (bread s s.start))

-- The rounds of `install_trans` from `tail` on.
pub install_from : ℕ → List ℕ → Log → Log
unfolding bread
install_from tail [] s = s
install_from tail (b ∷ bs) s =
    install_from (tail + 1) bs (bwrite s b (bread s (s.start + tail + 1)))

unfoldable pub install_trans : Log → Log
install_trans s = install_from 0 s.lh s

-- The rounds of `write_log` from `tail` on.
pub write_log_from : ℕ → List ℕ → Log → Log
unfolding bread
write_log_from tail [] s = s
write_log_from tail (b ∷ bs) s =
    write_log_from (tail + 1) bs (bwrite s (s.start + tail + 1) (bread s b))

unfoldable pub write_log : Log → Log
write_log s = write_log_from 0 s.lh s

-- `install_trans(); log.lh.n = 0; write_head();`, which ends both `commit` and the recovery.
unfoldable pub install_and_clear : Log → Log
install_and_clear s = write_head (record (install_trans s) { lh = [] })

unfoldable pub recover_from_log : Log → Log
recover_from_log s = install_and_clear (read_head s)

unfoldable pub commit : Log → Log
commit s = if ltb 0 (length s.lh) then install_and_clear (write_head (write_log s)) else s

-- `initlog` at boot: `struct log` is zero, the cache is empty, and the two fields come from the
-- superblock. The disk performs `power` writes before it fails again.
unfoldable pub reboot : ℕ → Log → Log
reboot power s = recover_from_log (record s {
  cache = s.disk;
  dirty = λ _. false;
  left = power;
  outstanding = 0;
  committing = false;
  lh = [];
})

-- One round of the loop of `begin_op`; `none` means that the caller sleeps.
unfoldable pub begin_op : Log → Option Log
begin_op s =
    if s.committing
    then none
    else (if ltb log_size (length s.lh + (s.outstanding + 1) % 2 ^ 32 * max_op_blocks)
        then none
        else some (record s { outstanding = (s.outstanding + 1) % 2 ^ 32 }))

-- The first locked part of `end_op`, with `do_commit`.
unfoldable pub end_op_leave : Log → Outcome (Log × Bool)
end_op_leave s =
    let s' = record s { outstanding = (s.outstanding + 2 ^ 32 - 1) % 2 ^ 32 } in
    if s.committing
    then panic
    else (if s'.outstanding == 0
        then ok (record s' { committing = true }, true)
        else ok (s', false))

-- What `end_op` does when it was the last: commit without the lock, then the second locked part.
unfoldable pub end_op_commit : Log → Log
end_op_commit s = record (commit s) { committing = false }

unfoldable pub end_op : Log → Outcome Log
end_op s = end_op_leave s >>= λ r. ok (if r.1 then end_op_commit r.0 else r.0)

-- `for (i = 0; i < n; i++) if (block[i] == blockno) break; block[i] = blockno; if (i == n) n++;`
unfoldable pub absorb : List ℕ → ℕ → List ℕ
absorb [] b = b ∷ []
absorb (x ∷ xs) b = let rest = absorb xs b in if x == b then b ∷ xs else x ∷ rest

-- `log_write` of a buffer that holds block `b`, whose data the caller has changed to `v`.
unfoldable pub log_write : Log → ℕ → Block → Outcome Log
log_write s b v =
    if leb log_size (length s.lh) || leb s.size (length s.lh + 1)
    then panic
    else (if s.outstanding == 0 || leb (2 ^ 31) s.outstanding
        then panic
        else ok (record s {
          cache = update s.cache b v;
          dirty = update s.dirty b true;
          lh = absorb s.lh b;
        }))
