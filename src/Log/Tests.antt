-- ===== src/Log/Tests.antt =====
-- log.c on a log of 31 blocks from block 2 on, and the theorems at inputs that meet their hypotheses.
use cse3320_proj1_ahmed_bahb.Common.{
  ℕ, List, ◌++◌, ◌≡◌, refl, ◌⊎◌, [], ◌∷◌, arith, length, false, replicate,
}
use cse3320_proj1_ahmed_bahb.Common.Outcome.{ok, panic}
use cse3320_proj1_ahmed_bahb.Log.{
  Log, Block, header, head_block, put_words, get_words, read_head, bread, bwrite, log_write, absorb,
  commit, write_log, write_log_from, write_head, install_from, install_trans, install_and_clear,
  recover_from_log, reboot,
}
use cse3320_proj1_ahmed_bahb.Log.Writes.{IsHome}
use cse3320_proj1_ahmed_bahb.Log.States.{Settled, IsLayout}
use cse3320_proj1_ahmed_bahb.Log.Recover.{reboots}
use cse3320_proj1_ahmed_bahb.Log.Commit.{InTransaction}
use cse3320_proj1_ahmed_bahb.Log.Crash.{
  log_write-InTransaction, commit-InTransaction, crash_atomic, written,
}
use cse3320_proj1_ahmed_bahb.Log.Admission.{Sys, Steps}
use cse3320_proj1_ahmed_bahb.Log.Quota.{log_write-may_panic}

abbrev zeros : Block
zeros = replicate 128 0

abbrev sevens : Block
sevens = replicate 128 7

abbrev log31 : Log
log31 = record {
  disk = λ _. zeros;
  cache = λ _. zeros;
  dirty = λ _. false;
  left = 5;
  start = 2;
  size = 31;
  outstanding = 1;
  committing = false;
  lh = [];
}

-- One block has been logged.
abbrev one_block : Log
one_block = written log31 100 sevens

abbrev idle : Sys
idle = record { log = record log31 { outstanding = 0 }; quotas = [] }

abbrev admitted : Sys
admitted = record { log = log31; quotas = 10 ∷ [] }

log31-IsLayout : IsLayout 2 31
log31-IsLayout = omega arith

log31-Settled : Settled 2 31 log31.disk (λ _. zeros)
unfolding header get_words
log31-Settled = record { empty = refl; stays = λ b h. refl; words = refl }

log31-InTransaction : InTransaction log31 (λ _. zeros)
log31-InTransaction = record {
  layout = log31-IsLayout;
  settled = log31-Settled;
  home = tt;
  room = omega arith;
  clean = λ b h n. refl;
  words = refl;
}

-- Every write of the commit is done: the block is in its place.
commit_writes_home : (commit one_block).disk 100 ≡ sevens
unfolding commit write_log write_log_from write_head install_and_clear install_trans install_from
    bwrite bread absorb
commit_writes_home = refl

-- The power fails after the header: the block is not in its place, and recovery puts it there.
abbrev cut_after_header : Log
cut_after_header = record one_block { left = 2 }

cut_leaves_old : (commit cut_after_header).disk 100 ≡ zeros
unfolding commit write_log write_log_from write_head install_and_clear install_trans install_from
    bwrite bread absorb
cut_leaves_old = refl

recovery_installs : (reboot 31 (commit cut_after_header)).disk 100 ≡ sevens
unfolding commit write_log write_log_from write_head install_and_clear install_trans install_from
    bwrite bread absorb reboot recover_from_log read_head header head_block put_words get_words
recovery_installs = refl

one_block-InTransaction : InTransaction one_block (λ _. zeros)
unfolding log_write
one_block-InTransaction =
    (log_write-InTransaction log31 (λ _. zeros) 100 sevens log31-InTransaction (omega arith) refl).0

log_write_keeps : log_write log31 100 sevens ≡ ok one_block
unfolding log_write
log_write_keeps = refl

length-one_block : length one_block.lh ≡ 1
unfolding absorb
length-one_block = refl

commit-InTransaction_example :
    InTransaction (commit one_block) one_block.cache
    × ((commit one_block).lh ≡ [])
    × ((b : ℕ)
        → IsHome one_block.start one_block.size b
        → ((commit one_block).disk b ≡ one_block.cache b)
          × ((commit one_block).cache b ≡ one_block.cache b))
commit-InTransaction_example =
    commit-InTransaction one_block (λ _. zeros) one_block-InTransaction
      (omega (arith, length-one_block))

crash_atomic_example :
    Settled 2 31 (reboot 40 (reboots (1 ∷ 0 ∷ []) (commit cut_after_header))).disk (λ _. zeros)
    ⊎ Settled 2 31 (reboot 40 (reboots (1 ∷ 0 ∷ []) (commit cut_after_header))).disk one_block.cache
crash_atomic_example =
    crash_atomic cut_after_header (λ _. zeros) (1 ∷ 0 ∷ []) 40
      (record {
        layout = log31-IsLayout;
        settled = log31-Settled;
        home = one_block-InTransaction.home;
        room = one_block-InTransaction.room;
        clean = one_block-InTransaction.clean;
        words = one_block-InTransaction.words;
      })
      (omega arith)

-- The log that mkfs.c makes, before the first operation.
abbrev mkfs_log : Sys
mkfs_log = record {
  log = record {
    disk = λ _. [];
    cache = λ _. [];
    dirty = λ _. false;
    left = 0;
    start = 2;
    size = 30;
    outstanding = 0;
    committing = false;
    lh = [];
  };
  quotas = [];
}

abbrev first_blocks : List ℕ
first_blocks = 100 ∷ 101 ∷ 102 ∷ 103 ∷ 104 ∷ 105 ∷ 106 ∷ 107 ∷ 108 ∷ 109 ∷ []

abbrev second_blocks : List ℕ
second_blocks = 200 ∷ 201 ∷ 202 ∷ 203 ∷ 204 ∷ 205 ∷ 206 ∷ 207 ∷ 208 ∷ 209 ∷ []

abbrev third_blocks : List ℕ
third_blocks = 300 ∷ 301 ∷ 302 ∷ 303 ∷ 304 ∷ 305 ∷ 306 ∷ 307 ∷ 308 ∷ []

log_write-may_panic_example :
    (t : Sys) × Steps mkfs_log t
    × (t.quotas ≡ 0 ∷ 0 ∷ 1 ∷ [])
    × (t.log.lh ≡ (first_blocks ++ second_blocks) ++ third_blocks)
    × ((b : ℕ) (v : Block) → log_write t.log b v ≡ panic)
log_write-may_panic_example =
    log_write-may_panic mkfs_log first_blocks second_blocks third_blocks
      (record { no_quotas = refl; none_outstanding = refl; no_commit = refl; no_blocks = refl })
      refl refl refl refl
      (refl, (refl, (refl, (refl, (refl, (refl, (refl, (refl, (refl, (refl, tt))))))))))
      (refl, (refl, (refl, (refl, (refl, (refl, (refl, (refl, (refl, (refl, tt))))))))))
      (refl, (refl, (refl, (refl, (refl, (refl, (refl, (refl, (refl, tt)))))))))
