-- ===== src/Log/Commit.antt =====
-- log.c: what a commit leaves on the disk, wherever the power fails in it.
use cse3320_proj1_ahmed_bahb.Common.{
  ℕ, ◌+◌, ◌≤◌, ◌<◌, ◌≡◌, ◌≢◌, refl, sym, ap, ◌∙◌, ◌⊎◌, inl, inr, List, [], ◌∷◌, arith, length, All,
  dec_lt, ltb, true, false,
}
use cse3320_proj1_ahmed_bahb.Log.{
  Log, Block, block_words, bread, bwrite, header, write_head, write_log_from, write_log,
  install_from, install_trans, install_and_clear, commit,
}
use cse3320_proj1_ahmed_bahb.Log.Header.{header-head_block, length-head_block}
use cse3320_proj1_ahmed_bahb.Log.Writes.{
  IsHome, NotIn, Logged-agree, WroteLog, write_log_from-WroteLog,
}
use cse3320_proj1_ahmed_bahb.Log.States.{
  IsLayout, Recoverable, Settled, Settled-Recoverable, Ready, disk-write_head_dead,
  disk-write_head_start, disk-write_head_ne, cache-write_head_start, cache-write_head_ne,
  layout-install_from,
}
use cse3320_proj1_ahmed_bahb.Log.Recover.{
  install_and_clear-Recoverable, install_and_clear-Settled, cache-install_and_clear,
  words-install_and_clear,
}

-- A transaction over a disk that has settled at `old`: the blocks in the header are those that may
-- differ between the cache and the disk, and they fit in the log.
pub record InTransaction (s : Log) (old : ℕ → Block) : Type 0 where
  pub layout : IsLayout s.start s.size
  pub settled : Settled s.start s.size s.disk old
  pub home : All (IsHome s.start s.size) s.lh
  pub room : length s.lh < s.size
  pub clean : (b : ℕ) → IsHome s.start s.size b → NotIn b s.lh → s.cache b ≡ s.disk b
  pub words : length (s.cache s.start) ≡ block_words

-- Without power nothing reaches the disk.
install_from_dead :
    (tail : ℕ) (bs : List ℕ) (s : Log)
    → s.left ≡ 0
    → ((install_from tail bs s).disk ≡ s.disk) × ((install_from tail bs s).left ≡ 0)
unfolding install_from bwrite bread
install_from_dead tail [] s e = (refl, e)
install_from_dead tail (b ∷ bs) s e =
    let s' = bwrite s b (bread s (s.start + tail + 1)) in
    let rest = install_from_dead (tail + 1) bs s' (omega arith) in (rest.0 ∙ ground arith, rest.1)

install_and_clear_dead : (s : Log) → s.left ≡ 0 → (install_and_clear s).disk ≡ s.disk
unfolding install_and_clear install_trans
install_and_clear_dead s e =
    let i = install_from_dead 0 s.lh s e in
    disk-write_head_dead (record (install_from 0 s.lh s) { lh = [] }) i.1 ∙ i.0

module _ (s : Log) (old : ℕ → Block) (x : InTransaction s old) where
  wrote : WroteLog s (write_log_from 0 s.lh s) 0 s.lh s.cache
  wrote = write_log_from-WroteLog 0 s.lh s s.cache x.home (omega (arith, x.room)) (λ b h. refl)

  -- The state after `write_log`, with the fields that it keeps written out.
  abbrev pub after_log : Log
  after_log = record (write_log_from 0 s.lh s) { start = s.start; size = s.size; lh = s.lh }

  after_log_lem : write_log s ≡ after_log
  unfolding write_log
  after_log_lem = λ i. record (write_log_from 0 s.lh s) {
    start = wrote.kept.start i;
    size = wrote.kept.size i;
    lh = wrote.kept.lh i;
  }

  home_ne_start : (b : ℕ) → IsHome s.start s.size b → b ≢ s.start
  home_ne_start b h = omega (arith, x.layout.some_log)

  home_outside :
      (b : ℕ) → IsHome s.start s.size b → (b ≤ s.start + 0) ⊎ (s.start + 0 + length s.lh < b)
  home_outside b h = omega (arith, x.room)

  -- The log was cut short: its header is still empty, and no home block was touched.
  log_cut-Settled : Settled s.start s.size after_log.disk old
  log_cut-Settled =
      let head = wrote.outside_disk s.start (omega arith) in
      record {
        empty = ap header head ∙ x.settled.empty;
        stays = λ b h. wrote.outside_disk b (home_outside b h) ∙ x.settled.stays b h;
        words = ap (λ (v : Block). length v) head ∙ x.settled.words;
      }

  header_words : length (after_log.cache s.start) ≡ block_words
  header_words = ap (λ (v : Block). length v) (wrote.outside_cache s.start (omega arith)) ∙ x.words

  -- Writing the header is the point of commitment.
  committed-Recoverable :
      length s.lh < s.left → Recoverable s.start s.size (write_head after_log).disk s.cache
  committed-Recoverable lasts =
      let head = disk-write_head_start after_log s.start refl (omega (arith, wrote.kept.left)) in
      record {
        entries = s.lh;
        is_header =
            ap header head
            ∙ header-head_block s.lh (after_log.cache s.start) header_words
                (omega (arith, x.room, x.layout.header_fits));
        home = x.home;
        room = x.room;
        logged =
            Logged-agree after_log.disk (write_head after_log).disk s.cache s.start 0 s.lh
              (λ q lo hi. disk-write_head_ne after_log q (omega arith))
              (wrote.on_disk (omega arith));
        stays = λ b h n.
            disk-write_head_ne after_log b (home_ne_start b h)
            ∙ wrote.outside_disk b (home_outside b h)
            ∙ sym (x.clean b h n);
        words =
            ap (λ (v : Block). length v) head
            ∙ length-head_block s.lh (after_log.cache s.start)
            ∙ header_words;
      }

  committed-Ready : length s.lh < s.left → Ready (write_head after_log) s.cache
  unfolding write_head bwrite committed-Recoverable
  committed-Ready lasts = record {
    layout = x.layout;
    disk = committed-Recoverable lasts;
    entries = refl;
    logged =
        Logged-agree after_log.cache (write_head after_log).cache s.cache s.start 0 s.lh
          (λ q lo hi. cache-write_head_ne after_log q (omega arith)) wrote.cached;
    words =
        ap (λ (v : Block). length v) (cache-write_head_start after_log s.start refl)
        ∙ length-head_block s.lh (after_log.cache s.start)
        ∙ header_words;
  }

  -- The commit of a transaction that has written something.
  abbrev pub finish : Log
  finish = install_and_clear (write_head after_log)

  pub commit-finish : ltb 0 (length s.lh) ≡ true → commit s ≡ finish
  unfolding commit
  commit-finish e = rw (e, after_log_lem)

  pub commit-empty : ltb 0 (length s.lh) ≡ false → commit s ≡ s
  unfolding commit
  commit-empty e = rw e

  pub finish-Recoverable :
      Recoverable s.start s.size finish.disk old ⊎ Recoverable s.start s.size finish.disk s.cache
  unfolding write_head bwrite
  finish-Recoverable = elim (dec_lt (length s.lh) s.left) [
    | yes lasts ↦
        inr (install_and_clear-Recoverable (write_head after_log) s.cache (committed-Ready lasts))
    | no fails ↦
        let off : after_log.left ≡ 0 = omega (arith, wrote.kept.left) in
        let same : finish.disk ≡ after_log.disk =
          install_and_clear_dead (write_head after_log) (omega arith)
          ∙ disk-write_head_dead after_log off in
        inl
          (rw same (Settled-Recoverable s.start s.size after_log.disk old x.layout log_cut-Settled))
  ]

  pub finish-Settled :
      length s.lh + length s.lh + 1 < s.left → Settled s.start s.size finish.disk s.cache
  unfolding write_head bwrite
  finish-Settled lasts =
      install_and_clear-Settled (write_head after_log) s.cache (committed-Ready (omega arith))
        (omega (arith, wrote.kept.left))

  -- In memory a commit changes no home block.
  pub cache-finish :
      length s.lh < s.left → (b : ℕ) → IsHome s.start s.size b → finish.cache b ≡ s.cache b
  unfolding write_head bwrite
  cache-finish lasts =
      cache-install_and_clear (write_head after_log) s.cache (committed-Ready lasts) (λ b h n.
        cache-write_head_ne after_log b (home_ne_start b h)
        ∙ wrote.outside_cache b (home_outside b h))

  pub layout-finish : (finish.start ≡ s.start) × (finish.size ≡ s.size)
  unfolding install_and_clear install_trans write_head bwrite
  layout-finish = layout-install_from 0 s.lh (write_head after_log)

  lh-finish : finish.lh ≡ []
  unfolding install_and_clear write_head bwrite
  lh-finish = refl

  -- After a commit with enough power the next transaction starts over the new contents.
  pub finish-InTransaction : length s.lh + length s.lh + 1 < s.left → InTransaction finish s.cache
  unfolding write_head bwrite
  finish-InTransaction lasts =
      let d = finish-Settled lasts in
      let lay = layout-finish in
      let is : finish ≡ record finish { start = s.start; size = s.size; lh = [] } =
        λ i. record finish { start = lay.0 i; size = lay.1 i; lh = lh-finish i } in
      rw is (record {
        layout = x.layout;
        settled = d;
        home = tt;
        room = x.layout.some_log;
        clean = λ b h n. cache-finish (omega arith) b h ∙ sym (d.stays b h);
        words =
            words-install_and_clear (write_head after_log) s.cache (committed-Ready (omega arith));
      })
