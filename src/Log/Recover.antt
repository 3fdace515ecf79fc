-- ===== src/Log/Recover.antt =====
-- log.c: recovery at boot, also when the power fails during it.
use cse3320_proj1_ahmed_bahb.Common.{
  ℕ, ◌≤◌, ◌<◌, ◌≡◌, ◌≢◌, sym, ap, ◌∙◌, List, [], ◌∷◌, arith, length, All, dec_lt, false,
}
use cse3320_proj1_ahmed_bahb.Log.{
  Log, Block, block_words, bread, bwrite, header, head_block, read_head, write_head, install_from,
  install_trans, install_and_clear, recover_from_log, reboot,
}
use cse3320_proj1_ahmed_bahb.Log.Header.{header-head_block, length-head_block}
use cse3320_proj1_ahmed_bahb.Log.States.{
  IsLayout, Recoverable, Settled, Settled-Recoverable, Ready, disk-write_head_dead,
  disk-write_head_start, disk-write_head_ne, cache-write_head_start, cache-write_head_ne,
  layout-install_from,
}
use cse3320_proj1_ahmed_bahb.Log.Writes.{
  IsHome, NotIn, Logged-agree, log_block-NotIn, Installed, install_from-Installed,
}

module _ (s : Log) (content : ℕ → Block) (r : Ready s content) where
  open r use {disk, layout}

  homes : All (IsHome s.start s.size) s.lh
  homes = rw (← r.entries) disk.home

  fits : length s.lh < s.size
  fits = rw (← r.entries) disk.room

  installed : Installed s (install_from 0 s.lh s) s.lh content
  installed = install_from-Installed 0 s.lh s content homes (omega (arith, fits)) r.logged

  abbrev cleared : Log
  cleared = record (install_from 0 s.lh s) { lh = [] }

  start_stays : NotIn s.start s.lh
  start_stays = log_block-NotIn s.start s.size s.start s.lh (omega arith) (omega arith) homes

  -- Installing alone, at any point, leaves the same contents recoverable.
  install-Recoverable : Recoverable s.start s.size cleared.disk content
  install-Recoverable = record {
    entries = s.lh;
    is_header = ap header (installed.disk_stays s.start start_stays) ∙ disk.is_header ∙ r.entries;
    home = homes;
    room = fits;
    logged =
        Logged-agree s.disk cleared.disk content s.start 0 s.lh
          (λ q lo hi.
            installed.disk_stays q
              (log_block-NotIn s.start s.size q s.lh (omega arith) (omega (arith, fits)) homes))
          (rw (← r.entries) disk.logged);
    stays = λ b h n. installed.disk_stays b n ∙ disk.stays b h (rw r.entries n);
    words = ap (λ (v : Block). length v) (installed.disk_stays s.start start_stays) ∙ disk.words;
  }

  -- While the power lasts, the disk settles.
  clear-Settled : length s.lh < s.left → Settled s.start s.size (write_head cleared).disk content
  clear-Settled lasts =
      let alive : cleared.left ≢ 0 = omega (arith, installed.kept.left) in
      let size : length (cleared.cache s.start) ≡ block_words =
        ap (λ (v : Block). length v) (installed.cache_stays s.start start_stays) ∙ r.words in
      let fresh : (write_head cleared).disk s.start ≡ head_block [] (cleared.cache s.start) =
        disk-write_head_start cleared s.start installed.kept.start alive in
      record {
        empty = ap header fresh ∙ header-head_block [] (cleared.cache s.start) size (omega arith);
        stays = λ b h.
            disk-write_head_ne cleared b (omega (arith, installed.kept.start))
            ∙ installed.on_disk (omega arith) b (λ n. disk.stays b h (rw r.entries n));
        words =
            ap (λ (v : Block). length v) fresh
            ∙ length-head_block [] (cleared.cache s.start)
            ∙ size;
      }

  -- The common end of `commit` and of the recovery, wherever the power fails in it.
  pub install_and_clear-Recoverable : Recoverable s.start s.size (install_and_clear s).disk content
  unfolding install_and_clear install_trans
  install_and_clear-Recoverable = elim (dec_lt (length s.lh) s.left) [
    | yes lasts ↦ Settled-Recoverable s.start s.size _ content layout (clear-Settled lasts)
    | no fails ↦
        rw (disk-write_head_dead cleared (omega (arith, installed.kept.left))) install-Recoverable
  ]

  pub install_and_clear-Settled :
      length s.lh < s.left → Settled s.start s.size (install_and_clear s).disk content
  unfolding install_and_clear install_trans
  install_and_clear-Settled lasts = clear-Settled lasts

  -- In memory the home blocks have the contents too, however far the writing got.
  pub cache-install_and_clear :
      ((b : ℕ) → IsHome s.start s.size b → NotIn b s.lh → s.cache b ≡ content b)
      → (b : ℕ) → IsHome s.start s.size b
      → (install_and_clear s).cache b ≡ content b
  unfolding install_and_clear install_trans
  cache-install_and_clear same b h =
      cache-write_head_ne cleared b (omega (arith, installed.kept.start))
      ∙ installed.cached b (same b h)

  pub words-install_and_clear : length ((install_and_clear s).cache s.start) ≡ block_words
  unfolding install_and_clear install_trans
  words-install_and_clear =
      ap (λ (v : Block). length v) (cache-write_head_start cleared s.start installed.kept.start)
      ∙ length-head_block [] (cleared.cache s.start)
      ∙ ap (λ (v : Block). length v) (installed.cache_stays s.start start_stays)
      ∙ r.words

-- The state in which the recovery starts to install.
abbrev rebooted : ℕ → Log → Log
rebooted power s = read_head (record s {
  cache = s.disk;
  dirty = λ _. false;
  left = power;
  outstanding = 0;
  committing = false;
  lh = [];
})

rebooted-Ready :
    (power : ℕ) (s : Log) (content : ℕ → Block)
    → IsLayout s.start s.size
    → Recoverable s.start s.size s.disk content
    → Ready (rebooted power s) content
unfolding read_head bread
rebooted-Ready power s content layout r = record {
  layout = layout;
  disk = r;
  entries = sym r.is_header;
  logged = rw (r.is_header) r.logged;
  words = r.words;
}

-- Recovery with any amount of power leaves the same contents recoverable. With enough power for
-- the entries of the header and the header itself it settles the disk: the log is empty and every
-- home block has the contents.
pub reboot-Recoverable :
    (power : ℕ) (s : Log) (content : ℕ → Block)
    → IsLayout s.start s.size
    → Recoverable s.start s.size s.disk content
    → Recoverable s.start s.size (reboot power s).disk content
      × (s.size ≤ power → Settled s.start s.size (reboot power s).disk content)
unfolding reboot recover_from_log read_head bread
reboot-Recoverable power s content layout r =
    let ready = rebooted-Ready power s content layout r in
    (
      install_and_clear-Recoverable (rebooted power s) content ready,
      λ enough.
          install_and_clear-Settled (rebooted power s) content ready
            (omega (arith, r.room, ap (λ (l : List ℕ). length l) r.is_header)),
    )

-- No boot moves the log.
pub layout-reboot :
    (power : ℕ) (s : Log) → ((reboot power s).start ≡ s.start) × ((reboot power s).size ≡ s.size)
unfolding reboot recover_from_log read_head bread install_and_clear install_trans write_head bwrite
layout-reboot power s = let r = rebooted power s in layout-install_from 0 r.lh r

-- Boots one after the other, each with the power that it has.
pub reboots : List ℕ → Log → Log
reboots [] s = s
reboots (power ∷ powers) s = reboots powers (reboot power s)

-- However often the power fails during recovery, and wherever it does, the same contents stay
-- recoverable, and the log stays where it is.
pub reboots-Recoverable :
    (powers : List ℕ) (s : Log) (start size : ℕ) (content : ℕ → Block)
    → s.start ≡ start
    → s.size ≡ size
    → IsLayout start size
    → Recoverable start size s.disk content
    → ((reboots powers s).start ≡ start)
      × ((reboots powers s).size ≡ size)
      × Recoverable start size (reboots powers s).disk content
unfolding reboots
reboots-Recoverable [] s start size content es ez layout r = (es, ez, r)
reboots-Recoverable (power ∷ powers) s start size content es ez layout r =
    let layout' : IsLayout s.start s.size = rw (es, ez) layout in
    let r' : Recoverable s.start s.size s.disk content = rw (es, ez) r in
    let place = layout-reboot power s in
    reboots-Recoverable powers (reboot power s) start size content (place.0 ∙ es) (place.1 ∙ ez)
      layout (rw (← es, ← ez) (reboot-Recoverable power s content layout' r').0)
