-- ===== src/Log/Writes.antt =====
-- log.c: what write_log, write_head and install_trans leave on the disk and in the cache, when the
-- power lasts and when it fails on the way.
use cse3320_proj1_ahmed_bahb.Common.{
  ℕ, ◌+◌, ◌-◌, ◌≤◌, ◌<◌, ◌≡◌, ◌≢◌, refl, ◌∙◌, ◌⊎◌, List, [], ◌∷◌, arith, length, ℕ_discrete, All,
}
use cse3320_proj1_ahmed_bahb.Log.{Log, Block, bread, bwrite, write_log_from, install_from}

-- A block outside the log: the superblock lies below it, inodes, bitmap and data above it.
abbrev pub IsHome : ℕ → ℕ → ℕ → Type 0
IsHome start size b = (b < start) ⊎ (start + size ≤ b)

abbrev pub NotIn : ℕ → List ℕ → Type 0
NotIn b bs = All (λ c. b ≢ c) bs

-- The log blocks from `tail` on hold what `content` has for the blocks of the list.
abbrev pub Logged : (ℕ → Block) → (ℕ → Block) → ℕ → ℕ → List ℕ → Type 0
Logged disk content start tail [] = Unit
Logged disk content start tail (b ∷ bs) =
    (disk (start + tail + 1) ≡ content b) × Logged disk content start (tail + 1) bs

pub Logged-agree :
    (disk disk' content : ℕ → Block) (start tail : ℕ) (bs : List ℕ)
    → ((q : ℕ) → start + tail < q → q ≤ start + tail + length bs → disk' q ≡ disk q)
    → Logged disk content start tail bs
    → Logged disk' content start tail bs
Logged-agree disk disk' content start tail [] same l = tt
Logged-agree disk disk' content start tail (b ∷ bs) same l = (
  same (start + tail + 1) (omega arith) (omega arith) ∙ l.0,
  Logged-agree disk disk' content start (tail + 1) bs
      (λ q lo hi. same q (omega arith) (omega arith)) l.1,
)

-- What both loops leave alone.
pub record Kept (s t : Log) (spent : ℕ) : Type 0 where
  pub start : t.start ≡ s.start
  pub size : t.size ≡ s.size
  pub lh : t.lh ≡ s.lh
  pub left : t.left ≡ s.left - spent

-- `write_log` from `tail` on, when the log has room for the rest of the list.
pub record WroteLog (s t : Log) (tail : ℕ) (bs : List ℕ) (content : ℕ → Block) : Type 0 where
  pub kept : Kept s t (length bs)
  pub outside_disk :
      (q : ℕ) → (q ≤ s.start + tail) ⊎ (s.start + tail + length bs < q) → t.disk q ≡ s.disk q
  pub outside_cache :
      (q : ℕ) → (q ≤ s.start + tail) ⊎ (s.start + tail + length bs < q) → t.cache q ≡ s.cache q
  pub cached : Logged t.cache content s.start tail bs
  pub on_disk : length bs ≤ s.left → Logged t.disk content s.start tail bs

pub write_log_from-WroteLog :
    (tail : ℕ) (bs : List ℕ) (s : Log) (content : ℕ → Block)
    → All (IsHome s.start s.size) bs
    → tail + length bs < s.size
    → ((b : ℕ) → IsHome s.start s.size b → s.cache b ≡ content b)
    → WroteLog s (write_log_from tail bs s) tail bs content
unfolding write_log_from bwrite bread
write_log_from-WroteLog tail [] s content home room same = record {
  kept = record { start = refl; size = refl; lh = refl; left = omega arith };
  outside_disk = λ q h. refl;
  outside_cache = λ q h. refl;
  cached = tt;
  on_disk = λ h. tt;
}
write_log_from-WroteLog tail (b ∷ bs) s content home room same =
    let s' = bwrite s (s.start + tail + 1) (s.cache b) in
    let rest =
      write_log_from-WroteLog (tail + 1) bs s' content home.1 (omega arith)
        (λ c h. ground (arith, same c h)) in
    record {
      kept = record {
        start = rest.kept.start;
        size = rest.kept.size;
        lh = rest.kept.lh;
        left = omega (arith, rest.kept.left);
      };
      outside_disk = λ q h. rest.outside_disk q (omega arith) ∙ ground arith;
      outside_cache = λ q h. rest.outside_cache q (omega arith) ∙ ground arith;
      cached = (
        rest.outside_cache (s.start + tail + 1) (omega arith) ∙ ground (arith, same b home.0),
        rest.cached,
      );
      on_disk = λ h. (
        rest.outside_disk (s.start + tail + 1) (omega arith) ∙ ground (arith, same b home.0),
        rest.on_disk (omega arith),
      );
    }

-- No block of the log itself is in a list of home blocks.
pub log_block-NotIn :
    (start size q : ℕ) (bs : List ℕ)
    → start ≤ q
    → q < start + size
    → All (IsHome start size) bs
    → NotIn q bs
log_block-NotIn start size q [] lo hi home = tt
log_block-NotIn start size q (b ∷ bs) lo hi home =
    (let h = home.0 in omega arith, log_block-NotIn start size q bs lo hi home.1)

-- `install_trans` from `tail` on, where the log holds `content` for the rest of the list. Blocks of
-- the list have it afterwards, the others are as before.
pub record Installed (s t : Log) (bs : List ℕ) (content : ℕ → Block) : Type 0 where
  pub kept : Kept s t (length bs)
  pub disk_stays : (q : ℕ) → NotIn q bs → t.disk q ≡ s.disk q
  pub cache_stays : (q : ℕ) → NotIn q bs → t.cache q ≡ s.cache q
  pub on_disk :
      length bs ≤ s.left → (q : ℕ) → (NotIn q bs → s.disk q ≡ content q) → t.disk q ≡ content q
  pub cached : (q : ℕ) → (NotIn q bs → s.cache q ≡ content q) → t.cache q ≡ content q

pub install_from-Installed :
    (tail : ℕ) (bs : List ℕ) (s : Log) (content : ℕ → Block)
    → All (IsHome s.start s.size) bs
    → tail + length bs < s.size
    → Logged s.cache content s.start tail bs
    → Installed s (install_from tail bs s) bs content
unfolding install_from bwrite bread
install_from-Installed tail [] s content home room l = record {
  kept = record { start = refl; size = refl; lh = refl; left = omega arith };
  disk_stays = λ q n. refl;
  cache_stays = λ q n. refl;
  on_disk = λ h q same. same tt;
  cached = λ q same. same tt;
}
install_from-Installed tail (b ∷ bs) s content home room l =
    let s' = bwrite s b (s.cache (s.start + tail + 1)) in
    let at_home = home.0 in
    let copied = l.0 in
    let rest =
      install_from-Installed (tail + 1) bs s' content home.1 (omega arith) (
        Logged-agree s.cache s'.cache content s.start (tail + 1) bs (λ q lo hi. ground arith)
          l.1) in
    record {
      kept = record {
        start = rest.kept.start;
        size = rest.kept.size;
        lh = rest.kept.lh;
        left = omega (arith, rest.kept.left);
      };
      disk_stays = λ q n. rest.disk_stays q n.1 ∙ (let ne = n.0 in ground arith);
      cache_stays = λ q n. rest.cache_stays q n.1 ∙ (let ne = n.0 in ground arith);
      on_disk = λ h q same. rest.on_disk (omega arith) q (λ n. elim (ℕ_discrete q b) [
        | yes e ↦ ground arith
        | no ne ↦ (let old = same (ne, n) in ground arith)
      ]);
      cached = λ q same. rest.cached q (λ n. elim (ℕ_discrete q b) [
        | yes e ↦ ground arith
        | no ne ↦ (let old = same (ne, n) in ground arith)
      ]);
    }
