-- ===== src/Log/Crash.antt =====
-- log.c: transactions as the rest of the file system sees them: log_write, commit, crash, recovery.
use cse3320_proj1_ahmed_bahb.Common.{
  ℕ, ◌+◌, ◌≤◌, ◌<◌, ◌≡◌, ◌≢◌, refl, sym, ◌∙◌, ◌⊎◌, inl, inr, List, [], ◌∷◌, arith, length, All, ltb,
  ◌==◌, true, Bool-cases,
}
use cse3320_proj1_ahmed_bahb.Common.Maps.{update}
use cse3320_proj1_ahmed_bahb.Common.Outcome.{ok}
use cse3320_proj1_ahmed_bahb.Log.{
  Log, Block, absorb, log_write, commit, install_and_clear, write_head, bwrite, reboot,
}
use cse3320_proj1_ahmed_bahb.Log.Writes.{IsHome, NotIn}
use cse3320_proj1_ahmed_bahb.Log.States.{IsLayout, Recoverable, Settled, Settled-Recoverable}
use cse3320_proj1_ahmed_bahb.Log.Recover.{reboot-Recoverable, reboots, reboots-Recoverable}
use cse3320_proj1_ahmed_bahb.Log.Commit.{
  InTransaction, commit-finish, commit-empty, finish-Recoverable, finish-InTransaction,
  layout-finish,
}

-- `absorb` keeps what is there and adds the block at most once.
pub length-absorb :
    (xs : List ℕ) (b : ℕ)
    → (length xs ≤ length (absorb xs b)) × (length (absorb xs b) ≤ length xs + 1)
unfolding absorb
length-absorb [] b = omega arith
length-absorb (x ∷ xs) b = ground (arith, length-absorb xs b)

All-absorb {ℓ} : (P : ℕ → Type ℓ) (xs : List ℕ) (b : ℕ) → All P xs → P b → All P (absorb xs b)
unfolding absorb
All-absorb P [] b a p = (p, tt)
All-absorb P (x ∷ xs) b a p = elim (Bool-cases (x == b)) [
  | inl e ↦ rw e (p, a.1)
  | inr e ↦ rw e (a.0, All-absorb P xs b a.1 p)
]

NotIn-absorb : (q : ℕ) (xs : List ℕ) (b : ℕ) → NotIn q (absorb xs b) → (q ≢ b) × NotIn q xs
unfolding absorb
NotIn-absorb q [] b n = (n.0, tt)
NotIn-absorb q (x ∷ xs) b n = elim (Bool-cases (x == b)) [
  | inl e ↦ let n' = rw e at n in let is : x ≡ b = ground arith in (n'.0, (rw is n'.0, n'.1))
  | inr e ↦ let n' = rw e at n in let rest = NotIn-absorb q xs b n'.1 in (rest.0, (n'.0, rest.1))
]

-- The state after a `log_write` that returns.
abbrev pub written : Log → ℕ → Block → Log
written s b v = record s {
  cache = update s.cache b v;
  dirty = update s.dirty b true;
  lh = absorb s.lh b;
}

pub log_write-eq-ok :
    (s : Log) (b : ℕ) (v : Block) {t : Log}
    → log_write s b v ≡ ok t
    → (t ≡ written s b v) × (length s.lh < 30) × (length s.lh + 1 < s.size)
unfolding log_write
log_write-eq-ok s b v e = ground arith

-- A `log_write` that returns keeps the transaction in order, changes block `b` in memory only, and
-- leaves every other block and the disk alone.
pub log_write-InTransaction :
    (s : Log) (old : ℕ → Block) (b : ℕ) (v : Block) {t : Log}
    → InTransaction s old
    → IsHome s.start s.size b
    → log_write s b v ≡ ok t
    → InTransaction t old
      × (t.cache b ≡ v)
      × ((q : ℕ) → q ≢ b → t.cache q ≡ s.cache q)
      × (t.disk ≡ s.disk)
log_write-InTransaction s old b v x h e =
    let inv = log_write-eq-ok s b v e in
    let some_log = x.layout.some_log in
    rw (inv.0) (
      record {
        layout = x.layout;
        settled = x.settled;
        home = All-absorb (IsHome s.start s.size) s.lh b x.home h;
        room = omega (arith, inv.2, length-absorb s.lh b);
        clean = λ q hq n.
            let n' = NotIn-absorb q s.lh b n in
            let ne = n'.0 in let same = x.clean q hq n'.1 in ground arith;
        words = ground (arith, x.words);
      },
      ground arith,
      λ q ne. ground arith,
      refl,
    )

commit-starts :
    (s : Log) (old : ℕ → Block)
    → InTransaction s old
    → length s.lh + length s.lh + 1 < s.left
    → InTransaction (commit s) s.cache
commit-starts s old x lasts = elim (Bool-cases (ltb 0 (length s.lh))) [
  | inl some_blocks ↦ rw (commit-finish s old x some_blocks) (finish-InTransaction s old x lasts)
  | inr no_blocks ↦ rw (commit-empty s old x no_blocks) (idle s old x (ground arith))
]
  where
    nothing : (q : ℕ) (xs : List ℕ) → length xs ≡ 0 → NotIn q xs
    nothing q [] e = tt
    nothing q (y ∷ ys) e = absurd (omega arith)

    idle :
        (s : Log) (old : ℕ → Block)
        → InTransaction s old
        → length s.lh ≡ 0
        → InTransaction s s.cache
    idle s old x e = record {
      layout = x.layout;
      settled = record {
        empty = x.settled.empty;
        stays = λ b h. sym (x.clean b h (nothing b s.lh e));
        words = x.settled.words;
      };
      home = x.home;
      room = x.room;
      clean = x.clean;
      words = x.words;
    }

commit-Recoverable :
    (s : Log) (old : ℕ → Block)
    → InTransaction s old
    → Recoverable s.start s.size (commit s).disk old
      ⊎ Recoverable s.start s.size (commit s).disk s.cache
commit-Recoverable s old x = elim (Bool-cases (ltb 0 (length s.lh))) [
  | inl some_blocks ↦ rw (commit-finish s old x some_blocks) (finish-Recoverable s old x)
  | inr no_blocks ↦
      rw (commit-empty s old x no_blocks)
        (inl (Settled-Recoverable s.start s.size s.disk old x.layout x.settled))
]

layout-commit :
    (s : Log) (old : ℕ → Block)
    → InTransaction s old
    → ((commit s).start ≡ s.start) × ((commit s).size ≡ s.size)
layout-commit s old x = elim (Bool-cases (ltb 0 (length s.lh))) [
  | inl some_blocks ↦ rw (commit-finish s old x some_blocks) (layout-finish s old x)
  | inr no_blocks ↦ rw (commit-empty s old x no_blocks) (refl, refl)
]

no_elements : (xs : List ℕ) → length xs ≡ 0 → xs ≡ []
no_elements [] e = refl
no_elements (x ∷ xs) e = absurd (omega arith)

commit-empty_header : (s : Log) → (commit s).lh ≡ []
unfolding commit install_and_clear write_head bwrite
commit-empty_header s = elim (Bool-cases (ltb 0 (length s.lh))) [
  | inl some_blocks ↦ rw some_blocks refl
  | inr no_blocks ↦ rw no_blocks (no_elements s.lh (ground arith))
]

-- A commit with enough power for its two passes over the blocks and its two writes of the header
-- ends with an empty header in memory and in a state where the next transaction may start: every home
-- block has on the disk what the cache had for it before, and the cache has that still.
pub commit-InTransaction :
    (s : Log) (old : ℕ → Block)
    → InTransaction s old
    → length s.lh + length s.lh + 1 < s.left
    → InTransaction (commit s) s.cache
      × ((commit s).lh ≡ [])
      × ((b : ℕ)
          → IsHome s.start s.size b
          → ((commit s).disk b ≡ s.cache b) × ((commit s).cache b ≡ s.cache b))
commit-InTransaction s old x lasts =
    let next = commit-starts s old x lasts in
    let empty = commit-empty_header s in
    let (start, size) = layout-commit s old x in
    (
      next,
      empty,
      λ b h.
          let h' : IsHome (commit s).start (commit s).size b = rw (start, size) h in
          let on_disk = next.settled.stays b h' in
          let none : NotIn b (commit s).lh = rw (empty) tt in
          (on_disk, next.clean b h' none ∙ on_disk),
    )

recovered :
    (t : Log) (start size : ℕ) (content : ℕ → Block) (powers : List ℕ) (final : ℕ)
    → t.start ≡ start
    → t.size ≡ size
    → IsLayout start size
    → size ≤ final
    → Recoverable start size t.disk content
    → Settled start size (reboot final (reboots powers t)).disk content
recovered t start size content powers final es ez layout enough r =
    let u = reboots powers t in
    let k = reboots-Recoverable powers t start size content es ez layout r in
    rw (← k.0, ← k.1)
      ((reboot-Recoverable final u content (rw (k.0, k.1) layout) (rw (k.0, k.1) k.2)).1
        (omega (arith, k.1)))

-- The power may fail at any disk write of a commit, and again at any write of any number of
-- recoveries. After a recovery that runs to its end the home blocks hold, all of them, what they held
-- before the transaction, or all of them what the transaction had written; and the log is empty.
pub crash_atomic :
    (s : Log) (old : ℕ → Block) (powers : List ℕ) (final : ℕ)
    → InTransaction s old
    → s.size ≤ final
    → Settled s.start s.size (reboot final (reboots powers (commit s))).disk old
      ⊎ Settled s.start s.size (reboot final (reboots powers (commit s))).disk s.cache
crash_atomic s old powers final x enough =
    let lay = layout-commit s old x in
    elim (commit-Recoverable s old x) [
      | inl before ↦
          inl (
            recovered (commit s) s.start s.size old powers final lay.0 lay.1 x.layout enough before)
      | inr after ↦ inr (
          recovered (commit s) s.start s.size s.cache powers final lay.0 lay.1 x.layout enough
            after)
    ]
