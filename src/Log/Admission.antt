-- ===== src/Log/Admission.antt =====
-- log.c: how many operations begin_op admits at a time, and the room that each of them reserves.
use cse3320_proj1_ahmed_bahb.Common.{
  ℕ, suc, ◌+◌, ◌*◌, ◌≤◌, ◌≡◌, ◌≢◌, refl, ap, ◌∙◌, inl, inr, List, [], ◌∷◌, ◌++◌, arith, length,
  length-append, All, Bool, true, false, ltb, some, Bool-cases, ◌==◌, ◌||◌, if◌then◌else◌,
}
use cse3320_proj1_ahmed_bahb.Common.Outcome.{ok}
use cse3320_proj1_ahmed_bahb.Log.{
  Log, Block, log_size, max_op_blocks, bwrite, bread, write_head, write_log_from, write_log,
  install_from, install_trans, install_and_clear, commit, begin_op, end_op_leave, end_op_commit,
  log_write, absorb,
}
use cse3320_proj1_ahmed_bahb.Log.Crash.{log_write-eq-ok}

-- Whether the header lists the block, so that `log_write` absorbs a write of it.
abbrev pub logged : List ℕ → ℕ → Bool
logged [] b = false
logged (x ∷ xs) b = x == b || logged xs b

-- The log, and for each operation between its `begin_op` and its `end_op` the number of blocks that
-- it may still add to the log, at most MAXOPBLOCKS in all. A write of a block that is in the log costs
-- nothing, so that an operation that writes up to MAXOPBLOCKS different blocks has its quota for them.
pub record Sys : Type 0 where
  pub log : Log
  pub quotas : List ℕ

pub data Step (s : Sys) : Sys → Type 0 where
  begin :
      {l : Log}
      → begin_op s.log ≡ some l
      → Step s (record { log = l; quotas = max_op_blocks ∷ s.quotas })
  write :
      (xs ys : List ℕ) (r b : ℕ) (v : Block) {l : Log}
      → s.quotas ≡ xs ++ suc r ∷ ys
      → log_write s.log b v ≡ ok l
      → Step s (record { log = l; quotas = xs ++ (if logged s.log.lh b then suc r else r) ∷ ys })
  leave :
      (xs ys : List ℕ) (r : ℕ) {l : Log} {do_commit : Bool}
      → s.quotas ≡ xs ++ r ∷ ys
      → end_op_leave s.log ≡ ok (l, do_commit)
      → Step s (record { log = l; quotas = xs ++ ys })
  finish :
      s.log.committing ≡ true → Step s (record { log = end_op_commit s.log; quotas = s.quotas })

pub data Steps (s : Sys) : Sys → Type 0 where
  here : Steps s s
  next : {t u : Sys} → Steps s t → Step t u → Steps s u

abbrev pub sum : List ℕ → ℕ
sum [] = 0
sum (r ∷ rs) = r + sum rs

pub sum-append : (xs ys : List ℕ) → sum (xs ++ ys) ≡ sum xs + sum ys
sum-append [] ys = omega arith
sum-append (x ∷ xs) ys = omega (arith, sum-append xs ys)

sum-le : (rs : List ℕ) → All (λ r. r ≤ max_op_blocks) rs → sum rs ≤ max_op_blocks * length rs
sum-le [] a = omega arith
sum-le (r ∷ rs) a = let h = a.0 in omega (arith, sum-le rs a.1)

All-middle :
    (xs ys : List ℕ) (r r' : ℕ)
    → All (λ q. q ≤ max_op_blocks) (xs ++ r ∷ ys)
    → r' ≤ r
    → All (λ q. q ≤ max_op_blocks) (xs ++ r' ∷ ys) × All (λ q. q ≤ max_op_blocks) (xs ++ ys)
All-middle [] ys r r' a le = let h = a.0 in ((omega arith, a.1), a.1)
All-middle (x ∷ xs) ys r r' a le =
    let rest = All-middle xs ys r r' a.1 le in ((a.0, rest.0), (a.0, rest.1))

-- A write adds a block to the header exactly if the header does not list it.
pub length-absorb-logged :
    (xs : List ℕ) (b : ℕ)
    → length (absorb xs b) ≡ (if logged xs b then length xs else length xs + 1)
unfolding absorb
length-absorb-logged [] b = omega arith
length-absorb-logged (x ∷ xs) b = elim (Bool-cases (x == b)) [
  | inl e ↦ rw (e) refl
  | inr e ↦ elim (Bool-cases (logged xs b)) [
    | inl l ↦ let r = length-absorb-logged xs b in let r' = rw (l) at r in rw (e, l) (omega arith)
    | inr l ↦ let r = length-absorb-logged xs b in let r' = rw (l) at r in rw (e, l) (omega arith)
  ]
]

-- What is reserved never exceeds the log, and a commit runs alone.
pub record Reserved (s : Sys) : Type 0 where
  pub count : s.log.outstanding ≡ length s.quotas
  pub few : length s.quotas ≤ 3
  pub each : All (λ r. r ≤ max_op_blocks) s.quotas
  pub fits : length s.log.lh + sum s.quotas ≤ log_size
  pub alone : s.log.committing ≡ true → length s.quotas ≡ 0
  pub flushed : s.log.committing ≡ false → length s.quotas ≡ 0 → length s.log.lh ≡ 0

outstanding-write_log_from :
    (tail : ℕ) (bs : List ℕ) (l : Log) → (write_log_from tail bs l).outstanding ≡ l.outstanding
unfolding write_log_from bwrite bread
outstanding-write_log_from tail [] l = refl
outstanding-write_log_from tail (b ∷ bs) l =
    outstanding-write_log_from (tail + 1) bs (bwrite l (l.start + tail + 1) (bread l b))

outstanding-install_from :
    (tail : ℕ) (bs : List ℕ) (l : Log) → (install_from tail bs l).outstanding ≡ l.outstanding
unfolding install_from bwrite bread
outstanding-install_from tail [] l = refl
outstanding-install_from tail (b ∷ bs) l =
    outstanding-install_from (tail + 1) bs (bwrite l b (bread l (l.start + tail + 1)))

-- A commit empties the header in memory and admits or ends no operation.
commit-empties : (l : Log) → (length (commit l).lh ≡ 0) × ((commit l).outstanding ≡ l.outstanding)
unfolding commit install_and_clear install_trans write_log write_head bwrite
commit-empties l = elim (Bool-cases (ltb 0 (length l.lh))) [
  | inl some_blocks ↦ rw some_blocks (
    refl,
    outstanding-install_from 0 _ (write_head (write_log_from 0 l.lh l))
        ∙ outstanding-write_log_from 0 l.lh l,
  )
  | inr no_blocks ↦ rw no_blocks (ground arith, refl)
]

begin-Reserved :
    (s : Sys) {l : Log}
    → Reserved s
    → begin_op s.log ≡ some l
    → Reserved (record { log = l; quotas = max_op_blocks ∷ s.quotas })
unfolding begin_op
begin-Reserved s {l} r e =
    let total = sum-le s.quotas r.each in
    let is : record {
      same : l.lh ≡ s.log.lh;
      still : l.committing ≡ s.log.committing;
      idle : s.log.committing ≡ false;
      count : l.outstanding ≡ length s.quotas + 1;
      room : length s.log.lh + (length s.quotas + 1) * 10 ≤ 30;
    } =
      ground (arith, r.count, r.few) in
    record {
      count = omega (arith, is.count);
      few = omega (arith, is.room);
      each = (omega arith, r.each);
      fits = omega (arith, total, is.room, ap (λ (bs : List ℕ). length bs) is.same);
      alone = λ c. cc (is.still, is.idle, c);
      flushed = λ c n. absurd (omega arith);
    }

write-Reserved :
    (s : Sys) (xs ys : List ℕ) (q b : ℕ) (v : Block) {l : Log}
    → Reserved s
    → s.quotas ≡ xs ++ suc q ∷ ys
    → log_write s.log b v ≡ ok l
    → Reserved (record { log = l; quotas = xs ++ (if logged s.log.lh b then suc q else q) ∷ ys })
write-Reserved s xs ys q b v r e w =
    let inv = log_write-eq-ok s.log b v w in
    let size = ap (λ (l : List ℕ). length l) e ∙ length-append xs (suc q ∷ ys) in
    let total = ap (λ (l : List ℕ). sum l) e ∙ sum-append xs (suc q ∷ ys) in
    let left : ℕ = if logged s.log.lh b then suc q else q in
    let grown = length-absorb-logged s.log.lh b in
    let fewer : left ≤ suc q = ground arith in
    let added : length (absorb s.log.lh b) + left ≤ length s.log.lh + suc q = ground arith in
    rw (inv.0) (record {
      count = omega (arith, r.count, size, length-append xs (left ∷ ys));
      few = omega (arith, r.few, size, length-append xs (left ∷ ys));
      each = (All-middle xs ys (suc q) left (rw e at (r.each)) fewer).0;
      fits = omega (arith, added, r.fits, total, sum-append xs (left ∷ ys));
      alone = λ c. absurd (omega (arith, r.alone c, size));
      flushed = λ c n. absurd (omega (arith, n, length-append xs (left ∷ ys)));
    })

leave-Reserved :
    (s : Sys) (xs ys : List ℕ) (q : ℕ) {l : Log} {do_commit : Bool}
    → Reserved s
    → s.quotas ≡ xs ++ q ∷ ys
    → end_op_leave s.log ≡ ok (l, do_commit)
    → Reserved (record { log = l; quotas = xs ++ ys })
unfolding end_op_leave
leave-Reserved s xs ys q {l} r e w =
    let size : length s.quotas ≡ length (xs ++ ys) + 1 =
      omega
        (arith, ap (λ (l : List ℕ). length l) e, length-append xs (q ∷ ys), length-append xs ys) in
    let total : sum s.quotas ≡ sum (xs ++ ys) + q =
      omega (arith, ap (λ (l : List ℕ). sum l) e, sum-append xs (q ∷ ys), sum-append xs ys) in
    let is : record {
      same : l.lh ≡ s.log.lh;
      count : l.outstanding ≡ length (xs ++ ys);
      last : l.committing ≡ true → length (xs ++ ys) ≡ 0;
      more : l.committing ≡ false → length (xs ++ ys) ≢ 0;
    } =
      ground (arith, r.count, r.few) in
    record {
      count = is.count;
      few = omega (arith, r.few);
      each = (All-middle xs ys q q (rw e at (r.each)) (omega arith)).1;
      fits = omega (arith, r.fits, ap (λ (bs : List ℕ). length bs) is.same);
      alone = is.last;
      flushed = λ c n. absurd (is.more c n);
    }

finish-Reserved :
    (s : Sys)
    → Reserved s
    → s.log.committing ≡ true
    → Reserved (record { log = end_op_commit s.log; quotas = s.quotas })
unfolding end_op_commit
finish-Reserved s r c =
    let done = commit-empties s.log in
    record {
      count = done.1 ∙ r.count;
      few = r.few;
      each = r.each;
      fits = omega (arith, done.0, r.fits);
      alone = λ f. cc;
      flushed = λ f n. done.0;
    }

pub Step-Reserved : {s t : Sys} → Step s t → Reserved s → Reserved t
Step-Reserved {s} (begin e) r = begin-Reserved s r e
Step-Reserved {s} (write xs ys q b v e w) r = write-Reserved s xs ys q b v r e w
Step-Reserved {s} (leave xs ys q e w) r = leave-Reserved s xs ys q r e w
Step-Reserved {s} (finish c) r = finish-Reserved s r c

-- `struct log` after recovery: no operation, nothing logged.
pub record IsIdle (s : Sys) : Type 0 where
  pub no_quotas : s.quotas ≡ []
  pub none_outstanding : s.log.outstanding ≡ 0
  pub no_commit : s.log.committing ≡ false
  pub no_blocks : s.log.lh ≡ []

pub Steps-Reserved : {s t : Sys} → IsIdle s → Steps s t → Reserved t
Steps-Reserved {s} idle here = record {
  count = omega (arith, idle.none_outstanding, ap (λ (l : List ℕ). length l) idle.no_quotas);
  few = omega (arith, ap (λ (l : List ℕ). length l) idle.no_quotas);
  each = rw (idle.no_quotas) tt;
  fits = omega (
    arith,
    ap (λ (l : List ℕ). length l) idle.no_blocks,
    ap (λ (l : List ℕ). sum l) idle.no_quotas,
  );
  alone = λ c. ap (λ (l : List ℕ). length l) idle.no_quotas;
  flushed = λ c n. ap (λ (l : List ℕ). length l) idle.no_blocks;
}
Steps-Reserved idle (next r st) = Step-Reserved st (Steps-Reserved idle r)
