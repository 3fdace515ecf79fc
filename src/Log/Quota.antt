-- ===== src/Log/Quota.antt =====
-- log.c: operations that stay within MAXOPBLOCKS, in logs of different sizes.
use cse3320_proj1_ahmed_bahb.Common.{
  ℕ, suc, ◌+◌, ◌<◌, ◌≡◌, ◌≢◌, refl, ap, ◌⊎◌, inl, inr, List, [], ◌∷◌, ◌++◌, arith, length,
  length-append, append-nil, append_assoc, ◌∙◌, sym, ◌*◌, ◌%◌, ◌^◌, ◌||◌, ltb, leb, if◌then◌else◌,
  ◌==◌, some, true, false, Bool, Bool-cases, dec_lt, none,
}
use cse3320_proj1_ahmed_bahb.Common.Outcome.{ok, panic, Outcome-cases}
use cse3320_proj1_ahmed_bahb.Log.{
  Log, Block, log_size, max_op_blocks, begin_op, end_op_leave, log_write, absorb,
}
use cse3320_proj1_ahmed_bahb.Log.Crash.{written}
use cse3320_proj1_ahmed_bahb.Log.Admission.{
  Sys, Steps, begin, write, here, next, logged, IsIdle, Steps-Reserved,
}

-- In every state that operations reach from an idle log: an operation that is under way can end
-- without a panic; and where `begin_op` puts its caller to sleep, a commit is running or an
-- operation is under way, so that an `end_op` is still to come that wakes it.
pub end_op_returns :
    (s : Sys) {t : Sys}
    → IsIdle s
    → Steps s t
    → (length t.quotas ≢ 0 → (l : Log × Bool) × (end_op_leave t.log ≡ ok l))
      × (begin_op t.log ≡ none → (t.log.committing ≡ true) ⊎ (0 < length t.quotas))
unfolding end_op_leave begin_op
end_op_returns s {t} idle r =
    let inv = Steps-Reserved idle r in
    (
      λ some_op. elim (Outcome-cases (end_op_leave t.log)) [
        | inl done ↦ done
        | inr stuck ↦ absurd (some_op (inv.alone (ground arith)))
      ],
      λ asleep. elim (Bool-cases t.log.committing) [
        | inl c ↦ inl c
        | inr idle_commit ↦ inr (elim (dec_lt 0 (length t.quotas)) [
          | yes some_op ↦ some_op
          | no none_left ↦ absurd (
              let empty = inv.flushed idle_commit (omega arith) in
              let count = inv.count in ground arith)
        ])
      ],
    )

-- The blocks are not in `lh`, nor twice in the list.
abbrev pub AreNew : List ℕ → List ℕ → Type 0
AreNew lh [] = Unit
AreNew lh (b ∷ bs) = (logged lh b ≡ false) × AreNew (lh ++ b ∷ []) bs

absorb_new : (xs : List ℕ) (b : ℕ) → logged xs b ≡ false → absorb xs b ≡ xs ++ b ∷ []
unfolding absorb
absorb_new [] b e = refl
absorb_new (x ∷ xs) b e =
    let ne : (x == b) ≡ false = ground arith in
    let e' : logged xs b ≡ false = ground arith in rw (ne, absorb_new xs b e') refl

-- A log of LOGSIZE blocks with three operations.
record IsBusy (s : Sys) (lh : List ℕ) (quotas : List ℕ) : Type 0 where
  size : s.log.size ≡ log_size
  three : s.log.outstanding ≡ 3
  blocks : s.log.lh ≡ lh
  left : s.quotas ≡ quotas

-- `begin_op` on an empty log.
begins :
    (s : Sys) (k : ℕ)
    → k < 3
    → s.log.committing ≡ false
    → s.log.lh ≡ []
    → s.log.outstanding ≡ k
    → begin_op s.log ≡ some (record s.log { outstanding = k + 1 })
unfolding begin_op
begins s k h c e o =
    let small : ltb log_size (length s.log.lh + (s.log.outstanding + 1) % 2 ^ 32 * max_op_blocks)
        ≡ false =
      rw (h, o) (ground arith) in
    let next_count : (s.log.outstanding + 1) % 2 ^ 32 ≡ k + 1 = rw (o) (omega arith) in
    rw (c, small, next_count) refl

-- An operation writes new blocks, one after another.
spend :
    (s u : Sys) (lh bs xs ys : List ℕ) (q r : ℕ)
    → Steps s u
    → q ≡ length bs + r
    → IsBusy u lh (xs ++ q ∷ ys)
    → AreNew lh bs
    → length lh + length bs < log_size
    → (t : Sys) × Steps s t × IsBusy t (lh ++ bs) (xs ++ r ∷ ys)
unfolding log_write
spend s u lh [] xs ys q r st eq busy new room = (
  u,
  st,
  record {
    size = busy.size;
    three = busy.three;
    blocks = busy.blocks ∙ sym (append-nil lh);
    left = busy.left ∙ ap (λ k. xs ++ k ∷ ys) (let e : q ≡ r = omega arith in e);
  },
)
spend s u lh (b ∷ bs) xs ys q r st eq busy (n, new) room =
    let size = busy.size in
    let three = busy.three in
    let count : length u.log.lh ≡ length lh = ap (λ (l : List ℕ). length l) busy.blocks in
    let fits : (leb log_size (length u.log.lh) || leb u.log.size (length u.log.lh + 1)) ≡ false =
      ground arith in
    let inside : (u.log.outstanding == 0 || leb (2 ^ 31) u.log.outstanding) ≡ false =
      rw (three) refl in
    let returns : log_write u.log b [] ≡ ok (written u.log b []) = rw (fits, inside) refl in
    let quota : u.quotas ≡ xs ++ suc (length bs + r) ∷ ys =
      busy.left ∙ ap (λ k. xs ++ k ∷ ys) (let e : q ≡ suc (length bs + r) = omega arith in e) in
    let fresh : logged u.log.lh b ≡ false = rw (busy.blocks) n in
    let (t, st', busy') =
      spend s
        (record {
          log = written u.log b [];
          quotas = xs ++ (if logged u.log.lh b then suc (length bs + r) else length bs + r) ∷ ys;
        })
        (lh ++ b ∷ []) bs xs ys (length bs + r) r
        (next st (write xs ys (length bs + r) b [] quota returns)) refl
        (record {
          size = size;
          three = three;
          blocks = absorb_new u.log.lh b fresh ∙ ap (λ l. l ++ b ∷ []) busy.blocks;
          left = rw (fresh) refl;
        })
        new (omega (arith, length-append lh (b ∷ []))) in
    (
      t,
      st',
      record {
        size = busy'.size;
        three = busy'.three;
        blocks = busy'.blocks ∙ append_assoc lh (b ∷ []) bs;
        left = busy'.left;
      },
    )

-- Three operations begin on an idle log.
admits :
    (s : Sys)
    → IsIdle s
    → s.log.size ≡ log_size
    → (u : Sys) × Steps s u × IsBusy u [] (10 ∷ 10 ∷ 10 ∷ [])
admits s idle size =
    let c = idle.no_commit in
    let e = idle.no_blocks in
    let one = begins s 0 (omega arith) c e idle.none_outstanding in
    let s1 : Sys = record { log = record s.log { outstanding = 1 }; quotas = 10 ∷ s.quotas } in
    let two = begins s1 1 (omega arith) c e refl in
    let s2 : Sys = record { log = record s.log { outstanding = 2 }; quotas = 10 ∷ s1.quotas } in
    let three = begins s2 2 (omega arith) c e refl in
    let s3 : Sys = record { log = record s.log { outstanding = 3 }; quotas = 10 ∷ s2.quotas } in
    (
      s3,
      next (next (next here (begin one)) (begin two)) (begin three),
      record { size = size; three = refl; blocks = e; left = rw (idle.no_quotas) refl },
    )

no_room :
    (t : Sys)
    → length t.log.lh ≡ 29
    → t.log.size ≡ log_size
    → (b : ℕ) (v : Block) → log_write t.log b v ≡ panic
unfolding log_write
no_room t full size b v = ground arith

-- The log that mkfs.c makes has LOGSIZE blocks, its header among them. When it is idle, `begin_op` admits three
-- operations; after any twenty blocks of the first two and nine of the third, all different, each of which
-- `log_write` puts in the log, the third operation has one block of its MAXOPBLOCKS left, and `log_write` panics
-- for every block.
pub log_write-may_panic :
    (s : Sys) (xs ys zs : List ℕ)
    → IsIdle s
    → s.log.size ≡ log_size
    → length xs ≡ 10
    → length ys ≡ 10
    → length zs ≡ 9
    → AreNew [] xs
    → AreNew xs ys
    → AreNew (xs ++ ys) zs
    → (t : Sys) × Steps s t
      × (t.quotas ≡ 0 ∷ 0 ∷ 1 ∷ [])
      × (t.log.lh ≡ (xs ++ ys) ++ zs)
      × ((b : ℕ) (v : Block) → log_write t.log b v ≡ panic)
log_write-may_panic s xs ys zs idle size la lb lc na nb nc =
    let (u, r0, b0) = admits s idle size in
    let (t1, r1, b1) =
      spend s u [] xs [] (10 ∷ 10 ∷ []) 10 0 r0 (omega arith) b0 na (omega arith) in
    let (t2, r2, b2) =
      spend s t1 xs ys (0 ∷ []) (10 ∷ []) 10 0 r1 (omega arith) b1 nb (omega arith) in
    let both = length-append xs ys in
    let (t3, r3, b3) =
      spend s t2 (xs ++ ys) zs (0 ∷ 0 ∷ []) [] 10 1 r2 (omega arith) b2 nc (omega arith) in
    let full : length t3.log.lh ≡ 29 =
      omega (arith, ap (λ (l : List ℕ). length l) b3.blocks, length-append (xs ++ ys) zs) in
    (t3, r3, b3.left, b3.blocks, no_room t3 full b3.size)
