-- ===== src/Pipe/Transfer.antt =====
-- pipe.c: what a run of pipewrite and a run of piperead transfer.
use cse3320_proj1_ahmed_bahb.Common.{
  ℕ, zero, suc, ◌+◌, ◌≡◌, ◌≢◌, refl, sym, ap, ◌∙◌, List, [], ◌∷◌, ◌++◌, arith, length, append-nil,
  append_assoc, min, Bool, true, false, not, ◌||◌, ◌&&◌, Bool-cases, inl, inr, ◌⊎◌,
}
use cse3320_proj1_ahmed_bahb.Pipe.{
  Pipe, pipe_size, is_full, is_empty, put, front, advance, Written, all, unwritten, pipewrite, Got,
  bytes, copy_out, piperead,
}
use cse3320_proj1_ahmed_bahb.Pipe.Ring.{
  IsValid, count, contents, count_of_is_full, count_of_not_full, count_of_is_empty,
  count_of_not_empty, put-IsValid, contents-put, advance-IsValid, contents-advance,
}

-- Why a run of `pipewrite` ended: everything is written; or the pipe is full and nobody can read or
-- the writer is killed; or the pipe is full and the writer sleeps.
abbrev pub Ended : Bool → Pipe → Written → Type 0
Ended killed p all = Unit
Ended killed p (Written.failed rest) =
    (count p ≡ pipe_size) × ((p.readopen ≡ false) ⊎ (killed ≡ true)) × (rest ≢ [])
Ended killed p (Written.asleep rest) =
    (count p ≡ pipe_size) × (p.readopen ≡ true) × (killed ≡ false) × (rest ≢ [])

pub record Wrote (killed : Bool) (p : Pipe) (xs : List ℕ) (r : Pipe × Written) : Type 0 where
  pub valid : IsValid r.0
  pub sent : List ℕ
  pub split : xs ≡ sent ++ unwritten r.1
  pub appended : contents r.0 ≡ contents p ++ sent
  pub ends : (r.0.readopen ≡ p.readopen) × (r.0.writeopen ≡ p.writeopen) × (r.0.nread ≡ p.nread)
  pub ended : Ended killed r.0 r.1

stopped : (x : ℕ) (xs : List ℕ) → (x ∷ xs) ≢ []
stopped x xs e = cc

-- A run of `pipewrite` keeps the ring valid, appends a prefix of the bytes to what the pipe holds,
-- gives back the rest, and stops early only at a full pipe.
pub pipewrite-Wrote :
    (killed : Bool) (p : Pipe) (xs : List ℕ) → IsValid p → Wrote killed p xs (pipewrite killed p xs)
unfolding pipewrite
pipewrite-Wrote killed p [] v = record {
  valid = v;
  sent = [];
  split = refl;
  appended = sym (append-nil (contents p));
  ends = (refl, refl, refl);
  ended = tt;
}
pipewrite-Wrote killed p (x ∷ xs) v = elim (Bool-cases (is_full p)) [
  | inl full ↦ elim (Bool-cases (not p.readopen || killed)) [
    | inl hopeless ↦
        rw (full, hopeless)
          (record {
            valid = v;
            sent = [];
            split = refl;
            appended = sym (append-nil (contents p));
            ends = (refl, refl, refl);
            ended = (count_of_is_full p v full, ground arith, stopped x xs);
          })
    | inr waits ↦
        rw (full, waits)
          (record {
            valid = v;
            sent = [];
            split = refl;
            appended = sym (append-nil (contents p));
            ends = (refl, refl, refl);
            ended = (count_of_is_full p v full, ground arith, ground arith, stopped x xs);
          })
  ]
  | inr some_room ↦
      let room = count_of_not_full p v some_room in
      let rest = pipewrite-Wrote killed (put p x) xs (put-IsValid p v x room) in
      rw some_room (record {
        valid = rest.valid;
        sent = x ∷ rest.sent;
        split = ap (λ (l : List ℕ). x ∷ l) rest.split;
        appended =
            rest.appended
            ∙ ap (λ (l : List ℕ). l ++ rest.sent) (contents-put p v x room)
            ∙ append_assoc (contents p) (x ∷ []) rest.sent;
        ends = rest.ends;
        ended = rest.ended;
      })
]

pub record Copied (n : ℕ) (p : Pipe) (r : Pipe × List ℕ) : Type 0 where
  pub valid : IsValid r.0
  pub taken : contents p ≡ r.1 ++ contents r.0
  pub amount : length r.1 ≡ min n (count p)
  pub ends : (r.0.readopen ≡ p.readopen) × (r.0.writeopen ≡ p.writeopen)

copy_out-Copied : (n : ℕ) (p : Pipe) → IsValid p → Copied n p (copy_out n p)
unfolding copy_out
copy_out-Copied zero p v = record {
  valid = v;
  taken = refl;
  amount = omega arith;
  ends = (refl, refl);
}
copy_out-Copied (suc n) p v = elim (Bool-cases (is_empty p)) [
  | inl empty ↦ rw empty (record {
    valid = v;
    taken = refl;
    amount = omega (arith, count_of_is_empty p v empty);
    ends = (refl, refl);
  })
  | inr some_bytes ↦
      let some_left = count_of_not_empty p v some_bytes in
      let rest = copy_out-Copied n (advance p) (advance-IsValid p v some_left) in
      let c : count p ≡ count (advance p) + 1 = omega (arith, v.read_fits, v.write_fits) in
      rw some_bytes (record {
        valid = rest.valid;
        taken = contents-advance p v some_left ∙ ap (λ (l : List ℕ). front p ∷ l) rest.taken;
        amount = omega (arith, rest.amount);
        ends = rest.ends;
      })
]

-- Why and how a run of `piperead` ended.
abbrev pub ReadEnded : Bool → ℕ → Pipe → Pipe × Got → Type 0
ReadEnded killed n p (q, bytes bs) =
    (contents p ≡ bs ++ contents q)
    × (length bs ≡ min n (count p))
    × ((count p ≢ 0) ⊎ (p.writeopen ≡ false))
ReadEnded killed n p (q, Got.failed) =
    (q ≡ p) × (count p ≡ 0) × (p.writeopen ≡ true) × (killed ≡ true)
ReadEnded killed n p (q, Got.asleep) =
    (q ≡ p) × (count p ≡ 0) × (p.writeopen ≡ true) × (killed ≡ false)

pub record Read (killed : Bool) (n : ℕ) (p : Pipe) (r : Pipe × Got) : Type 0 where
  pub valid : IsValid r.0
  pub ends : (r.0.readopen ≡ p.readopen) × (r.0.writeopen ≡ p.writeopen)
  pub ended : ReadEnded killed n p r

-- A run of `piperead` keeps the ring valid. It takes the first bytes of what the pipe holds, as many
-- as there are up to `n`; only at an empty pipe whose write end is open it takes nothing, and sleeps,
-- or fails if the reader is killed. At an empty pipe whose write end is closed it returns no bytes.
pub piperead-Read :
    (killed : Bool) (n : ℕ) (p : Pipe) → IsValid p → Read killed n p (piperead killed p n)
unfolding piperead
piperead-Read killed n p v =
    let copied = copy_out-Copied n p v in
    elim (Bool-cases (is_empty p && p.writeopen)) [
      | inl waits ↦
          let c : count p ≡ 0 = count_of_is_empty p v (ground arith) in
          rw waits (elim (Bool-cases killed) [
            | inl dead ↦
                rw dead
                  (record { valid = v; ends = (refl, refl); ended = (refl, c, ground arith, refl) })
            | inr alive ↦
                rw alive
                  (record { valid = v; ends = (refl, refl); ended = (refl, c, ground arith, refl) })
          ])
      | inr goes ↦ rw goes (record {
        valid = copied.valid;
        ends = copied.ends;
        ended = (
          copied.taken,
          copied.amount,
          elim (Bool-cases p.writeopen) [
            | inl open_end ↦
                let some_bytes : is_empty p ≡ false = ground arith in
                inl (let c = count_of_not_empty p v some_bytes in omega arith)
            | inr closed ↦ inr closed
          ],
        );
      })
    ]
