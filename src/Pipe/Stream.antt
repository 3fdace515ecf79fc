-- ===== src/Pipe/Stream.antt =====
-- pipe.c: the byte stream, and who sleeps, in any interleaving.
use cse3320_proj1_ahmed_bahb.Common.{
  ℕ, zero, suc, ◌+◌, ◌-◌, ◌≤◌, ◌<◌, ◌≡◌, refl, sym, ap, ◌∙◌, ◌⊎◌, inl, inr, List, [], ◌∷◌, ◌++◌,
  arith, length, length-append, append-nil, append_assoc, take, Bool, true, false, dec_lt,
}
use cse3320_proj1_ahmed_bahb.Pipe.{
  Pipe, pipe_size, Written, all, unwritten, pipewrite, wakes_readers, Got, bytes, pipeclose,
  pipe_init,
}
use cse3320_proj1_ahmed_bahb.Pipe.Ring.{IsValid, count, contents, length-contents}
use cse3320_proj1_ahmed_bahb.Pipe.Transfer.{Wrote, pipewrite-Wrote, Read, piperead-Read}
use cse3320_proj1_ahmed_bahb.Pipe.System.{
  Sys, Step, Steps, Inv, accepted, after_write, after_read, write, read, interrupt_reader,
  interrupt_writer, close_read, close_write, here, next,
}

take_all : (n : ℕ) (xs ys : List ℕ) → n ≡ length xs → take n (xs ++ ys) ≡ xs
take_all zero [] ys e = refl
take_all zero (x ∷ xs) ys e = absurd (omega arith)
take_all (suc n) [] ys e = absurd (omega arith)
take_all (suc n) (x ∷ xs) ys e = ap (λ (l : List ℕ). x ∷ l) (take_all n xs ys (omega arith))

-- What went in is the part of the bytes before the rest.
accepted-sent : (xs sent : List ℕ) (w : Written) → xs ≡ sent ++ unwritten w → accepted xs w ≡ sent
accepted-sent xs sent w e = rw e (
    take_all (length (sent ++ unwritten w) - length (unwritten w)) sent (unwritten w)
      (omega (arith, length-append sent (unwritten w))))

write-stream :
    (s : Sys) (xs : List ℕ)
    → Inv s
    → (r : Pipe × Written) → Wrote false s.pipe xs r
    → (s.sent ++ accepted xs r.1 ≡ s.received ++ contents r.0)
      × (count r.0 ≡ count s.pipe + length (accepted xs r.1))
write-stream s xs i (q, w) o =
    let is = accepted-sent xs o.sent w o.split in
    rw is (
      ap (λ (l : List ℕ). l ++ o.sent) i.stream
          ∙ append_assoc s.received (contents s.pipe) o.sent
          ∙ ap (λ (l : List ℕ). s.received ++ l) (sym o.appended),
      omega (
        arith,
        ap (λ (l : List ℕ). length l) o.appended,
        length-append (contents s.pipe) o.sent,
        length-contents q,
        length-contents s.pipe,
      ),
    )

after_write-Inv :
    (s : Sys) (xs : List ℕ)
    → Inv s
    → (r : Pipe × Written) → Wrote false s.pipe xs r
    → Inv (after_write s xs r)
after_write-Inv s xs i (q, all) w =
    let st = write-stream s xs i (q, all) w in
    record {
      valid = w.valid;
      stream = st.0;
      readers_wait = λ h. absurd (omega arith);
      writers_wait = λ h.
          let before = i.writers_wait (omega arith) in
          (omega (arith, w.valid.room, st.1), w.ends.0 ∙ before.1);
    }
after_write-Inv s xs i (q, Written.failed rest) w =
    let st = write-stream s xs i (q, Written.failed rest) w in
    let shut : q.readopen ≡ false = let why = w.ended.1 in ground arith in
    record {
      valid = w.valid;
      stream = st.0;
      readers_wait = λ h. let before = i.readers_wait h in cc (before.2, w.ends.0, shut);
      writers_wait =
          λ h. let before = i.writers_wait (omega arith) in cc (before.1, w.ends.0, shut);
    }
after_write-Inv s xs i (q, Written.asleep rest) w =
    let st = write-stream s xs i (q, Written.asleep rest) w in
    record {
      valid = w.valid;
      stream = st.0;
      readers_wait = λ h. absurd (omega arith);
      writers_wait = λ h. (w.ended.0, w.ended.1);
    }

after_read-Inv :
    (s : Sys) (killed : Bool) (n : ℕ)
    → Inv s
    → s.pipe.readopen ≡ true
    → (r : Pipe × Got) → Read killed n s.pipe r
    → Inv (after_read s r)
after_read-Inv s killed n i o (q, bytes bs) r = record {
  valid = r.valid;
  stream =
      i.stream
      ∙ ap (λ (l : List ℕ). s.received ++ l) r.ended.0
      ∙ sym (append_assoc s.received bs (contents q));
  readers_wait = λ h.
      let before = i.readers_wait (omega arith) in
      (
        omega (
          arith,
          before.0,
          ap (λ (l : List ℕ). length l) r.ended.0,
          length-append bs (contents q),
          length-contents q,
          length-contents s.pipe,
        ),
        r.ends.1 ∙ before.1,
        r.ends.0 ∙ before.2,
      );
  writers_wait = λ h. absurd (omega arith);
}
after_read-Inv s killed n i o (q, Got.failed) r =
    let same = r.ended.0 in
    rw same (record {
      valid = i.valid;
      stream = i.stream ∙ ap (λ (l : List ℕ). l ++ contents s.pipe) (sym (append-nil s.received));
      readers_wait = λ h. i.readers_wait (omega arith);
      writers_wait = i.writers_wait;
    })
after_read-Inv s killed n i o (q, Got.asleep) r =
    let same = r.ended.0 in
    rw same (record {
      valid = i.valid;
      stream = i.stream ∙ ap (λ (l : List ℕ). l ++ contents s.pipe) (sym (append-nil s.received));
      readers_wait = λ h. (r.ended.1, r.ended.2, o);
      writers_wait = i.writers_wait;
    })

Step-Inv : {s t : Sys} → Step s t → Inv s → Inv t
unfolding pipeclose
Step-Inv {s} (write xs o) i = after_write-Inv s xs i _ (pipewrite-Wrote false s.pipe xs i.valid)
Step-Inv {s} (read killed n o) i =
    after_read-Inv s killed n i o _ (piperead-Read killed n s.pipe i.valid)
Step-Inv {s} interrupt_reader i = record {
  valid = i.valid;
  stream = i.stream;
  readers_wait = λ h. i.readers_wait (omega arith);
  writers_wait = i.writers_wait;
}
Step-Inv {s} interrupt_writer i = record {
  valid = i.valid;
  stream = i.stream;
  readers_wait = i.readers_wait;
  writers_wait = λ h. i.writers_wait (omega arith);
}
Step-Inv {s} (close_read none_left) i = record {
  valid = record {
    storage = i.valid.storage;
    read_fits = i.valid.read_fits;
    write_fits = i.valid.write_fits;
    room = i.valid.room;
  };
  stream = i.stream;
  readers_wait = λ h. absurd (omega arith);
  writers_wait = λ h. absurd (omega arith);
}
Step-Inv {s} (close_write none_left) i = record {
  valid = record {
    storage = i.valid.storage;
    read_fits = i.valid.read_fits;
    write_fits = i.valid.write_fits;
    room = i.valid.room;
  };
  stream = i.stream;
  readers_wait = λ h. absurd (omega arith);
  writers_wait = λ h. absurd (omega arith);
}

pub Steps-Inv : {s t : Sys} → Inv s → Steps s t → Inv t
Steps-Inv i here = i
Steps-Inv i (next r st) = Step-Inv st (Steps-Inv i r)

-- A pipe just made by `pipealloc`, in a page with room for its 512 bytes.
abbrev pub fresh : List ℕ → Sys
fresh page = record { pipe = pipe_init page; sent = []; received = []; readers = 0; writers = 0 }

fresh-Inv : (page : List ℕ) → length page ≡ pipe_size → Inv (fresh page)
unfolding pipe_init
fresh-Inv page e = record {
  valid = record {
    storage = e;
    read_fits = omega arith;
    write_fits = omega arith;
    room = omega arith;
  };
  stream = refl;
  readers_wait = λ h. absurd (omega arith);
  writers_wait = λ h. absurd (omega arith);
}

-- In every state that readers and writers reach from a new pipe, however their runs are interleaved, as
-- long as no writer is killed: what was received, followed by what the pipe holds, is what was sent, in
-- order and without loss, and the pipe holds no more than PIPESIZE bytes.
pub stream_in_order :
    (page : List ℕ) {t : Sys}
    → length page ≡ pipe_size
    → Steps (fresh page) t
    → (t.sent ≡ t.received ++ contents t.pipe) × (length (contents t.pipe) ≤ pipe_size)
stream_in_order page {t} e r =
    let i = Steps-Inv (fresh-Inv page e) r in
    (i.stream, omega (arith, length-contents t.pipe, i.valid.room))

-- In every state that readers and writers reach from a new pipe, however their runs are interleaved, as
-- long as no writer is killed: a reader sleeps only at an empty pipe whose write end is open, a writer
-- only at a full pipe whose read end is open, and never both at once.
pub no_lost_wakeup :
    (page : List ℕ) {t : Sys}
    → length page ≡ pipe_size
    → Steps (fresh page) t
    → (0 < t.readers → (contents t.pipe ≡ []) × (t.pipe.writeopen ≡ true))
      × (0 < t.writers → (length (contents t.pipe) ≡ pipe_size) × (t.pipe.readopen ≡ true))
      × ((t.readers ≡ 0) ⊎ (t.writers ≡ 0))
no_lost_wakeup page {t} e r =
    let i = Steps-Inv (fresh-Inv page e) r in
    (
      λ h.
          let w = i.readers_wait h in (none_left (omega (arith, w.0, length-contents t.pipe)), w.1),
      λ h. let w = i.writers_wait h in (omega (arith, w.0, length-contents t.pipe), w.1),
      elim (dec_lt 0 t.readers) [
        | no none_asleep ↦ inl (omega arith)
        | yes some_asleep ↦ elim (dec_lt 0 t.writers) [
          | no none_asleep ↦ inr (omega arith)
          | yes both ↦
              absurd (omega (arith, (i.readers_wait some_asleep).0, (i.writers_wait both).0))
        ]
      ],
    )
  where
    none_left : {xs : List ℕ} → length xs ≡ 0 → xs ≡ []
    none_left {xs = []} e = refl
    none_left {xs = x ∷ xs} e = absurd (omega arith)

-- A killed writer that has more bytes than an empty pipe takes, whose read end is open: it fails with
-- the pipe full of its bytes, and does not wake the readers, which may be asleep since the pipe was
-- empty.
pub killed_writer_lem :
    (p : Pipe) (xs : List ℕ)
    → IsValid p
    → contents p ≡ []
    → pipe_size < length xs
    → let (q, w) = pipewrite true p xs in
      (length (contents q) ≡ pipe_size)
      × (contents q ++ unwritten w ≡ xs)
      × (wakes_readers w ≡ false)
killed_writer_lem p xs v e long =
    let w = pipewrite-Wrote true p xs v in ended (pipewrite true p xs) w
  where
    ended :
        (r : Pipe × Written)
        → Wrote true p xs r
        → (length (contents r.0) ≡ pipe_size)
          × (contents r.0 ++ unwritten r.1 ≡ xs)
          × (wakes_readers r.1 ≡ false)
    ended (q, all) w = absurd (
        omega (
          arith,
          w.valid.room,
          length-contents q,
          ap (λ (l : List ℕ). length l) (w.appended ∙ ap (λ (l : List ℕ). l ++ w.sent) e),
          ap (λ (l : List ℕ). length l) w.split,
          length-append w.sent [],
        ))
    ended (q, Written.failed rest) w = (
      length-contents q ∙ w.ended.0,
      ap (λ (l : List ℕ). l ++ rest) (w.appended ∙ ap (λ (l : List ℕ). l ++ w.sent) e)
          ∙ sym w.split,
      refl,
    )
    ended (q, Written.asleep rest) w = cc (w.ended.2)
