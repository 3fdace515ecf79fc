-- ===== src/Pipe/Tests.antt =====
-- pipe.c on small inputs, and the theorems at inputs that meet their hypotheses.
use cse3320_proj1_ahmed_bahb.Common.{
  ℕ, ◌≡◌, ◌⊎◌, ◌<◌, ◌≤◌, refl, List, [], ◌∷◌, ◌++◌, arith, length, true, false, replicate,
}
use cse3320_proj1_ahmed_bahb.Pipe.{
  Pipe, Written, unwritten, wakes_readers, pipewrite, Got, bytes, piperead, copy_out, pipe_init,
  pipeclose,
}
use cse3320_proj1_ahmed_bahb.Pipe.Ring.{IsValid, contents}
use cse3320_proj1_ahmed_bahb.Pipe.System.{Sys, Steps, write, here, next, after_write}
use cse3320_proj1_ahmed_bahb.Pipe.Stream.{fresh, stream_in_order, no_lost_wakeup, killed_writer_lem}

abbrev page : List ℕ
page = replicate 512 0

-- The counters are about to wrap.
abbrev wrapping : Pipe
wrapping = record {
  buf = page;
  nread = 0xfffffffe;
  nwrite = 0xfffffffe;
  readopen = true;
  writeopen = true;
}

wrapping-IsValid : IsValid wrapping
wrapping-IsValid = omega arith

-- Four bytes written across the wrap come out again.
wrap_round :
    (piperead false (pipewrite false wrapping (1 ∷ 2 ∷ 3 ∷ 4 ∷ [])).0 9).1
    ≡ bytes (1 ∷ 2 ∷ 3 ∷ 4 ∷ [])
unfolding pipewrite piperead copy_out
wrap_round = refl

reader_sleeps : (piperead false wrapping 9).1 ≡ Got.asleep
unfolding piperead copy_out
reader_sleeps = refl

end_of_stream : (piperead false (pipeclose wrapping true).0 9).1 ≡ bytes []
unfolding piperead copy_out pipeclose
end_of_stream = refl

writer_sleeps : (pipewrite false wrapping (replicate 514 7)).1 ≡ Written.asleep (7 ∷ 7 ∷ [])
unfolding pipewrite
writer_sleeps = refl

abbrev two_sent : Sys
two_sent = after_write (fresh page) (1 ∷ 2 ∷ []) (pipewrite false (fresh page).pipe (1 ∷ 2 ∷ []))

fresh-two_sent : Steps (fresh page) two_sent
unfolding pipe_init
fresh-two_sent = next here (write (1 ∷ 2 ∷ []) refl)

stream_in_order_example :
    (two_sent.sent ≡ two_sent.received ++ contents two_sent.pipe)
    × (length (contents two_sent.pipe) ≤ 512)
stream_in_order_example = stream_in_order page {t = two_sent} refl fresh-two_sent

no_lost_wakeup_example :
    (0 < two_sent.readers → (contents two_sent.pipe ≡ []) × (two_sent.pipe.writeopen ≡ true))
    × (0 < two_sent.writers
        → (length (contents two_sent.pipe) ≡ 512) × (two_sent.pipe.readopen ≡ true))
    × ((two_sent.readers ≡ 0) ⊎ (two_sent.writers ≡ 0))
no_lost_wakeup_example = no_lost_wakeup page {t = two_sent} refl fresh-two_sent

killed_writer_lem_example :
    let (q, w) = pipewrite true wrapping (replicate 600 7) in
    (length (contents q) ≡ 512)
    × (contents q ++ unwritten w ≡ replicate 600 7)
    × (wakes_readers w ≡ false)
killed_writer_lem_example =
    killed_writer_lem wrapping (replicate 600 7) wrapping-IsValid refl (omega arith)
