-- ===== src/Strings/Tests.antt =====
-- string.c on small memories, and the theorems at inputs that meet their hypotheses.
use cse3320_proj1_ahmed_bahb.Common.{◌-◌, ◌≡◌, refl, [], ◌∷◌, get_or, if◌then◌else◌}
use cse3320_proj1_ahmed_bahb.Strings.{
  Memory, stosb, stosl, memset, move_up, move_down, memmove, safe_copy, safestrcpy,
}
use cse3320_proj1_ahmed_bahb.Strings.Move.{within}
use cse3320_proj1_ahmed_bahb.Strings.Compare.{bytes_at}

-- "abcd" at 100, and NULs everywhere else.
abbrev text : Memory
text a = if within a 100 4 then get_or (b'a' ∷ b'b' ∷ b'c' ∷ b'd' ∷ []) (a - 100) 0 else 0

move_overlapping :
    bytes_at 6 (memmove text 102 100 4) 100 ≡ b'a' ∷ b'b' ∷ b'a' ∷ b'b' ∷ b'c' ∷ b'd' ∷ []
unfolding memmove move_down move_up
move_overlapping = refl

memset_words : bytes_at 5 (memset text 100 0x1ff 4) 100 ≡ 255 ∷ 255 ∷ 255 ∷ 255 ∷ 0 ∷ []
unfolding memset stosl stosb
memset_words = refl

copy_cut : bytes_at 4 (safestrcpy 3 text 200 100) 200 ≡ b'a' ∷ b'b' ∷ 0 ∷ 0 ∷ []
unfolding safestrcpy safe_copy
copy_cut = refl
