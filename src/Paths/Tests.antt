-- ===== src/Paths/Tests.antt =====
-- fs.c: some paths that are cut, and the theorem at one of them.
use cse3320_proj1_ahmed_bahb.Common.{◌≡◌, refl, [], ◌∷◌, none, some}
use cse3320_proj1_ahmed_bahb.Paths.{skip_slashes, element, after, skipelem}
use cse3320_proj1_ahmed_bahb.Paths.Elements.{Skipped, skipelem_lem}

cuts_first :
    skipelem (b'/' ∷ b'a' ∷ b'/' ∷ b'/' ∷ b'b' ∷ b'b' ∷ []) ≡ some (b'a' ∷ [], b'b' ∷ b'b' ∷ [])
unfolding skipelem skip_slashes element after
cuts_first = refl

only_slashes : skipelem (b'/' ∷ b'/' ∷ []) ≡ none
unfolding skipelem skip_slashes
only_slashes = refl

skipelem_example : Skipped (b'/' ∷ b'a' ∷ b'/' ∷ b'/' ∷ b'b' ∷ [])
skipelem_example = skipelem_lem (b'/' ∷ b'a' ∷ b'/' ∷ b'/' ∷ b'b' ∷ [])
