-- ===== src/Paths.antt =====
-- fs.c: skipelem, which cuts a path into its elements.
-- A path is the list of its bytes up to the NUL, and a name is the string that `namecmp` sees: at most
-- DIRSIZ bytes, or fewer up to a NUL.
pub mod Elements
mod Tests
use cse3320_proj1_ahmed_bahb.Common.{
  ℕ, List, [], ◌∷◌, take, Option, none, some, ◌==◌, if◌then◌else◌, ltb, length,
}

abbrev pub dirsiz : ℕ
dirsiz = 14

-- `while(*path == '/') path++;`
pub skip_slashes : List ℕ → List ℕ
skip_slashes [] = []
skip_slashes (c ∷ cs) = let rest = skip_slashes cs in if c == b'/' then rest else c ∷ cs

-- The bytes that `while(*path != '/' && *path != 0) path++;` passes.
pub element : List ℕ → List ℕ
element [] = []
element (c ∷ cs) = let rest = element cs in if c == b'/' then [] else c ∷ rest

-- Where that loop stops.
pub after : List ℕ → List ℕ
after [] = []
after (c ∷ cs) = let rest = after cs in if c == b'/' then c ∷ cs else rest

-- What is left in `name`: DIRSIZ bytes of the element, or all of it and a NUL.
abbrev pub stored_name : List ℕ → List ℕ
stored_name word = if ltb (length word) dirsiz then word else take dirsiz word

abbrev named : List ℕ → Option (List ℕ × List ℕ)
named [] = none
named (c ∷ cs) = some (stored_name (element (c ∷ cs)), skip_slashes (after (c ∷ cs)))

-- The name and the rest of the path; `none` stands for 0.
unfoldable pub skipelem : List ℕ → Option (List ℕ × List ℕ)
unfolding skip_slashes element after
skipelem path = named (skip_slashes path)
