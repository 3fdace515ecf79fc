-- ===== src/Grep/Tests.antt =====
-- grep.c on short patterns and texts, and the theorems at inputs that meet their hypotheses.
use Prim.Native.String.{String}
use Prim.Native.Char.{code}
use cse3320_proj1_ahmed_bahb.Common.{
  All, arith, ℕ, ◌≡◌, refl, ◌↔◌, true, false, List, [], ◌∷◌, ◌++◌,
}
use cse3320_proj1_ahmed_bahb.Grep.{matches, grep, has_newline}
use cse3320_proj1_ahmed_bahb.Grep.Language.{Finds}
use cse3320_proj1_ahmed_bahb.Grep.Matcher.{matches_iff}
use cse3320_proj1_ahmed_bahb.Grep.Lines.{cut_lines, select, concat, HasNoNul, grep_lem, grep-loses}

abbrev bytes : String → List ℕ
bytes String.[] = []
bytes (String.◌∷◌ c s) = code c ∷ bytes s

match_star : matches (bytes "^ab*c$") (bytes "abbbc") ≡ true
unfolding matches
match_star = refl

match_not : matches (bytes "^ab*c$") (bytes "abbbd") ≡ false
unfolding matches
match_not = refl

match_dot : matches (bytes "x.z") (bytes "wxyzw") ≡ true
unfolding matches
match_dot = refl

matches_iff_example :
    (matches (bytes "a*b") (bytes "caab") ≡ true) ↔ Finds (bytes "a*b") (bytes "caab")
matches_iff_example = matches_iff (bytes "a*b") (bytes "caab")

abbrev two_chunks : List (List ℕ)
two_chunks = (bytes "xa" ++ b'\n' ∷ bytes "y") ∷ (bytes "a" ++ b'\n' ∷ []) ∷ []

two_chunks-HasNoNul : All HasNoNul two_chunks
two_chunks-HasNoNul = ground arith

grep_lem_example :
    grep (bytes "a") [] two_chunks ≡ select (bytes "a") (cut_lines [] (concat two_chunks)).0
unfolding has_newline
grep_lem_example = grep_lem (bytes "a") two_chunks two_chunks-HasNoNul (refl, (refl, tt))

grep-loses_example :
    grep (bytes "^b") [] (bytes "a" ∷ (b'b' ∷ b'\n' ∷ []) ∷ [])
    ≡ grep (bytes "^b") [] ((b'b' ∷ b'\n' ∷ []) ∷ [])
unfolding has_newline
grep-loses_example = grep-loses (bytes "^b") [] (bytes "a") ((b'b' ∷ b'\n' ∷ []) ∷ []) refl
