-- ===== src/Numerals/Tests.antt =====
-- printf.c and ulib.c: some numbers that are printed and read.
use cse3320_proj1_ahmed_bahb.Common.{◌-◌, ◌^◌, ◌≡◌, refl, [], ◌∷◌, true, false, some, arith}
use cse3320_proj1_ahmed_bahb.Numerals.{fill, printint, atoi_from, atoi}
use cse3320_proj1_ahmed_bahb.Numerals.RoundTrip.{Printed, atoi-printint}

minus_ten : printint (2 ^ 32 - 10) 10 true ≡ some (b'-' ∷ b'1' ∷ b'0' ∷ [])
unfolding printint fill
minus_ten = refl

hexadecimal : printint 255 16 false ≡ some (b'F' ∷ b'F' ∷ [])
unfolding printint fill
hexadecimal = refl

stops_at_letter : atoi (b'4' ∷ b'2' ∷ b'x' ∷ b'1' ∷ []) ≡ 42
unfolding atoi_from
stops_at_letter = refl

atoi-printint_example : Printed 1234 true
atoi-printint_example = atoi-printint 1234 true (omega arith)
