-- ===== src/Xvsh/Run.antt =====
-- xvsh.c: what the children of the shell do to their descriptors before they call exec.
-- The calls are those of sysfile.c on the table of Descriptors; the argument of a call is the word behind the
-- return address on the caller's stack.
use cse3320_proj1_ahmed_bahb.Common.{
  ℕ, zero, suc, List, [], ◌∷◌, ◌++◌, Bool, Option, none, some, ◌==◌, if◌then◌else◌,
}
use cse3320_proj1_ahmed_bahb.Common.Outcome.{Outcome, ok, ◌>>=◌}
use cse3320_proj1_ahmed_bahb.Strings.{store32}
use cse3320_proj1_ahmed_bahb.Args.{User}
use cse3320_proj1_ahmed_bahb.Descriptors.{Ftable, sys_dup, sys_close}
use cse3320_proj1_ahmed_bahb.Xvsh.{Strtok, strtok_custom, space}

-- The loop that fills `args`, with room for `n` more.
pub argument_loop : ℕ → Strtok → Option ℕ → List ℕ × Strtok
argument_loop zero st tok = ([], st)
argument_loop (suc n) st none = ([], st)
argument_loop (suc n) st (some t) =
    let r = strtok_custom st none space in
    let rest = argument_loop n r.1 r.0 in (t ∷ rest.0, rest.1)

pub data Move : Type 0 where
  dup : ℕ → Move
  close : ℕ → Move

-- The child of `execute_redirection`; `none` is a null `outfile`.
abbrev pub redirected_child : Option ℕ → List Move
redirected_child none = []
redirected_child (some fd) = dup fd ∷ close fd ∷ []

-- A child of `execute_piped_commands`, whose input is `input` and whose pipe has the ends `rd` and `wr`.
abbrev pub piped_child : ℕ → ℕ → ℕ → Bool → List Move
piped_child input rd wr last =
    (if input == 0 then [] else dup input ∷ close input ∷ [])
    ++ (if last then [] else dup wr ∷ close rd ∷ close wr ∷ [])

-- A process about to make a call with the argument `fd`.
abbrev pub caller : ℕ → User
caller fd = record { sz = 8; mem = store32 (λ a. 0) 4 fd; esp = 0 }

unfoldable pub move : Move → Ftable → ℕ → Outcome Ftable
move (dup fd) s p = sys_dup (caller fd) s p >>= λ r. ok r.1
move (close fd) s p = sys_close (caller fd) s p >>= λ r. ok r.1

unfoldable pub moves : List Move → Ftable → ℕ → Outcome Ftable
moves [] s p = ok s
moves (m ∷ ms) s p = move m s p >>= λ t. moves ms t p
