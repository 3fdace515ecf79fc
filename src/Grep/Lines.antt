-- ===== src/Grep/Lines.antt =====
-- grep.c: what grep writes, over all the chunks that read returns.
use cse3320_proj1_ahmed_bahb.Common.{
  ℕ, ◌≡◌, ◌≢◌, refl, sym, ap, ◌∙◌, inl, inr, true, false, ◌||◌, List, [], ◌∷◌, ◌++◌, ◌==◌,
  if◌then◌else◌, All, Bool-cases, arith, append_assoc, append-nil,
}
use cse3320_proj1_ahmed_bahb.Grep.{matches, scan_lines, has_newline, round, grep}

-- The bytes of a whole file cut into lines, and what follows the last newline.
pub cut_lines : List ℕ → List ℕ → List (List ℕ) × List ℕ
cut_lines line [] = ([], line)
cut_lines line (x ∷ text) =
    let ends = cut_lines [] text in
    let goes_on = cut_lines (line ++ x ∷ []) text in
    if x == b'\n' then (line ∷ ends.0, ends.1) else goes_on

-- The lines that match, each with its newline.
pub select : List ℕ → List (List ℕ) → List ℕ
select re [] = []
select re (line ∷ lines) = (if matches re line then line ++ b'\n' ∷ [] else []) ++ select re lines

abbrev pub concat : List (List ℕ) → List ℕ
concat [] = []
concat (xs ∷ xss) = xs ++ concat xss

-- Bytes without a NUL.
abbrev pub HasNoNul : List ℕ → Type 0
HasNoNul = All (λ x. x ≢ 0)

HasNoNul-append : (xs ys : List ℕ) → HasNoNul xs → HasNoNul ys → HasNoNul (xs ++ ys)
HasNoNul-append [] ys a b = b
HasNoNul-append (x ∷ xs) ys (n, a) b = (n, HasNoNul-append xs ys a b)

HasNoNul-concat : (xss : List (List ℕ)) → All HasNoNul xss → HasNoNul (concat xss)
HasNoNul-concat [] a = tt
HasNoNul-concat (xs ∷ xss) (n, a) = HasNoNul-append xs (concat xss) n (HasNoNul-concat xss a)

scan_lines-eq-cut :
    (re line text : List ℕ)
    → HasNoNul text
    → scan_lines re line text ≡ (select re (cut_lines line text).0, (cut_lines line text).1)
unfolding scan_lines cut_lines select
scan_lines-eq-cut re line [] a = refl
scan_lines-eq-cut re line (x ∷ text) (n, a) =
    let plain : (x == 0) ≡ false = ground arith in
    elim (Bool-cases (x == b'\n')) [
      | inl newline ↦
          let is : x ≡ b'\n' = ground arith in
          rw (plain, newline, is, scan_lines-eq-cut re [] text a) refl
      | inr byte ↦ rw (plain, byte) (scan_lines-eq-cut re (line ++ x ∷ []) text a)
    ]

scan_lines-append :
    (re line xs ys : List ℕ)
    → HasNoNul xs
    → scan_lines re line (xs ++ ys) ≡ (
      (scan_lines re line xs).0 ++ (scan_lines re (scan_lines re line xs).1 ys).0,
      (scan_lines re (scan_lines re line xs).1 ys).1,
    )
unfolding scan_lines
scan_lines-append re line [] ys a = refl
scan_lines-append re line (x ∷ xs) ys (n, a) =
    let plain : (x == 0) ≡ false = ground arith in
    elim (Bool-cases (x == b'\n')) [
      | inl newline ↦ rw (plain, newline, scan_lines-append re [] xs ys a) (simp append_assoc)
      | inr byte ↦ rw (plain, byte) (scan_lines-append re (line ++ x ∷ []) xs ys a)
    ]

-- A line that has been begun is scanned again from its start.
scan_lines-again :
    (re line kept text : List ℕ)
    → HasNoNul kept
    → has_newline kept ≡ false
    → scan_lines re line (kept ++ text) ≡ scan_lines re (line ++ kept) text
unfolding scan_lines has_newline
scan_lines-again re line [] text a h = rw append-nil refl
scan_lines-again re line (x ∷ kept) text (n, a) h =
    let plain : (x == 0) ≡ false = ground arith in
    let byte : (x == b'\n') ≡ false = ground arith in
    let more : has_newline kept ≡ false = ground arith in
    rw (plain, byte)
      (scan_lines-again re (line ++ x ∷ []) kept text a more
        ∙ ap (λ l. scan_lines re l text) (append_assoc line (x ∷ []) kept))

has_newline-append :
    (xs ys : List ℕ) → HasNoNul xs → has_newline (xs ++ ys) ≡ (has_newline xs || has_newline ys)
unfolding has_newline
has_newline-append [] ys a = refl
has_newline-append (x ∷ xs) ys (n, a) =
    let plain : (x == 0) ≡ false = ground arith in
    rw (plain, has_newline-append xs ys a) (ground arith)

scan_lines-keeps :
    (re line text : List ℕ)
    → HasNoNul line
    → HasNoNul text
    → has_newline line ≡ false
    → HasNoNul (scan_lines re line text).1 × (has_newline (scan_lines re line text).1 ≡ false)
unfolding scan_lines has_newline
scan_lines-keeps re line [] l a h = (l, h)
scan_lines-keeps re line (x ∷ text) l (n, a) h =
    let plain : (x == 0) ≡ false = ground arith in
    elim (Bool-cases (x == b'\n')) [
      | inl newline ↦ rw (plain, newline) (scan_lines-keeps re [] text tt a refl)
      | inr byte ↦
          let e = has_newline-append line (x ∷ []) l in
          rw (plain, byte)
            (scan_lines-keeps re (line ++ x ∷ []) text (HasNoNul-append line (x ∷ []) l (n, tt)) a
              (e ∙ rw (h, plain, byte) refl))
    ]

round-eq :
    (re kept chunk : List ℕ)
    → HasNoNul kept
    → has_newline chunk ≡ true
    → round re kept chunk ≡ scan_lines re [] (kept ++ chunk)
unfolding round
round-eq re kept chunk a h =
    let both : has_newline (kept ++ chunk) ≡ true =
      has_newline-append kept chunk a ∙ rw h (ground arith) in
    rw both refl

grep-cons :
    (re kept chunk : List ℕ) (chunks : List (List ℕ))
    → grep re kept (chunk ∷ chunks)
      ≡ (round re kept chunk).0 ++ grep re (round re kept chunk).1 chunks
unfolding grep
grep-cons re kept chunk chunks = refl

grep-scan_lines :
    (re kept : List ℕ) (chunks : List (List ℕ))
    → HasNoNul kept
    → has_newline kept ≡ false
    → All HasNoNul chunks
    → All (λ c. has_newline c ≡ true) chunks
    → grep re kept chunks ≡ (scan_lines re [] (kept ++ concat chunks)).0
unfolding grep scan_lines
grep-scan_lines re kept [] k h b a =
    sym (ap (λ (r : List ℕ × List ℕ). r.0) (scan_lines-again re [] kept [] k h))
grep-scan_lines re kept (chunk ∷ chunks) k h (m, b) (n, a) =
    let now = scan_lines re [] (kept ++ chunk) in
    let whole = HasNoNul-append kept chunk k m in
    let (clean, left) = scan_lines-keeps re [] (kept ++ chunk) tt whole refl in
    let rest = concat chunks in
    let all = scan_lines-append re [] (kept ++ chunk) rest whole in
    let again = scan_lines-again re [] now.1 rest clean left in
    grep-cons re kept chunk chunks
    ∙ ap (λ (r : List ℕ × List ℕ). r.0 ++ grep re r.1 chunks) (round-eq re kept chunk k n)
    ∙ ap (λ (o : List ℕ). now.0 ++ o)
        (grep-scan_lines re now.1 chunks clean left b a ∙ ap (λ (r : List ℕ × List ℕ). r.0) again)
    ∙ sym (ap (λ (r : List ℕ × List ℕ). r.0) all)
    ∙ ap (λ (t : List ℕ). (scan_lines re [] t).0) (append_assoc kept chunk rest)

-- If each chunk that `read` returns holds a newline and no NUL, `grep` writes exactly the lines of the whole input
-- that match, in order, each with its newline; what follows the last newline is not looked at.
pub grep_lem :
    (re : List ℕ) (chunks : List (List ℕ))
    → All HasNoNul chunks
    → All (λ c. has_newline c ≡ true) chunks
    → grep re [] chunks ≡ select re (cut_lines [] (concat chunks)).0
unfolding has_newline
grep_lem re chunks b a =
    grep-scan_lines re [] chunks tt refl b a
    ∙ ap (λ (r : List ℕ × List ℕ). r.0)
        (scan_lines-eq-cut re [] (concat chunks) (HasNoNul-concat chunks b))

scan_lines-silent :
    (re line text : List ℕ) → has_newline text ≡ false → (scan_lines re line text).0 ≡ []
unfolding scan_lines has_newline
scan_lines-silent re line [] h = refl
scan_lines-silent re line (x ∷ text) h = elim (Bool-cases (x == 0)) [
  | inl nul ↦ rw nul refl
  | inr plain ↦
      let byte : (x == b'\n') ≡ false = ground arith in
      let more : has_newline text ≡ false = ground arith in
      rw (plain, byte) (scan_lines-silent re (line ++ x ∷ []) text more)
]

round-loses :
    (re kept chunk : List ℕ) → has_newline (kept ++ chunk) ≡ false → round re kept chunk ≡ ([], [])
unfolding round
round-loses re kept chunk h =
    rw (h) (ap (λ (o : List ℕ). (o, [])) (scan_lines-silent re [] (kept ++ chunk) h))

-- A chunk without a newline (before its first NUL), in a buffer without one, is lost: the next chunk is
-- matched as if a line began there.
pub grep-loses :
    (re kept chunk : List ℕ) (chunks : List (List ℕ))
    → has_newline (kept ++ chunk) ≡ false
    → grep re kept (chunk ∷ chunks) ≡ grep re [] chunks
grep-loses re kept chunk chunks h =
    grep-cons re kept chunk chunks
    ∙ ap (λ (r : List ℕ × List ℕ). r.0 ++ grep re r.1 chunks) (round-loses re kept chunk h)
