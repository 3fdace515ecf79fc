-- ===== src/Folders/Rounds.antt =====
-- fs.c: the loop of `dirlookup` finds the first entry with the name.
use mathlib.Core.Path.{subst}
use cse3320_proj1_ahmed_bahb.Common.{
  ℕ, zero, suc, ◌+◌, ◌*◌, ◌<◌, ◌≤◌, ◌≡◌, ◌≢◌, refl, sym, ap, ◌∙◌, ◌⊎◌, inl, inr, true, false,
  Option, none, some, List, ltb, ◌==◌, arith, Bool-cases, ℕ_discrete,
}
use cse3320_proj1_ahmed_bahb.Common.Outcome.{Outcome, ok}
use cse3320_proj1_ahmed_bahb.Strings.{Memory, Difference, same, more, less}
use cse3320_proj1_ahmed_bahb.Strings.Compare.{c_prefix, strncmp-eq-same_iff}
use cse3320_proj1_ahmed_bahb.Bitmap.{Super}
use cse3320_proj1_ahmed_bahb.Dinode.{load16}
use cse3320_proj1_ahmed_bahb.Content.{Node, Device, max_bytes}
use cse3320_proj1_ahmed_bahb.Content.Bytes.{content}
use cse3320_proj1_ahmed_bahb.Paths.{dirsiz}
use cse3320_proj1_ahmed_bahb.Folders.{dirent_size, namecmp, is_same, lookup_from}
use cse3320_proj1_ahmed_bahb.Folders.Entries.{
  IsFolder, inum_at, name_at, Matches, Kept, c_prefix-agree, read_entry,
}

is_same-true : (d : Difference) → is_same d ≡ true → d ≡ same
is_same-true same e = refl
is_same-true (more x) e = absurd (ground arith)
is_same-true (less x) e = absurd (ground arith)

same_name :
    (mem : Memory) (p q : ℕ)
    → is_same (namecmp mem p q) ≡ true
    → c_prefix dirsiz mem p ≡ c_prefix dirsiz mem q
same_name mem p q e = (strncmp-eq-same_iff dirsiz mem p q).0 (is_same-true (namecmp mem p q) e)

other_name :
    (mem : Memory) (p q : ℕ)
    → is_same (namecmp mem p q) ≡ false
    → c_prefix dirsiz mem p ≢ c_prefix dirsiz mem q
other_name mem p q e z =
    let d = (strncmp-eq-same_iff dirsiz mem p q).1 z in
    let t : is_same (namecmp mem p q) ≡ true = ap is_same d in absurd (ground arith)

Kept-entry :
    (s t : Node) (off : ℕ)
    → Kept s t
    → off + dirent_size ≤ max_bytes
    → (inum_at t off ≡ inum_at s off) × (name_at t off ≡ name_at s off)
Kept-entry s t off k h =
    let a = k off (omega arith) in
    let b = k (off + 1) (omega arith) in
    (
      rw (a, b) refl,
      c_prefix-agree dirsiz (content t) (content s) (off + 2) (off + 2)
          (λ i hi. k (off + 2 + i) (omega arith)),
    )

-- What a search for `nm` from entry `k` on ends with.
abbrev pub Searched : Super → Node → ℕ → List ℕ → ℕ → Outcome (Option (ℕ × ℕ) × Node) → Type 0
Searched sb s m nm k r =
    ((j : ℕ) × (t : Node) × (k ≤ j)
      × (j < m)
      × Matches s nm (dirent_size * j)
      × ((i : ℕ) → k ≤ i → i < j → ¬ (Matches s nm (dirent_size * i)))
      × (r ≡ ok (some (dirent_size * j, inum_at s (dirent_size * j)), t))
      × Kept s t
      × IsFolder sb t m)
    ⊎ (((i : ℕ) → k ≤ i → i < m → ¬ (Matches s nm (dirent_size * i)))
        × ((t : Node) × (r ≡ ok (none, t)) × Kept s t × IsFolder sb t m))

module _ (sb : Super) (s t : Node) (m k : ℕ) (nm : List ℕ) (kept : Kept s t)
    (fits : dirent_size * m ≤ max_bytes) where
  Matches-Kept : (i : ℕ) → i < m → Matches t nm (dirent_size * i) → Matches s nm (dirent_size * i)
  Matches-Kept i h (n, e) =
      let (a, b) = Kept-entry s t (dirent_size * i) kept (omega arith) in
      (λ z. n (a ∙ z), sym b ∙ e)

  Kept-Matches : (i : ℕ) → i < m → Matches s nm (dirent_size * i) → Matches t nm (dirent_size * i)
  Kept-Matches i h (n, e) =
      let (a, b) = Kept-entry s t (dirent_size * i) kept (omega arith) in
      (λ z. n (sym a ∙ z), b ∙ e)

  none_before :
      (j : ℕ)
      → j ≤ m
      → ¬ (Matches s nm (dirent_size * k))
      → ((i : ℕ) → k + 1 ≤ i → i < j → ¬ (Matches t nm (dirent_size * i)))
      → (i : ℕ) → k ≤ i
      → i < j
      → ¬ (Matches s nm (dirent_size * i))
  none_before j hj skip f i lo hi = elim (ℕ_discrete k i) [
    | yes e ↦ subst (λ x. ¬ (Matches s nm (dirent_size * x))) e skip
    | no ne ↦ λ z. f i (omega arith) hi (Kept-Matches i (omega arith) z)
  ]

  -- Past an entry that does not match.
  past_entry :
      (r : Outcome (Option (ℕ × ℕ) × Node))
      → ¬ (Matches s nm (dirent_size * k))
      → Searched sb t m nm (k + 1) r
      → Searched sb s m nm k r
  past_entry r skip (inl (j, u, lo, hi, hit, f, e, kp, v)) =
      let (a, b) = Kept-entry s t (dirent_size * j) kept (omega arith) in
      inl (
        j,
        u,
        omega arith,
        hi,
        Matches-Kept j hi hit,
        none_before j (omega arith) skip f,
        rw (a) at e,
        λ x hx. kp x hx ∙ kept x hx,
        v,
      )
  past_entry r skip (inr (f, (u, e, kp, v))) =
      inr (none_before m (omega arith) skip f, (u, e, λ x hx. kp x hx ∙ kept x hx, v))

in_use : (x : ℕ) → x ≢ 0 → (x == 0) ≡ false
in_use x ne = ground arith

module _ (devsw : ℕ → Option Device) (sb : Super) (m name : ℕ) (away : dirent_size ≤ name) where
  pub lookup_from_lem :
      (n : ℕ) (s : Node) (mem : Memory) (k : ℕ)
      → k ≤ m
      → m < n + k
      → IsFolder sb s m
      → Searched sb s m
          (c_prefix dirsiz mem name)
          k
          (lookup_from n devsw sb s mem name (dirent_size * k))
  unfolding lookup_from
  lookup_from_lem zero s mem k lo hi v = absurd (omega arith)
  lookup_from_lem (suc n) s mem k lo hi v = elim (ℕ_discrete k m) [
    | yes e ↦
        let size = v.size in
        let end : ltb (dirent_size * k) s.fields.size ≡ false = ground arith in
        inr (λ i l h. absurd (omega arith), (s, rw (lookup_from, end) refl, λ x hx. refl, v))
    | no ne ↦
        let size = v.size in
        let fits = v.fits in
        let inside : ltb (dirent_size * k) s.fields.size ≡ true = ground arith in
        let (got, t, call, here, rest, kept, w) = read_entry devsw sb s m v mem k (omega arith) in
        let nm = c_prefix dirsiz mem name in
        let inum : load16 got 0 ≡ inum_at s (dirent_size * k) =
          let a = here 0 (omega arith) in
          let b = here 1 (omega arith) in
          let z : dirent_size * k + 0 ≡ dirent_size * k = omega arith in
          let c : got 0 ≡ content s (dirent_size * k) = a ∙ ap (content s) z in rw (b, c) refl in
        let title : c_prefix dirsiz got 2 ≡ name_at s (dirent_size * k) =
          c_prefix-agree dirsiz got (content s) 2 (dirent_size * k + 2) (λ i h.
            let z : dirent_size * k + (2 + i) ≡ dirent_size * k + 2 + i = omega arith in
            here (2 + i) (omega arith) ∙ ap (content s) z) in
        let kept_name : c_prefix dirsiz got name ≡ nm =
          c_prefix-agree dirsiz got mem name name (λ i h. rest (name + i) (omega arith)) in
        let next_off : dirent_size * k + dirent_size ≡ dirent_size * (k + 1) = omega arith in
        let next = lookup_from_lem n t got (k + 1) (omega arith) (omega arith) w in
        let next' =
          subst
            (λ x.
              Searched sb t m x (k + 1) (lookup_from n devsw sb t got name (dirent_size * (k + 1))))
            kept_name next in
        elim (ℕ_discrete (load16 got 0) 0) [
          | yes free ↦
              let skip : ¬ (Matches s nm (dirent_size * k)) = λ z. z.0 (sym inum ∙ free) in
              rw (lookup_from, inside, call, next_off, free)
                (past_entry sb s t m k nm kept fits _ skip next')
          | no taken ↦
              let busy : (load16 got 0 == 0) ≡ false = in_use (load16 got 0) taken in
              elim (Bool-cases (is_same (namecmp got name 2))) [
                | inl y ↦
                    let hit : name_at s (dirent_size * k) ≡ nm =
                      sym title ∙ sym (same_name got name 2 y) ∙ kept_name in
                    inl (
                      k,
                      t,
                      omega arith,
                      omega arith,
                      (λ z. taken (inum ∙ z), hit),
                      λ i l h z. absurd (omega arith),
                      rw (lookup_from, inside, call, busy, y, inum) refl,
                      kept,
                      w,
                    )
                | inr y ↦
                    let skip : ¬ (Matches s nm (dirent_size * k)) =
                      λ z. other_name got name 2 y (kept_name ∙ sym z.1 ∙ sym title) in
                    rw (lookup_from, inside, call, busy, y, next_off)
                      (past_entry sb s t m k nm kept fits _ skip next')
              ]
        ]
  ]
