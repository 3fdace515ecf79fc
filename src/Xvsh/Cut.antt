-- ===== src/Xvsh/Cut.antt =====
-- xvsh.c: a call of strtok_custom on a string.
use cse3320_proj1_ahmed_bahb.Common.{
  ℕ, suc, ◌+◌, ◌≤◌, ◌<◌, ◌≡◌, ◌≢◌, refl, sym, ◌∙◌, ◌⊎◌, inl, inr, List, [], ◌∷◌, length, true,
  false, Option, none, some, ◌==◌, arith, Bool-cases,
}
use cse3320_proj1_ahmed_bahb.Common.Maps.{update, update_self, update_ne}
use cse3320_proj1_ahmed_bahb.Strings.{Memory}
use cse3320_proj1_ahmed_bahb.Xvsh.{
  maxline, is_delim, skip_from, scan_to, Strtok, cut_token, next_token,
}
use cse3320_proj1_ahmed_bahb.Xvsh.Words.{strip, first, past}
use cse3320_proj1_ahmed_bahb.Xvsh.Text.{IsText, IsText-agree, Stops, skip_from_lem, scan_to_lem}

-- What `last` is to be, for a token that ends at `e` with `o` behind it.
abbrev pub Continues : Strtok → ℕ → Option (List ℕ) → Type 0
Continues st e none = st.last ≡ none
Continues st e (some r) = (st.last ≡ some (e + 1)) × IsText st.mem (e + 1) r

-- The token `c ∷ first ds cs` at `p`.
pub record Token (ds : List ℕ) (mem : Memory) (a c : ℕ) (cs : List ℕ) (p : ℕ) (st : Strtok)
    : Type 0 where
  pub text : IsText st.mem p (c ∷ first ds cs)
  pub from : a ≤ p
  pub keeps : (x : ℕ) → x ≢ p + 1 + length (first ds cs) → st.mem x ≡ mem x
  pub next : Continues st (p + 1 + length (first ds cs)) (past ds cs)

first-IsText :
    (ds : List ℕ) (m n : Memory) (a : ℕ) (w : List ℕ)
    → IsText m a w
    → n (a + length (first ds w)) ≡ 0
    → ((x : ℕ) → x < a + length (first ds w) → n x ≡ m x)
    → IsText n a (first ds w)
unfolding first
first-IsText ds m n a [] t z h = let e : a + 0 ≡ a = omega arith in rw e at z
first-IsText ds m n a (c ∷ cs) (e, nz, t) z h = elim (Bool-cases (is_delim ds c)) [
  | inl d ↦ let z' = rw d at z in let e' : a + 0 ≡ a = omega arith in rw d (rw e' at z')
  | inr f ↦
      let z' = rw f at z in
      let h' = rw f at h in
      let s : a + suc (length (first ds cs)) ≡ a + 1 + length (first ds cs) = omega arith in
      rw f (
        h' a (omega arith) ∙ e,
        nz,
        first-IsText ds m n (a + 1) cs t (rw s at z') (λ x lt. h' x (omega arith)),
      )
]

module _ (ds : List ℕ) (not_nul : is_delim ds 0 ≡ false) (mem : Memory) where
  cut_token_lem :
      (b c : ℕ) (cs : List ℕ)
      → IsText mem b (c ∷ cs)
      → length cs < maxline
      → (st : Strtok) × (cut_token mem b (scan_to maxline ds mem (b + 1)) ≡ (some b, st))
        × Token ds mem b c cs b st
  cut_token_lem b c cs (e, nz, t) h =
      let z : (mem b == 0) ≡ false = ground arith in
      let (at, stops, le) = scan_to_lem ds not_nul maxline mem (b + 1) cs t h in
      ended (scan_to maxline ds mem (b + 1)) z at (past ds cs) refl stops
    where
      ended :
          (k : ℕ)
          → (mem b == 0) ≡ false
          → k ≡ b + 1 + length (first ds cs)
          → (o : Option (List ℕ)) → past ds cs ≡ o
          → Stops ds not_nul mem (b + 1) k cs o
          → (st : Strtok) × (cut_token mem b k ≡ (some b, st)) × Token ds mem b c cs b st
      ended k z at none po (nul, all) =
          let t0 : (mem k == 0) ≡ true = ground arith in
          (
            record { mem = mem; last = none },
            rw (z, t0) refl,
            record {
              text = (e, nz, rw all t);
              from = omega arith;
              keeps = λ x ne. refl;
              next = rw po refl;
            },
          )
      ended k z at (some r) po (nnul, tr, len) =
          let t0 : (mem k == 0) ≡ false = ground arith in
          let n : Memory = update mem k 0 in
          (
            record { mem = n; last = some (k + 1) },
            rw (z, t0) refl,
            record {
              text = (
                update_ne mem k b 0 (omega arith) ∙ e,
                nz,
                first-IsText ds mem n (b + 1) cs t (rw (← at) (update_self mem k 0))
                    (λ x lt. update_ne mem k x 0 (omega arith)),
              );
              from = omega arith;
              keeps = λ x ne. update_ne mem k x 0 (λ s. ne (sym s ∙ at));
              next =
                  rw (po, ← at)
                    (
                      refl,
                      IsText-agree mem n (k + 1) r (λ x lo hi. update_ne mem k x 0 (omega arith))
                          tr,
                    );
            },
          )

  -- A call on a string of delimiters only, or one that finds a token.
  pub next_token_lem :
      (a : ℕ) (w : List ℕ)
      → IsText mem a w
      → length w < maxline
      → ((strip ds w ≡ []) × (next_token ds mem a ≡ (none, record { mem = mem; last = none })))
        ⊎ ((c : ℕ) × (cs : List ℕ) × (p : ℕ) × (st : Strtok) × (strip ds w ≡ c ∷ cs)
            × (next_token ds mem a ≡ (some p, st))
            × Token ds mem a c cs p st
            × (p + suc (length cs) ≡ a + length w))
  next_token_lem a w t h =
      let (t', le, len) = skip_from_lem ds not_nul maxline mem a w t h in
      found (skip_from maxline ds mem a) (strip ds w) refl t' le len
    where
      found :
          (b : ℕ) (v : List ℕ)
          → strip ds w ≡ v
          → IsText mem b v
          → a ≤ b
          → b + length v ≡ a + length w
          → ((strip ds w ≡ [])
              × (cut_token mem b (scan_to maxline ds mem (b + 1))
                  ≡ (none, record { mem = mem; last = none })))
            ⊎ ((c : ℕ) × (cs : List ℕ) × (p : ℕ) × (st : Strtok) × (strip ds w ≡ c ∷ cs)
                × (cut_token mem b (scan_to maxline ds mem (b + 1)) ≡ (some p, st))
                × Token ds mem a c cs p st
                × (p + suc (length cs) ≡ a + length w))
      found b [] e tb le len = let z : (mem b == 0) ≡ true = ground arith in inl (e, rw z refl)
      found b (c ∷ cs) e tb le len =
          let (st, call, tok) = cut_token_lem b c cs tb (omega arith) in
          inr (
            c,
            cs,
            b,
            st,
            e,
            call,
            record { text = tok.text; from = le; keeps = tok.keeps; next = tok.next },
            len,
          )
