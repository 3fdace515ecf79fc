-- ===== src/Content/Read.antt =====
-- fs.c: the loop of readi on the bytes of a file.
use cse3320_proj1_ahmed_bahb.Common.{
  ℕ, zero, suc, ◌+◌, ◌-◌, ◌/◌, ◌%◌, ◌<◌, ◌≤◌, ◌≡◌, ◌≢◌, refl, sym, ◌∙◌, ◌⊎◌, inl, inr, false, ◌==◌,
  if◌then◌else◌, arith, ℕ_discrete, dec_lt,
}
use cse3320_proj1_ahmed_bahb.Common.Outcome.{Outcome, ok, panic}
use cse3320_proj1_ahmed_bahb.Strings.{Memory}
use cse3320_proj1_ahmed_bahb.Strings.Move.{within}
use cse3320_proj1_ahmed_bahb.Bitmap.{Super, block_size}
use cse3320_proj1_ahmed_bahb.Dinode.{ndirect}
use cse3320_proj1_ahmed_bahb.Content.{Node, piece, copied, max_bytes, read_loop}
use cse3320_proj1_ahmed_bahb.Content.Places.{places, place, place_of, IsFile}
use cse3320_proj1_ahmed_bahb.Content.Bmap.{Mapped}
use cse3320_proj1_ahmed_bahb.Content.Mapping.{bmap-MapsTo}
use cse3320_proj1_ahmed_bahb.Content.Bytes.{content, Mapped-keeps, content-Mapped}
use cse3320_proj1_ahmed_bahb.Content.Write.{IsSparse, IsSparse-before}

-- The memory `m` is `dst` with the `n` bytes of the file at `off` copied to `d`; the file `t` has the bytes
-- that `s` has.
pub record Fetched (sb : Super) (s : Node) (dst : Memory) (d off n : ℕ) (m : Memory) (t : Node)
    : Type 0 where
  pub file : IsFile sb t
  pub memory : (i : ℕ) → m i ≡ (if within i d n then content s (off + (i - d)) else dst i)
  pub bytes : (x : ℕ) → x < max_bytes → content t x ≡ content s x
  pub fields : (t.fields.size ≡ s.fields.size) × (t.fields.type ≡ s.fields.type)
  pub keeps : (q : ℕ) → q < places → q ≢ ndirect → place s q ≢ 0 → place t q ≢ 0

abbrev pub ReadsTo : Super → Node → Memory → ℕ → ℕ → ℕ → Outcome (Memory × Node) → Type 0
ReadsTo sb s dst d off n r =
    ((m : Memory) × (t : Node) × (r ≡ ok (m, t)) × Fetched sb s dst d off n m t)
    ⊎ ((r ≡ panic) × IsSparse s off n)

nothing-Fetched :
    (sb : Super) (s : Node) (dst : Memory) (d off n : ℕ)
    → n ≡ 0
    → IsFile sb s
    → Fetched sb s dst d off n dst s
nothing-Fetched sb s dst d off n z v = record {
  file = v;
  memory = λ i. ground arith;
  bytes = λ x hx. refl;
  fields = (refl, refl);
  keeps = λ q hq nd ne. ne;
}

-- The bytes of one block.
block-content :
    (sb : Super) (s : Node) (bn c : ℕ) (t : Node) (x : ℕ)
    → Mapped sb s (place_of bn) c t
    → x / block_size ≡ bn
    → x < max_bytes
    → t.disk c (x % block_size) ≡ content s x
unfolding content
block-content sb s bn c t x m e h =
    let pos : (c == 0) ≡ false = let p = m.present in ground arith in
    let now : content t x ≡ t.disk c (x % block_size) = rw (e, m.here, pos) refl in
    sym now ∙ content-Mapped sb s (place_of bn) c t m x h

two_rounds :
    (i d off n : ℕ) (later block before : ℕ → ℕ) (dst : Memory)
    → n ≢ 0
    → ((j : ℕ) → j < piece off n → j < n → block ((off + j) % block_size) ≡ before (off + j))
    → ((j : ℕ) → j < n → later (off + j) ≡ before (off + j))
    → (if within i (d + piece off n) (n - piece off n)
        then later (off + piece off n + (i - (d + piece off n)))
        else copied dst d block (off % block_size) (piece off n) i)
      ≡ (if within i d n then before (off + (i - d)) else dst i)
two_rounds i d off n later block before dst nz b l = elim (dec_lt (i - d) (piece off n)) [
  | yes near ↦
      let fits : i - d < n = ground arith in
      let e : (off + (i - d)) % block_size ≡ off % block_size + (i - d) = ground arith in
      let x = rw e at (b (i - d) near fits) in ground (arith)
  | no far ↦ elim (dec_lt (i - d) n) [
    | yes lt ↦
        let e : off + piece off n + (i - (d + piece off n)) ≡ off + (i - d) = ground arith in
        let x = l (i - d) lt in rw e (ground arith)
    | no out ↦ ground arith
  ]
]

Fetched-trans :
    (sb : Super) (s t u : Node) (dst m : Memory) (d off n c : ℕ)
    → off + n ≤ max_bytes
    → n ≢ 0
    → Mapped sb s (place_of (off / block_size)) c t
    → Fetched sb t
        (copied dst d (t.disk c) (off % block_size) (piece off n))
        (d + piece off n)
        (off + piece off n)
        (n - piece off n)
        m
        u
    → Fetched sb s dst d off n m u
Fetched-trans sb s t u dst m d off n c h nz mapped rest = record {
  file = rest.file;
  memory = λ i.
      rest.memory i
      ∙ two_rounds i d off n (content t) (t.disk c) (content s) dst nz
          (λ j near lt.
            block-content sb s (off / block_size) c t (off + j) mapped (ground arith) (omega arith))
          (λ j lt.
            content-Mapped sb s (place_of (off / block_size)) c t mapped (off + j) (omega arith));
  bytes =
      λ x hx. rest.bytes x hx ∙ content-Mapped sb s (place_of (off / block_size)) c t mapped x hx;
  fields = (rest.fields.0 ∙ mapped.size.0, rest.fields.1 ∙ mapped.size.1);
  keeps = λ q hq nd ne.
      rest.keeps q hq nd (Mapped-keeps sb s (place_of (off / block_size)) c t q mapped hq nd ne);
}

pub read_loop-ReadsTo :
    (fuel : ℕ) (sb : Super) (s : Node) (dst : Memory) (d off n : ℕ)
    → n ≤ fuel
    → off + n ≤ max_bytes
    → IsFile sb s
    → ReadsTo sb s dst d off n (read_loop fuel sb s dst d off n)
unfolding read_loop
read_loop-ReadsTo zero sb s dst d off n le h v =
    let z : n ≡ 0 = omega arith in inl (dst, s, rw z refl, nothing-Fetched sb s dst d off n z v)
read_loop-ReadsTo (suc fuel) sb s dst d off n le h v = elim (ℕ_discrete n 0) [
  | yes z ↦ inl (dst, s, rw z refl, nothing-Fetched sb s dst d off n z v)
  | no nz ↦
      let t : (n == 0) ≡ false = ground arith in
      let bn : ℕ = off / block_size in
      elim (bmap-MapsTo sb s bn v (omega arith)) [
        | inr (e, z, full) ↦ inr (rw (t, e) refl, (off, omega arith, omega arith, z))
        | inl (c, w, e, m) ↦
            let dst' : Memory = copied dst d (w.disk c) (off % block_size) (piece off n) in
            let p : ℕ = piece off n in
            let more : 0 < piece off n = ground arith in
            let fits : piece off n ≤ n = ground arith in
            let back = (v.calls c).0 in
            let step : read_loop (suc fuel) sb s dst d off n
                ≡ read_loop fuel sb w dst' (d + p) (off + p) (n - p) =
              rw (t, e, back) refl in
            elim (read_loop-ReadsTo fuel sb w dst' (d + p) (off + p) (n - p) (omega arith)
              (omega arith) m.file) [
                | inl (r, u, e', f) ↦
                    inl (r, u, step ∙ e', Fetched-trans sb s w u dst r d off n c h nz m f)
                | inr (e', sp) ↦ inr (
                  step ∙ e',
                  IsSparse-before sb s (place_of bn) c w w off n p h fits m (λ q hq. refl) sp,
                )
              ]
      ]
]
