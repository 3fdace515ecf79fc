-- ===== src/Content/Write.antt =====
-- fs.c: the loop of writei on the bytes of a file.
use cse3320_proj1_ahmed_bahb.Common.{
  ℕ, zero, suc, ◌+◌, ◌-◌, ◌/◌, ◌%◌, ◌<◌, ◌≤◌, ◌≡◌, ◌≢◌, refl, sym, ◌∙◌, ◌⊎◌, inl, inr, false, ◌&&◌,
  ◌==◌, if◌then◌else◌, arith, ℕ_discrete,
}
use cse3320_proj1_ahmed_bahb.Common.Outcome.{Outcome, ok, panic}
use cse3320_proj1_ahmed_bahb.Strings.{Memory}
use cse3320_proj1_ahmed_bahb.Strings.Move.{within}
use cse3320_proj1_ahmed_bahb.Bitmap.{Super, block_size}
use cse3320_proj1_ahmed_bahb.Bitmap.Bits.{AreBytes}
use cse3320_proj1_ahmed_bahb.Dinode.{ndirect}
use cse3320_proj1_ahmed_bahb.Content.{Node, piece, max_bytes, write_loop}
use cse3320_proj1_ahmed_bahb.Content.Places.{places, place, place_of, IsApart, IsFile}
use cse3320_proj1_ahmed_bahb.Content.Bmap.{Mapped}
use cse3320_proj1_ahmed_bahb.Content.Mapping.{bmap-MapsTo}
use cse3320_proj1_ahmed_bahb.Content.Bytes.{
  content, place_of-lt, place_of-ne, Mapped-keeps, content-Mapped, wrote, place-wrote, wrote-IsFile,
  wrote-IsApart, content-wrote,
}

-- Some byte of the range is at a place without a block.
abbrev pub IsSparse : Node → ℕ → ℕ → Type 0
IsSparse s off n = (x : ℕ) × (off ≤ x) × (x < off + n) × (place s (place_of (x / block_size)) ≡ 0)

-- The file `t` is the file `s` with `n` bytes from `src + a` at `off`.
pub record Written (sb : Super) (s : Node) (src : Memory) (a off n : ℕ) (t : Node) : Type 0 where
  pub file : IsFile sb t
  pub bytes :
      (x : ℕ)
      → x < max_bytes
      → content t x ≡ (if within x off n then src (a + (x - off)) else content s x)
  pub keeps : (q : ℕ) → q < places → q ≢ ndirect → place s q ≢ 0 → place t q ≢ 0
  pub present : (x : ℕ) → off ≤ x → x < off + n → place t (place_of (x / block_size)) ≢ 0
  pub apart : (b : ℕ) → IsApart sb s b → IsApart sb t b
  pub fields : (t.fields.size ≡ s.fields.size) × (t.fields.type ≡ s.fields.type)

abbrev pub WritesTo : Super → Node → Memory → ℕ → ℕ → ℕ → Outcome Node → Type 0
WritesTo sb s src a off n m =
    ((t : Node) × (m ≡ ok t) × Written sb s src a off n t) ⊎ ((m ≡ panic) × IsSparse s off n)

two_rounds :
    (x off n a : ℕ) (src : Memory) (after during before : ℕ)
    → off + n ≤ max_bytes
    → n ≢ 0
    → after ≡ (
        if x / block_size == off / block_size
          && within (x % block_size) (off % block_size) (piece off n)
        then src (a + (x % block_size - off % block_size))
        else during)
    → during ≡ before
    → (if within x (off + piece off n) (n - piece off n)
        then src (a + piece off n + (x - (off + piece off n)))
        else after)
      ≡ (if within x off n then src (a + (x - off)) else before)
two_rounds x off n a src after during before h nz e f = ground arith

-- A round of the loop, then the others.
Written-trans :
    (sb : Super) (s t u w : Node) (src : Memory) (a off n c : ℕ)
    → off + n ≤ max_bytes
    → n ≢ 0
    → Mapped sb s (place_of (off / block_size)) c t
    → ((q : ℕ) → q < places → place u q ≡ place t q)
    → ((x : ℕ)
        → x < max_bytes
        → content u x ≡ (
            if x / block_size == off / block_size
              && within (x % block_size) (off % block_size) (piece off n)
            then src (a + (x % block_size - off % block_size))
            else content t x))
    → ((b : ℕ) → IsApart sb t b → IsApart sb u b)
    → (u.fields.size ≡ t.fields.size) × (u.fields.type ≡ t.fields.type)
    → Written sb u src (a + piece off n) (off + piece off n) (n - piece off n) w
    → Written sb s src a off n w
Written-trans sb s t u w src a off n c h nz mapped same write apart g rest = record {
  file = rest.file;
  bytes = λ x hx.
      rest.bytes x hx
      ∙ two_rounds x off n a src (content u x) (content t x) (content s x) h nz (write x hx)
          (content-Mapped sb s (place_of (off / block_size)) c t mapped x hx);
  keeps = λ q hq nd ne. rest.keeps q hq nd (λ z.
      Mapped-keeps sb s (place_of (off / block_size)) c t q mapped hq nd ne (sym (same q hq) ∙ z));
  present = λ x lo hi. elim (ℕ_discrete (x / block_size) (off / block_size)) [
    | yes e ↦
        let q : ℕ = place_of (off / block_size) in
        let hq : q < places = place_of-lt (off / block_size) (omega arith) in
        rw e (
          rest.keeps q hq (place_of-ne (off / block_size))
            (λ z. mapped.present (sym mapped.here ∙ sym (same q hq) ∙ z)))
    | no ne ↦ let past : off + piece off n ≤ x = ground arith in rest.present x past (ground arith)
  ];
  apart = λ b v. rest.apart b (apart b (mapped.apart b v));
  fields = (rest.fields.0 ∙ g.0 ∙ mapped.size.0, rest.fields.1 ∙ g.1 ∙ mapped.size.1);
}

-- A byte that has no block after a round had none before it.
pub IsSparse-before :
    (sb : Super) (s : Node) (p c : ℕ) (t u : Node) (off n m : ℕ)
    → off + n ≤ max_bytes
    → m ≤ n
    → Mapped sb s p c t
    → ((q : ℕ) → q < places → place u q ≡ place t q)
    → IsSparse u (off + m) (n - m)
    → IsSparse s off n
IsSparse-before sb s p c t u off n m h lt mp same (x, lo, hi, z) =
    let q : ℕ = place_of (x / block_size) in
    let hq : q < places = place_of-lt (x / block_size) (omega arith) in
    let nd : q ≢ ndirect = place_of-ne (x / block_size) in
    (
      x,
      omega arith,
      omega arith,
      elim (ℕ_discrete (place s q) 0) [
        | yes e ↦ e
        | no ne ↦ absurd (Mapped-keeps sb s p c t q mp hq nd ne (sym (same q hq) ∙ z))
      ],
    )

pub write_loop-WritesTo :
    (fuel : ℕ) (sb : Super) (s : Node) (src : Memory) (a off n : ℕ)
    → n ≤ fuel
    → off + n ≤ max_bytes
    → AreBytes src
    → IsFile sb s
    → WritesTo sb s src a off n (write_loop fuel sb s src a off n)
unfolding write_loop
write_loop-WritesTo zero sb s src a off n le h bs v =
    let z : n ≡ 0 = omega arith in
    inl (
      s,
      rw z refl,
      record {
        file = v;
        bytes = λ x hx. ground arith;
        keeps = λ q hq nd ne. ne;
        present = λ x lo hi. absurd (omega arith);
        apart = λ b h. h;
        fields = (refl, refl);
      },
    )
write_loop-WritesTo (suc fuel) sb s src a off n le h bs v = elim (ℕ_discrete n 0) [
  | yes z ↦ inl (
    s,
    rw z refl,
    record {
      file = v;
      bytes = λ x hx. ground arith;
      keeps = λ q hq nd ne. ne;
      present = λ x lo hi. absurd (omega arith);
      apart = λ b h. h;
      fields = (refl, refl);
    },
  )
  | no nz ↦
      let t : (n == 0) ≡ false = ground arith in
      let bn : ℕ = off / block_size in
      let hb : bn < 140 = omega arith in
      elim (bmap-MapsTo sb s bn v hb) [
        | inr (e, z, full) ↦ inr (rw (t, e) refl, (off, omega arith, omega arith, z))
        | inl (c, w, e, m) ↦
            let some_block : place w (place_of bn) ≢ 0 = λ z. m.present (sym m.here ∙ z) in
            let u = wrote sb w m.file bn hb src bs some_block (off % block_size) a (piece off n) in
            let o : ℕ = off + piece off n in
            let more : 0 < piece off n = ground arith in
            let fits : piece off n ≤ n = ground arith in
            let back = (v.calls c).0 in
            let logged = (v.calls c).1 in
            let step : write_loop (suc fuel) sb s src a off n
                ≡ write_loop fuel sb u src (a + piece off n) o (n - piece off n) =
              rw (t, e, m.here, back, logged) refl in
            let iu =
              wrote-IsFile sb w m.file bn hb src bs some_block (off % block_size) a (piece off n) in
            let pu =
              place-wrote sb w m.file bn hb src bs some_block (off % block_size) a (piece off n) in
            let cu =
              content-wrote sb w m.file bn hb src bs some_block (off % block_size) a
                (piece off n) in
            let au =
              wrote-IsApart sb w m.file bn hb src bs some_block (off % block_size) a
                (piece off n) in
            elim (write_loop-WritesTo fuel sb u src (a + piece off n) o (n - piece off n)
              (omega arith) (omega arith) bs iu) [
                | inl (r, e', wr) ↦ inl (
                  r,
                  step ∙ e',
                  Written-trans sb s w u r src a off n c h nz m pu cu au (refl, refl) wr,
                )
                | inr (e', sp) ↦ inr (
                  step ∙ e',
                  IsSparse-before sb s (place_of bn) c w u off n (piece off n) h fits m pu sp,
                )
              ]
      ]
]
