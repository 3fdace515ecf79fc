-- ===== src/Bitmap/Marks.antt =====
-- fs.c: what a write to the bitmap does to the set of used blocks.
use cse3320_proj1_ahmed_bahb.Common.{
  ℕ, ◌+◌, ◌*◌, ◌/◌, ◌%◌, ◌<◌, ◌≡◌, ◌≢◌, refl, sym, ap, ◌∙◌, Bool, true, false, not, ◌&&◌, ◌||◌,
  ◌==◌, if◌then◌else◌, arith, ℕ_discrete,
}
use cse3320_proj1_ahmed_bahb.Common.Maps.{update, update_self, update_ne}
use cse3320_proj1_ahmed_bahb.Common.Outcome.{ok}
use cse3320_proj1_ahmed_bahb.Strings.{Memory, memset}
use cse3320_proj1_ahmed_bahb.Strings.Move.{memset-at, within}
use cse3320_proj1_ahmed_bahb.Bitmap.{
  Super, Disk, bpb, block_size, bblock, bit_at, with_bit, without_bit, bzero, zeroed_block,
  take_block, Returns,
}
use cse3320_proj1_ahmed_bahb.Bitmap.Bits.{AreBytes, bit_at-with_bit, bit_at-without_bit}

-- What the bitmap on the disk says of a block.
abbrev pub used : Super → Disk → ℕ → Bool
used sb d c = bit_at (d (bblock c sb)) (c % bpb)

-- The blocks of the bitmap hold bytes, lie on the disk, and are marked as used themselves.
pub record IsBitmap (sb : Super) (d : Disk) : Type 0 where
  pub bytes : (b : ℕ) → AreBytes (d b)
  pub inside : (c : ℕ) → c < sb.size → bblock c sb < sb.size
  pub reserved : (c : ℕ) → c < sb.size → used sb d (bblock c sb) ≡ true

-- A change of the bits of the bitmap block of `c`.
abbrev pub rewritten : Super → Disk → ℕ → (ℕ → ℕ → ℕ) → Disk
rewritten sb d c f =
    let old = d (bblock c sb) in
    update d (bblock c sb) (update old (c % bpb / 8) (f (old (c % bpb / 8)) (c % bpb % 8)))

pub take_block-eq :
    (sb : Super) (d : Disk) (c : ℕ)
    → Returns sb
    → take_block sb d (c / bpb * bpb) (c % bpb) ≡ ok (zeroed_block (rewritten sb d c with_bit) c)
unfolding take_block bzero
take_block-eq sb d c calls =
    let logged = (calls (bblock c sb)).1 in
    let back = (calls c).0 in
    let again = (calls c).1 in
    let row : c / bpb * bpb / bpb ≡ c / bpb = omega arith in
    let sum : c / bpb * bpb + c % bpb ≡ c = omega arith in rw (row, sum, logged, back, again) refl

pub zeroed_block-ne : (d : Disk) (c b : ℕ) → c ≢ b → zeroed_block d c b ≡ d b
zeroed_block-ne d c b ne = update_ne d c b (memset (d c) 0 0 block_size) ne

pub zeroed_block-at :
    (d : Disk) (c a : ℕ) → zeroed_block d c c a ≡ (if within a 0 block_size then 0 else d c a)
zeroed_block-at d c a =
    ap (λ (m : Memory). m a) (update_self d c (memset (d c) 0 0 block_size))
    ∙ memset-at (d c) 0 0 block_size a

module _ (sb : Super) (d : Disk) (v : IsBitmap sb d) (c : ℕ) (f : ℕ → ℕ → ℕ)
    (g : Bool → Bool → Bool)
    (law : (mem : Memory)
      → AreBytes mem
      → (bi j : ℕ)
      → bit_at (update mem (bi / 8) (f (mem (bi / 8)) (bi % 8))) j ≡ g (j == bi) (bit_at mem j))
    (stays : (x : Bool) → g false x ≡ x) where
  pub used-rewritten : (j : ℕ) → used sb (rewritten sb d c f) j ≡ g (j == c) (used sb d j)
  used-rewritten j = elim (ℕ_discrete (bblock c sb) (bblock j sb)) [
    | yes e ↦
        let row : c / bpb ≡ j / bpb = omega arith in
        let t : (j % bpb == c % bpb) ≡ (j == c) = ground arith in
        let u : rewritten sb d c f (bblock j sb) ≡ rewritten sb d c f (bblock c sb) =
          ap (rewritten sb d c f) (sym e) in
        let i = j % bpb in
        let at = λ (m : Memory). bit_at m i in
        let old = d (bblock c sb) in
        ap at (u ∙ update_self d (bblock c sb) _)
        ∙ law old (v.bytes (bblock c sb)) (c % bpb) i
        ∙ ap (λ (b : Bool). g b (at old)) t
        ∙ ap (λ (b : ℕ). g (j == c) (at (d b))) e
    | no ne ↦
        let t : (j == c) ≡ false = ground arith in
        ap (λ (m : Memory). bit_at m (j % bpb)) (update_ne d (bblock c sb) (bblock j sb) _ ne)
        ∙ sym (ap (λ (b : Bool). g b (used sb d j)) t ∙ stays (used sb d j))
  ]

  rewritten-ne : (b : ℕ) → b ≢ bblock c sb → rewritten sb d c f b ≡ d b
  rewritten-ne b ne = update_ne d (bblock c sb) b _ (λ e. ne (sym e))

module _ (sb : Super) (d : Disk) (v : IsBitmap sb d) (c : ℕ) (lt : c < sb.size) where
  pub used-with_bit : (j : ℕ) → used sb (rewritten sb d c with_bit) j ≡ (j == c || used sb d j)
  used-with_bit =
      used-rewritten sb d v c with_bit (λ x y. x || y)
        (λ mem bytes bi j. bit_at-with_bit mem bytes bi j) (λ x. refl)

  pub used-without_bit :
      (j : ℕ) → used sb (rewritten sb d c without_bit) j ≡ (not (j == c) && used sb d j)
  used-without_bit =
      used-rewritten sb d v c without_bit (λ x y. not x && y)
        (λ mem bytes bi j. bit_at-without_bit mem bytes bi j) (λ x. refl)

  pub AreBytes-rewritten :
      (f : ℕ → ℕ → ℕ)
      → ((mem : Memory)
          → AreBytes mem
          → (bi : ℕ) → AreBytes (update mem (bi / 8) (f (mem (bi / 8)) (bi % 8))))
      → (b : ℕ) → AreBytes (rewritten sb d c f b)
  AreBytes-rewritten f law b = elim (ℕ_discrete (bblock c sb) b) [
    | yes e ↦
        rw (← e, update_self d (bblock c sb))
          (law (d (bblock c sb)) (v.bytes (bblock c sb)) (c % bpb))
    | no ne ↦ rw (update_ne d (bblock c sb) b _ ne) (v.bytes b)
  ]
