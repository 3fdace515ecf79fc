-- ===== src/Folders/Entries.antt =====
-- fs.c: `dirlookup` against the entries of the directory.
use cse3320_proj1_ahmed_bahb.Common.{
  ℕ, zero, suc, ◌+◌, ◌-◌, ◌*◌, ◌/◌, ◌<◌, ◌≤◌, ◌≡◌, ◌≢◌, refl, ◌∙◌, inl, inr, Option, some, List,
  min, arith,
}
use cse3320_proj1_ahmed_bahb.Common.Outcome.{ok}
use cse3320_proj1_ahmed_bahb.Strings.{Memory}
use cse3320_proj1_ahmed_bahb.Strings.Compare.{c_prefix}
use cse3320_proj1_ahmed_bahb.Bitmap.{Super, block_size}
use cse3320_proj1_ahmed_bahb.Dinode.{load16}
use cse3320_proj1_ahmed_bahb.Content.{Node, Device, readi, max_bytes}
use cse3320_proj1_ahmed_bahb.Content.Places.{place, place_of, IsFile}
use cse3320_proj1_ahmed_bahb.Content.Bytes.{content, place_of-lt, place_of-ne}
use cse3320_proj1_ahmed_bahb.Content.Files.{readi_lem}
use cse3320_proj1_ahmed_bahb.Paths.{dirsiz}
use cse3320_proj1_ahmed_bahb.Folders.{dirent_size, t_dir}

-- A directory in order: whole entries, and a block for each of them.
pub record IsFolder (sb : Super) (s : Node) (m : ℕ) : Type 0 where
  pub file : IsFile sb s
  pub type : s.fields.type ≡ t_dir
  pub size : s.fields.size ≡ dirent_size * m
  pub fits : dirent_size * m ≤ max_bytes
  pub dense : (x : ℕ) → x < dirent_size * m → place s (place_of (x / block_size)) ≢ 0

-- The entry at an offset: its inode number, and its name up to a NUL.
abbrev pub inum_at : Node → ℕ → ℕ
inum_at s off = load16 (content s) off

abbrev pub name_at : Node → ℕ → List ℕ
name_at s off = c_prefix dirsiz (content s) (off + 2)

abbrev pub Matches : Node → List ℕ → ℕ → Type 0
Matches s nm off = (inum_at s off ≢ 0) × (name_at s off ≡ nm)

-- The files have the same bytes.
abbrev pub Kept : Node → Node → Type 0
Kept s t = (x : ℕ) → x < max_bytes → content t x ≡ content s x

pub c_prefix-agree :
    (n : ℕ) (m m' : Memory) (p q : ℕ)
    → ((i : ℕ) → i < n → m (p + i) ≡ m' (q + i))
    → c_prefix n m p ≡ c_prefix n m' q
c_prefix-agree zero m m' p q h = refl
c_prefix-agree (suc n) m m' p q h =
    let here : m p ≡ m' q = let z = h 0 (omega arith) in ground (arith) in
    let rest = c_prefix-agree n m m' (p + 1) (q + 1) (λ i hi.
      let a : p + 1 + i ≡ p + (i + 1) = omega arith in
      let b : q + 1 + i ≡ q + (i + 1) = omega arith in rw (a, b) (h (i + 1) (omega arith))) in
    rw (here, rest) refl

module _ (devsw : ℕ → Option Device) (sb : Super) where
  -- What one `readi` of an entry does.
  pub read_entry :
      (s : Node) (m : ℕ) (v : IsFolder sb s m) (mem : Memory) (k : ℕ)
      → k < m
      → (got : Memory) × (t : Node) × (readi devsw sb s mem 0 (dirent_size * k) dirent_size
          ≡ ok (some (dirent_size, got), t))
        × ((i : ℕ) → i < dirent_size → got i ≡ content s (dirent_size * k + i))
        × ((i : ℕ) → dirent_size ≤ i → got i ≡ mem i)
        × Kept s t
        × IsFolder sb t m
  read_entry s m v mem k h =
      let size = v.size in
      let fits = v.fits in
      let all : min dirent_size (s.fields.size - dirent_size * k) ≡ dirent_size =
        rw (size) (ground arith) in
      let type = v.type in
      elim (readi_lem devsw sb s v.file (λ e. ground arith) (omega arith) mem 0 (dirent_size * k)
        dirent_size (omega arith) (omega arith)) [
          | inl (inl past, e) ↦ absurd (omega arith)
          | inl (inr wraps, e) ↦ absurd (omega arith)
          | inr (inl (got, t, lo, e, f)) ↦
              let same_size = f.fields.0 in
              (
                got,
                t,
                rw (all) at e,
                λ i hi.
                    let b = f.memory i in
                    let z : i - 0 ≡ i = omega arith in let c = rw (all, z) at b in ground arith,
                λ i hi. let b = f.memory i in let c = rw (all) at b in ground arith,
                f.bytes,
                record {
                  file = f.file;
                  type = f.fields.1 ∙ v.type;
                  size = f.fields.0 ∙ v.size;
                  fits = v.fits;
                  dense = λ x hx.
                      f.keeps (place_of (x / block_size))
                        (place_of-lt (x / block_size) (omega arith)) (place_of-ne (x / block_size))
                        (v.dense x hx);
                },
              )
          | inr (inr (e, (x, lo, hi, z))) ↦ absurd (v.dense x (omega arith) z)
        ]
