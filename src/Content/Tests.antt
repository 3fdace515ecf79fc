-- ===== src/Content/Tests.antt =====
-- fs.c: a file of 100 bytes on a disk of ten blocks, and the theorems at inputs that meet their hypotheses.
use cse3320_proj1_ahmed_bahb.Common.{
  ℕ, ◌+◌, ◌-◌, if◌then◌else◌, ◌%◌, ◌^◌, ◌<◌, ◌≤◌, ◌≡◌, refl, ◌⊎◌, true, Option, none, some, arith,
}
use cse3320_proj1_ahmed_bahb.Common.Outcome.{ok, panic}
use cse3320_proj1_ahmed_bahb.Strings.{Memory}
use cse3320_proj1_ahmed_bahb.Content.{Node, Device, device, max_bytes, piece, readi, writei, stati}
use cse3320_proj1_ahmed_bahb.Content.Places.{IsFile, IsApart}
use cse3320_proj1_ahmed_bahb.Content.Samples.{small_disk, sample, place-sample, sample-IsFile}
use cse3320_proj1_ahmed_bahb.Content.Write.{IsSparse}
use cse3320_proj1_ahmed_bahb.Content.Read.{Fetched}
use cse3320_proj1_ahmed_bahb.Content.Files.{readi_lem}
use cse3320_proj1_ahmed_bahb.Content.Extend.{writei_lem}
use cse3320_proj1_ahmed_bahb.Content.Bytes.{content}
use cse3320_proj1_ahmed_bahb.Strings.Move.{within}
use cse3320_proj1_ahmed_bahb.Bitmap.{bit}
use cse3320_proj1_ahmed_bahb.Content.RoundTrip.{readi-writei}

abbrev file : Node
file = sample 2 100 (λ a. 7)

file-IsFile : IsFile small_disk file
file-IsFile = sample-IsFile 2 100 (λ a. 7) (λ a. omega arith)

abbrev source : Memory
source a = a % 256

abbrev no_devices : ℕ → Option Device
no_devices major = none

whole_block : piece 0 1000 ≡ 512
whole_block = refl

rest_of_block : piece 500 1000 ≡ 12
rest_of_block = refl

missing_device : device no_devices 1 source 0 5 ≡ none
missing_device = refl

stat_size :
    (stati
      (record { dev = 1; inum = 7; ref = 1; busy = true; valid = true; fields = file.fields })).size
    ≡ 100
unfolding stati
stat_size = refl

readi_example :
    (((100 < 90) ⊎ (2 ^ 32 ≤ 110))
      × (readi no_devices small_disk file source 0 90 20 ≡ ok (none, file)))
    ⊎ ((m : Memory) × (t : Node) × (90 ≤ 100)
        × (readi no_devices small_disk file source 0 90 20 ≡ ok (some (10, m), t))
        × Fetched small_disk file source 0 90 10 m t)
    ⊎ ((readi no_devices small_disk file source 0 90 20 ≡ panic) × IsSparse file 90 20)
readi_example =
    readi_lem no_devices small_disk file file-IsFile (omega arith) (omega arith) source 0 90 20
      (omega arith) (omega arith)

inode-IsApart : IsApart small_disk file 1
unfolding bit
inode-IsApart = (omega arith, refl, λ p h e. let at = place-sample 2 100 (λ a. 7) p in ground arith)

writei_example :
    (((100 < 90) ⊎ (max_bytes < 690))
      × (writei no_devices small_disk 5 file source 0 90 600 ≡ ok (none, file)))
    ⊎ ((u : Node) × (90 ≤ 100)
        × (690 ≤ max_bytes)
        × (writei no_devices small_disk 5 file source 0 90 600 ≡ ok (some 600, u))
        × ((x : ℕ)
            → x < max_bytes
            → content u x ≡ (if within x 90 600 then source (0 + (x - 90)) else content file x))
        × (u.fields.size ≡ 690)
        × (u.fields.type ≡ 2))
    ⊎ ((writei no_devices small_disk 5 file source 0 90 600 ≡ panic) × IsSparse file 90 600)
writei_example =
    writei_lem no_devices small_disk file file-IsFile (omega arith) (omega arith) 5 source
      (λ a. omega arith) 0 90 600 (omega arith) (omega arith) inode-IsApart

readi-writei_example :
    ((t : Node) × (writei no_devices small_disk 5 file source 0 10 20 ≡ ok (some 20, t))
      × ((m : Memory) × (u : Node) × (readi no_devices small_disk t source 50 10 20
            ≡ ok (some (20, m), u))
          × ((j : ℕ) → j < 20 → m (50 + j) ≡ source (0 + j))))
    ⊎ ((writei no_devices small_disk 5 file source 0 10 20 ≡ panic) × IsSparse file 10 20)
readi-writei_example =
    readi-writei no_devices small_disk file file-IsFile (omega arith) (omega arith) 5 source
      (λ a. omega arith) 0 10 20 (omega arith) source 50
