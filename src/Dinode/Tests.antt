-- ===== src/Dinode/Tests.antt =====
-- fs.c: inodes on an empty disk, and the theorems at inputs that meet their hypotheses.
use cse3320_proj1_ahmed_bahb.Common.{true, ◌≡◌, refl, [], ◌∷◌, arith}
use cse3320_proj1_ahmed_bahb.Bitmap.{Super, Disk}
use cse3320_proj1_ahmed_bahb.Dinode.{Dinode, write_dinode}
use cse3320_proj1_ahmed_bahb.Dinode.Layout.{IsDinode}

abbrev small : Super
small = record {
  size = 10;
  nblocks = 7;
  ninodes = 16;
  nlog = 0;
  logstart = 2;
  inodestart = 1;
  bmapstart = 3;
  reads = λ b. true;
  logs = λ b. true;
}

abbrev empty : Disk
empty b a = 0

abbrev directory : Dinode
directory = record {
  type = 1;
  major = 0;
  minor = 0;
  nlink = 2;
  size = 70000;
  addrs = 5 ∷ 6 ∷ 0 ∷ 0 ∷ 0 ∷ 0 ∷ 0 ∷ 0 ∷ 0 ∷ 0 ∷ 0 ∷ 0 ∷ 0 ∷ [];
}

directory-IsDinode : IsDinode directory
directory-IsDinode = record {
  type = omega arith;
  major = omega arith;
  minor = omega arith;
  nlink = omega arith;
  size = omega arith;
  count = refl;
  addrs = omega arith;
}

size_bytes : write_dinode (empty 1) 64 directory 74 ≡ 1
unfolding write_dinode
size_bytes = refl
