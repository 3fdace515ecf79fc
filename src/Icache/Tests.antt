-- ===== src/Icache/Tests.antt =====
-- fs.c: a cache with one inode in use, and the theorems at inputs that meet their hypotheses.
use cse3320_proj1_ahmed_bahb.Common.{
  ℕ, zero, suc, ◌<◌, ◌≡◌, ◌≢◌, refl, sym, ◌∙◌, ◌⊎◌, true, false, ◌==◌, some, none, if◌then◌else◌,
  arith,
}
use cse3320_proj1_ahmed_bahb.Common.Outcome.{ok, panic}
use cse3320_proj1_ahmed_bahb.Dinode.{blank, dinode_at, read_dinode}
use cse3320_proj1_ahmed_bahb.Dinode.Layout.{IsDinode}
use cse3320_proj1_ahmed_bahb.Icache.{
  Inode, Fs, ninode, set_inode, iget, iget_scan, ilock, iput, drop_ref,
}
use cse3320_proj1_ahmed_bahb.Icache.Get.{IsCache, Gained, iget-Gained}
use cse3320_proj1_ahmed_bahb.Icache.Put.{Dropped, is_last, erased, iput-Dropped}
use cse3320_proj1_ahmed_bahb.Icache.Held.{IsSynced}

abbrev no_inode : Inode
no_inode = record { dev = 0; inum = 0; ref = 0; busy = false; valid = false; fields = blank 1 }

-- Entry 0 stands for inode 5 of device 1. All bytes of the disk are 1.
abbrev cached : Fs
cached = record {
  sb = record {
    size = 10;
    nblocks = 7;
    ninodes = 8;
    nlog = 0;
    logstart = 2;
    inodestart = 1;
    bmapstart = 2;
    reads = λ b. true;
    logs = λ b. true;
  };
  disk = λ b a. 1;
  inodes = λ i. if i == 0 then record no_inode { dev = 1; inum = 5; ref = 2 } else no_inode;
}

cached-IsCache : IsCache cached
cached-IsCache i j hi hj ui uj ed ei = ground arith

cached-IsSynced : IsSynced cached
cached-IsSynced j b v = ground arith

hit : iget_scan ninode cached.inodes 0 1 5 none ≡ (some 0, none)
unfolding iget_scan
hit = refl

miss : iget_scan ninode cached.inodes 0 1 6 none ≡ (none, some 1)
unfolding iget_scan
miss = refl

iget-Gained_example :
    ((i : ℕ) × (e : Fs) × (iget cached 1 6 ≡ ok (i, e)) × Gained cached 1 6 i e)
    ⊎ ((iget cached 1 6 ≡ panic) × ((j : ℕ) → j < ninode → (cached.inodes j).ref ≢ 0))
iget-Gained_example = iget-Gained cached 1 6 cached-IsCache

blank-IsDinode : IsDinode (blank 1)
blank-IsDinode = record {
  type = omega arith;
  major = omega arith;
  minor = omega arith;
  nlink = omega arith;
  size = omega arith;
  count = refl;
  addrs = omega arith;
}

iput_cached : iput cached 0 ≡ ok (drop_ref cached 0)
unfolding iput
iput_cached = refl

iput-Dropped_example :
    Dropped cached 0 (drop_ref cached 0)
    × (is_last (cached.inodes 0) ≡ true
        → dinode_at cached.sb cached.disk 5 ≡ erased (cached.inodes 0).fields)
    × (is_last (cached.inodes 0) ≡ false → cached.disk ≡ cached.disk)
iput-Dropped_example =
    iput-Dropped cached 0 cached-IsCache (omega arith) (omega arith) blank-IsDinode iput_cached

abbrev locked : Fs
locked = set_inode cached 0 (record (cached.inodes 0) {
  busy = true;
  valid = true;
  fields = dinode_at cached.sb cached.disk 5;
})

ilock_cached : ilock cached (some 0) ≡ ok (some locked)
unfolding ilock dinode_at read_dinode
ilock_cached = refl

locked-IsSynced : IsSynced locked
locked-IsSynced zero b v = cc
locked-IsSynced (suc j) b v =
    let off : (locked.inodes (suc j)).valid ≡ false = ground arith in cc (sym off ∙ v)
