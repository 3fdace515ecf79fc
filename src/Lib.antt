-- ===== src/Lib.antt =====
-- The kernel of the repository (xv6, in C): models of its page allocator, its file-system log, its
-- pipes, its memory and string functions, its process table, its spin locks, the arguments of system calls,
-- the blocks, inodes and contents of its file system, its open files, the buffer cache, the console, and of grep, the
-- shell xvsh and the user library's numbers, with what makes each of them correct.
--
-- The parts, and how they are used:
-- * Kmem models kalloc.c. `Kmem.Kmem` is `kmem` with the words of memory, `kfree`, `kalloc`,
--   `freerange`, `kinit1` and `kinit2` are the functions of those names, `free_pages` is the loop of
--   `freerange`, with PHYSTOP and KERNBASE of memlayout.h and PGROUNDUP of mmu.h. The address `end`
--   comes from the linker and is an argument. The loop has `vend` rounds of fuel; each round adds a
--   page to `p`, which starts below `vend`, so that the fuel does not run out (Kmem/Range).
-- * Log models log.c. `Log.Log` is `struct log` with the disk and the contents that the buffer cache
--   (bio.c, ide.c) returns for each block. What a block's buffer was given last is what `bread`
--   returns: bio.c keeps a buffer that is B_DIRTY, which is the case between `log_write` and
--   `bwrite`, and reads any other from the disk. The disk stops writing after `left` more blocks, at
--   any point that a theorem chooses; a write of one block is taken to be atomic. The loops over the
--   header are recursions on its entries. `begin_op` is one round of its loop, and `end_op` is cut
--   into its two locked parts with the commit between them.
-- * Pipe models pipe.c: `pipewrite` and `piperead` as runs up to the next `sleep` or `return`, the
--   counters as 32-bit numbers that wrap. Their `sleep`, `wakeup` and `killed` are those of proc.c.
-- * Strings models string.c over a memory of bytes, with `stosb` and `stosl` of x86.h. Its functions
--   have the source's names; `strlen` gets fuel, and any fuel above the length is enough.
-- * Procs models proc.c: `Procs.Table` is `ptable` with `nextpid` and `initproc`; `allocproc`, `fork`,
--   `exit`, `wait`, `sleep` (cut in two at its jump into the scheduler: `sleep` and `wake`), `wakeup`,
--   `kill`, `yield` and the scheduler's choice of a process are functions on it, and `Step`
--   (Procs/Steps) lets them happen in any order, with a `fork` only while `nextpid`, an int that wraps, is below
--   2 ^ 31 - 1. Their loops run over the NPROC entries. `fork` is one
--   step, so that no other step sees its entry as EMBRYO.
-- * Args models the functions of syscall.c that read the arguments of a system call, with the fields of
--   `proc` that they use as `Args.User`. `scan` is the loop of `fetchstr`, with as many rounds as there
--   are bytes below the end of the process.
-- * Locks models spinlock.c. `acquire` is cut into `enter`, `spin` and `sign`, `release` into `leave` and
--   `free`, at each access to the lock, and a `spin` may fail any number of times: that a processor gets
--   the lock in the end is not claimed. `pushcli` and `popcli` act on `Locks.Cpu`.
-- * Bitmap, Dinode and Icache model the lower half of fs.c. `Bitmap.Super` is `struct superblock` and a
--   disk is the contents of its blocks, byte by byte. Bitmap has `balloc`, `bfree` and `bzero`, its outer
--   loop with a round of fuel for each block; Dinode the layout of `struct dinode` with `iupdate` and
--   `ialloc`; Icache the inode cache: `iget`, `idup`, `ilock`, `iunlock`, `iput` with `itrunc`.
-- * Content models the contents of files of fs.c: `bmap`, `readi`, `writei` and `stati`. `Content.Node` is an
--   inode that the caller has locked, with the disk. Content/Places reads the direct block numbers and those
--   in the indirect block as one table, and Content/Bytes a file as bytes. The loops have a round of fuel for
--   each byte; each round copies a byte at least (Content/Write, Content/Read). Content/Extend has the end of
--   `writei`. The functions of `devsw` are an argument.
-- * In `balloc`, `bmap`, `readi` and `writei`, whether a call of `bread` or `log_write` for a block returns or
--   panics is given by `Bitmap.Super.reads` and `Bitmap.Super.logs`, since bio.c and log.c are not run under
--   them: `bread` panics if all buffers are busy or dirty (Buffers/Reads), and `log_write` outside of a
--   transaction or when the log is full (Log/Quota). `Bitmap.Returns` says that none of these calls panics;
--   a file in order (`Content.Places.IsFile`) includes it. The other functions of fs.c take the calls to return.
-- * Descriptors models the table of open files of file.c and the descriptors of sysfile.c: `Descriptors.Ftable`
--   is `ftable` with the `ofile` of each process. `filealloc`, `filedup`, `fileclose`, `argfd`, `fdalloc`, `sys_dup`
--   and `sys_close` are the functions of those names, `open_inode` the end of `sys_open`, `copy_fds` and
--   `close_fds` the loops of `fork` and `exit`; Descriptors/Sessions lets them happen in any order.
-- * Folders models `namecmp` and `dirlookup` of fs.c over `readi` of Content and `iget` of Icache. Its loop has a
--   round of fuel for each entry and one more (Folders/Rounds).
-- * Paths models `skipelem` of fs.c, with one function for each of its loops.
-- * Grep models the matcher and the loop of grep.c. Strings are lists of bytes up to the NUL; the chunks
--   that `read` returns are an argument, and a NUL in one ends the search for lines in the buffer.
-- * Numerals models `printint` of printf.c and `atoi` of ulib.c. The buffer of `printint` is the fuel of its
--   loop: a number that did not fit would give `none` (Numerals/RoundTrip).
-- * Xvsh models xvsh.c: `strtok_custom` over the memory that holds the line, `process_one_cmd` with the functions
--   it calls up to `fork` and `exec`, and (Xvsh/Run) the calls of `dup` and `close` that the children make, on
--   the table of Descriptors. A line ends in a buffer of MAXLINE bytes, so that MAXLINE rounds of fuel are
--   enough for each loop over it (Xvsh/Cut, Xvsh/Tokens).
-- * Buffers models bio.c, with the disk in memory of memide.c: `Buffers.Bcache` is `bcache` with that disk, a
--   buffer is its number, and `next` and `prev` are the links. `bget`, `bread`, `bwrite`, `brelse` and `binit` are
--   the functions of those names; `bget` runs up to `sleep` or `return`. Its two loops have NBUF + 1 rounds
--   of fuel, which a list of NBUF buffers does not use up (Buffers/Search).
-- * Console models the line editor of console.c: `Console.Input` is `input` with what `consputc` has been given,
--   `key` is a round of the loop of `consoleintr`, and `consoleread` runs up to its `sleep` or `return`. The loop of ^U
--   has INPUT_BUF rounds of fuel, and a line is no longer (Console/Keys).
-- * Common has the lists, maps and results that these share. In all models a call of `panic` is the
--   result `panic`, after which nothing runs.
--
-- Locks is not used inside the other parts: there, what runs under one lock is one step.
-- Not modelled: the other device drivers, boot code, assembly, `dirlink` and
-- the walk along a path, the trap frames, contexts and stacks of processes, virtual memory, the
-- other system calls, the shell sh.c and the other user programs.
pub mod Common
pub mod Kmem
pub mod Log
pub mod Pipe
pub mod Strings
pub mod Procs
pub mod Args
pub mod Locks
pub mod Bitmap
pub mod Dinode
pub mod Icache
pub mod Content
pub mod Descriptors
pub mod Paths
pub mod Grep
pub mod Numerals
pub mod Xvsh
pub mod Buffers
pub mod Console
pub mod Folders
