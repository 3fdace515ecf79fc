-- ===== src/Descriptors/Tests.antt =====
-- file.c and sysfile.c: a table with one open file, and the theorems at inputs that meet their hypotheses.
use cse3320_proj1_ahmed_bahb.Common.{◌*◌, ◌≤◌, ◌≡◌, arith}
use cse3320_proj1_ahmed_bahb.Procs.{nproc}
use cse3320_proj1_ahmed_bahb.Args.{User}
use cse3320_proj1_ahmed_bahb.Descriptors.{nofile}
use cse3320_proj1_ahmed_bahb.Descriptors.Count.{refs}
use cse3320_proj1_ahmed_bahb.Descriptors.Samples.{one_open, one_open-Reachable}
use cse3320_proj1_ahmed_bahb.Descriptors.Sessions.{ref_bounded}

-- All arguments of the call are 0.
abbrev user : User
user = record { sz = 100; mem = λ a. 0; esp = 0 }

ref_bounded_example :
    ((one_open.file 0).ref ≡ refs one_open 0) × ((one_open.file 0).ref ≤ nproc * nofile)
ref_bounded_example = ref_bounded one_open 0 one_open-Reachable (omega arith)
