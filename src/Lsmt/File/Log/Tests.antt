-- ===== src/Lsmt/File/Log/Tests.antt =====
-- A file of lsmt that is written, punched, closed and opened again at concrete inputs.
use cora.Base.{ℕ, ◌≡◌, refl, [], true, some, arith}
use cora.Lsmt.Layout.{Chain, find, total}
use cora.Lsmt.Index0.{Index0, empty}
use cora.Lsmt.Create.Checked.{latest}
use cora.Lsmt.File.Write.{Device, Disk, pwrite_once, fallocate_once, do_group_commit_mappings}
use cora.Lsmt.File.Log.{open_index, load_index}
use cora.Lsmt.File.Log.Recovery.{TakesRecords}
use cora.Lsmt.File.Log.Reopened.{Recorded, Reach, here, wrote, punched, open_index-Reach}

abbrev disk : Disk
disk = record { taken = λ size count. count; taken_records = λ n m. m }

takes : TakesRecords disk
takes n m = refl

-- A new file with its header, and room for three stacked mappings.
abbrev fresh : Device ℕ
fresh = record {
  data_bytes = λ a. 0;
  data_size = 4096;
  index = empty;
  vsize = 8192;
  data_offset = 8;
  rw_tag = 0;
  has_findex = true;
  capacity = 3;
  stacked = [];
  records = [];
}

fresh-Recorded : Recorded disk takes fresh
unfolding Chain total find load_index latest
fresh-Recorded = record {
  room = (refl, λ e. refl, λ e. omega arith);
  first_tag = refl;
  whole = refl;
  header = omega arith;
  small = omega arith;
  holds = (omega arith, refl);
  all_fit = tt;
  within = tt;
  same = λ x. refl;
}

abbrev sevens : ℕ → ℕ
sevens i = 7

-- Two blocks written from the second on, and the third punched.
abbrev worked : Device ℕ
worked =
    (fallocate_once disk (pwrite_once disk fresh sevens 1024 512).state true true 1024 512).state

worked-Reach : Reach disk takes fresh worked
worked-Reach =
    punched (pwrite_once disk fresh sevens 1024 512).state 512 1024
      (wrote fresh sevens 1024 512 here (record {
        full = refl;
        whole = refl;
        aligned = refl;
        some_bytes = omega arith;
        once = omega arith;
        fits = omega arith;
        room = omega arith;
      }))
      (record { whole = refl; aligned = refl; once = omega arith; fits = omega arith })

-- The log is played back after the last commit.
open_index-Reach_example :
    (do_group_commit_mappings disk worked).success ≡ true
    × ((i : Index0) × (open_index (do_group_commit_mappings disk worked).state ≡ some i)
        × ((x : ℕ) → find i.mapping x ≡ find worked.index.mapping x))
open_index-Reach_example = open_index-Reach disk takes fresh-Recorded worked-Reach
