-- ===== src/SecureFile/Tests.antt =====
-- The theorems on the private file writer at a directory with one file and calls that fail.
use stdiod.Base.{String, Option, ◌≡◌, none, some, [], refl, if◌then◌else◌, eqb, ◌==◌}
use stdiod.SecureFile.{
  Disk, Os, already_exists, other_error, write_private, replace_unix, replace_windows,
}
use stdiod.EnvStore.{WriteFault}
use stdiod.SecureFile.Faults.{left_by, IsReported, write_private-fault}
use stdiod.SecureFile.Atomic.{IsAtomic, write_private-IsAtomic}
use stdiod.SecureFile.Backup.{IsCovered, write_private-IsCovered}

abbrev file_name : String
file_name = "config.toml"

abbrev before : Disk
before = record {
  files = λ p. if p == file_name then some "old" else none;
  past = [];
  next_temp_id = 0;
  calls = 0;
}

-- The fourth call, the first rename, finds a file in the way, and the sixth call fails too.
abbrev os : Os
os = record {
  fault = λ n. if eqb n 4 then some already_exists else if eqb n 6 then some other_error else none;
  torn = λ n. "o";
  process_id = 7;
}

write_private-IsAtomic_example :
    IsAtomic file_name "new" before (write_private os (replace_unix os) file_name "new" before)
write_private-IsAtomic_example = write_private-IsAtomic os file_name "new" before refl

write_private-IsCovered_example :
    IsCovered file_name "old" "new" (write_private os (replace_windows os) file_name "new" before)
write_private-IsCovered_example = write_private-IsCovered os file_name "old" "new" before refl refl

-- The roll-back fails too.
abbrev two_faults : Os
two_faults = record os {
  fault = λ n.
      if eqb n 4
      then some already_exists
      else if eqb n 6
      then some other_error
      else if eqb n 7
      then some other_error
      else none;
}

write_private-fault_example :
    let r = write_private two_faults (replace_windows two_faults) file_name "new" before in
    (fault : Option WriteFault) × IsReported fault r.0
    × (r.1.files file_name ≡ left_by fault (some "old") "new")
write_private-fault_example = write_private-fault two_faults file_name "new" before refl
