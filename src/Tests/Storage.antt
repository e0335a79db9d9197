-- ===== src/Tests/Storage.antt =====
-- The theorems on the files of the virtual disk, and on the programs that are loaded from there, at
-- concrete inputs.
use project_lucario.Base.{◌+◌, ◌≤◌, ◌≡◌, refl, arith, List, [], ◌∷◌}
use project_lucario.Base.Int.{pos}
use project_lucario.Machine.{Text}
use project_lucario.Vfs.{Vfs, vfs_load_to_disk, vfs_file_exists, linear, Host, vfs_clear_catalog}
use project_lucario.Vfs.Catalog.{entry}
use project_lucario.Vfs.Layout.{IsLaidOut}
use project_lucario.Vfs.Keeping.{vfs_load_to_disk-IsLaidOut}
use project_lucario.Vfs.Storage.{scanned}
use project_lucario.Core.{create_process, get_free_pcb_index, free_pcb_from, init_os}
use project_lucario.Scheduler.{each_process}
use project_lucario.Kernel.Owners.{first_cell}
use project_lucario.Kernel.Programs.{create_process-holds}
use project_lucario.Tests.{user_machine}
use project_lucario.Vfs.Store.{load_all, store_load_all}
use project_lucario.Vfs.Refinement.{all_seen, load_all-refines}
use project_lucario.Console.Reports.{disk_report}
use project_lucario.Console.Marks.{or_else, file_at, words_in}
use project_lucario.Console.DiskMap.{disk_report-shows}
use project_lucario.Tests.System.{one_host, one_program, booted, creation-success}

create_process-holds_example :
    (create_process one_host (b'p' ∷ []) booted).1.machine.ram
      (first_cell ((create_process one_host (b'p' ∷ []) booted).1.machine.table 0) + 1)
    ≡ scanned one_host 1 one_program.lines
unfolding get_free_pcb_index free_pcb_from init_os each_process vfs_file_exists
create_process-holds_example =
    create_process-holds one_host (b'p' ∷ []) one_program 0 1 booted refl refl refl (omega arith)
      (record { cylinder = omega arith; sector = omega arith }) (omega arith) creation-success

-- The disk holds one file of three words, in the last sectors of the first cylinder and the next one.
abbrev one_file : Vfs
one_file = record {
  catalog =
      entry (b'q' ∷ []) (b'q' ∷ []) (record { track = 0; cylinder = 0; sector = 98 }) (pos 3)
        (pos 1)
      ∷ [];
  free_place = record { track = 0; cylinder = 1; sector = 1 };
}

one_file-IsLaidOut : IsLaidOut one_file
unfolding linear
one_file-IsLaidOut = record {
  free = record { cylinder = omega arith; sector = omega arith };
  within_disk = omega arith;
  files = (omega arith, record { cylinder = omega arith; sector = omega arith }, omega arith);
}

vfs_load_to_disk-IsLaidOut_example :
    IsLaidOut (vfs_load_to_disk one_host (b'p' ∷ []) one_file user_machine.disk).1
vfs_load_to_disk-IsLaidOut_example =
    vfs_load_to_disk-IsLaidOut one_host (b'p' ∷ []) one_file user_machine.disk one_file-IsLaidOut

-- Two loads of a host's program, under its name and under another path.
abbrev two_loads : List (Host × Text)
two_loads = (one_host, b'p' ∷ []) ∷ (one_host, b'q' ∷ []) ∷ []

load_all-refines_example :
    all_seen (load_all two_loads (vfs_clear_catalog one_file) user_machine.disk)
    ≡ store_load_all two_loads (record { programs = []; used = 0 })
load_all-refines_example = load_all-refines two_loads one_file user_machine.disk

disk_report-shows_example :
    ((disk_report one_file).display 0 1 0
      ≡ or_else (file_at 0 one_file.catalog 100) (file_at 0 one_file.catalog 101))
    × ((disk_report one_file).occupied_sectors ≡ words_in one_file.catalog)
    × ((disk_report one_file).usage_percent ≤ 100)
disk_report-shows_example =
    disk_report-shows one_file 0 1 0 one_file-IsLaidOut (omega arith) (omega arith)
