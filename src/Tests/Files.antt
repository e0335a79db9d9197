-- ===== src/Tests/Files.antt =====
-- The theorems on the file system and the creation of processes at concrete inputs.
use project_lucario.Base.{ℕ, zero, suc, ◌+◌, ◌≡◌, ◌≢◌, refl, arith, none, some, List, [], ◌∷◌}
use project_lucario.Base.Int.{◌+ℤ◌, add32, pos, ◌-ℤ◌, tdiv}
use project_lucario.Machine.{mode_user, max_processes, os_success, os_err_disk, os_reserved_size}
use project_lucario.Memory.{write_memory}
use project_lucario.Vfs.{
  FileMeta, Host, HostFile, Vfs, Place, vfs_file_exists, load_file, read_program_word,
  vfs_load_to_disk, linear,
}
use project_lucario.Vfs.Catalog.{entry}
use project_lucario.Vfs.Layout.{IsLaidOut, LieBetween}
use project_lucario.Vfs.Leak.{HasLeaked, load_file_leaks}
use project_lucario.Core.{System, create_process, get_free_pcb_index, free_pcb_from, ensure_loaded}
use project_lucario.Core.Failure.{create_process_fails}
use project_lucario.Vfs.Program.{load_program, load_success, load_opened, write_program}
use project_lucario.Vfs.Startup.{load_program_lem}
use project_lucario.Vfs.Storage.{scanned}
use project_lucario.Tests.{user_machine}

abbrev start : Place
start = record { track = 0; cylinder = 0; sector = 0 }

-- A host with one program of two words, under the path "p".
abbrev two_words : HostFile
two_words = record {
  start_pc = pos 1;
  word_count = pos 2;
  program_name = 112 ∷ [];
  lines = [] ∷ [] ∷ [];
}

abbrev small_host : Host
small_host = record { open_file = λ _. some two_words; scan_int = λ _. some (pos 4) }

program-loads : (load_program small_host (112 ∷ []) user_machine).0.status ≡ load_success
unfolding load_program load_opened write_program write_memory add32 tdiv ◌+ℤ◌ read_program_word
program-loads = refl

load_program_lem_example :
    ((load_program small_host (112 ∷ []) user_machine).1.ram (os_reserved_size + 1)
      ≡ scanned small_host 1 two_words.lines)
    × ((load_program small_host (112 ∷ []) user_machine).1.cpu.psw.mode ≡ mode_user)
load_program_lem_example =
    load_program_lem small_host (112 ∷ []) two_words 1 user_machine refl program-loads (omega arith)

abbrev empty_vfs : Vfs
empty_vfs = record { catalog = []; free_place = start }

abbrev copies : ℕ → FileMeta → List FileMeta
copies zero f = []
copies (suc n) f = f ∷ copies n f

abbrev full_vfs : Vfs
full_vfs = record {
  catalog = copies max_processes (entry [] [] start (pos 0) (pos 1));
  free_place = start;
}

copies-LieBetween : (n : ℕ) → LieBetween 0 (copies n (entry [] [] start (pos 0) (pos 1))) 0
unfolding linear
copies-LieBetween zero = omega arith
copies-LieBetween (suc n) =
    (omega arith, record { cylinder = omega arith; sector = omega arith }, copies-LieBetween n)

full_vfs-IsLaidOut : IsLaidOut full_vfs
unfolding linear
full_vfs-IsLaidOut = record {
  free = record { cylinder = omega arith; sector = omega arith };
  within_disk = omega arith;
  files = copies-LieBetween max_processes;
}

load_file_leaks_example :
    HasLeaked small_host two_words full_vfs user_machine.disk
      (load_file small_host (112 ∷ []) two_words full_vfs user_machine.disk)
unfolding linear ◌-ℤ◌
load_file_leaks_example =
    load_file_leaks small_host (112 ∷ []) two_words full_vfs user_machine.disk full_vfs-IsLaidOut
      (omega arith) (ground arith)

-- No program has that name.
abbrev empty_host : Host
empty_host = record { open_file = λ _. none; scan_int = λ _. none }

abbrev system : System
system = record { machine = user_machine; vfs = empty_vfs }

creation-status : (create_process empty_host (112 ∷ []) system).0 ≡ os_err_disk
unfolding create_process get_free_pcb_index free_pcb_from ensure_loaded vfs_file_exists
    vfs_load_to_disk
creation-status = refl

creation-fails : (create_process empty_host (112 ∷ []) system).0 ≢ os_success
creation-fails = rw creation-status (ground arith)

create_process_fails_example :
    (create_process empty_host (112 ∷ []) system).1.machine
    ≡ record user_machine { disk = (create_process empty_host (112 ∷ []) system).1.machine.disk }
create_process_fails_example = create_process_fails empty_host (112 ∷ []) system creation-fails
