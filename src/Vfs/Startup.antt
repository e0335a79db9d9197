-- ===== src/Vfs/Startup.antt =====
-- What a successful `loadProgram` (src/kernel/vfs.c) leaves in RAM and in the registers.
use project_lucario.Base.{
  ℕ, zero, suc, ◌+◌, ◌<◌, ◌≡◌, refl, sym, ap, ◌∙◌, arith, Bool, true, false, List, update,
  if◌then◌else◌, some,
}
use project_lucario.Base.Int.{ℤ, pos, pos_part, ltb_ℤ, add32}
use project_lucario.Machine.{
  Machine, Text, MemoryStatus, mem_success, mem_err_out_of_bounds, mem_err_protection,
  mem_err_invalid_data, mode_kernel, mode_user, is_kernel, set_mode, ram_size, os_reserved_size,
  min_stack_size,
}
use project_lucario.Memory.{write_memory, translate}
use project_lucario.Memory.Protection.{write_memory_iff}
use project_lucario.Vfs.{Host, HostFile, read_program_word}
use project_lucario.Vfs.Storage.{scanned}
use project_lucario.Vfs.Program.{
  write_program, load_opened, load_program, load_success, load_file_error, info_of, start_program,
  finish_program, ProgramInfo,
}

-- In kernel mode a write that succeeds changes the cell of the address itself.
write_kernel :
    (m m' : Machine) (a : ℕ) (w : ℤ)
    → is_kernel m.cpu.psw.mode ≡ true
    → write_memory (pos a) w m ≡ (mem_success, m')
    → m' ≡ record m { ram = update m.ram a w }
unfolding translate
write_kernel m m' a w k h = ground (arith, (write_memory_iff m m' (pos a) w).0 h)

written_first :
    (host : Host) (n a : ℕ) (rest : List Text) (m' : Machine) (r : MemoryStatus × Machine)
    → elim r.0 [ mem_success ↦ write_program host n a rest r.1 | other ↦ (other, r.1) ]
      ≡ (mem_success, m')
    → (r ≡ (mem_success, r.1)) × (write_program host n a rest r.1 ≡ (mem_success, m'))
written_first host n a rest m' (mem_success, x) h = (refl, h)
written_first host n a rest m' (mem_err_out_of_bounds, x) h = absurd (ground arith)
written_first host n a rest m' (mem_err_protection, x) h = absurd (ground arith)
written_first host n a rest m' (mem_err_invalid_data, x) h = absurd (ground arith)

-- A copy that succeeds began with a write that succeeded.
module _ (host : Host) (n a : ℕ) (lines : List Text) (m m' : Machine)
    (k : is_kernel m.cpu.psw.mode ≡ true) where
  abbrev first : Machine
  first = record m { ram = update m.ram a (read_program_word host lines).0 }

  write_program_step :
      write_program host (suc n) a lines m ≡ (mem_success, m')
      → write_program host n (suc a) (read_program_word host lines).1 first ≡ (mem_success, m')
  unfolding write_program
  write_program_step h =
      let (w, rest) = read_program_word host lines in
      let split = written_first host n (suc a) rest m' (write_memory (pos a) w m) h in
      ap (λ x. write_program host n (suc a) rest x)
        (sym (write_kernel m (write_memory (pos a) w m).1 a w k split.0))
      ∙ split.1

write_program_before :
    (host : Host) (n a j : ℕ) (lines : List Text) (m m' : Machine)
    → is_kernel m.cpu.psw.mode ≡ true
    → write_program host n a lines m ≡ (mem_success, m')
    → j < a
    → m'.ram j ≡ m.ram j
write_program_before host zero a j lines m m' k h lt =
    ap (λ (r : MemoryStatus × Machine). r.1.ram j) (sym h) ∙ unfold write_program in refl
write_program_before host (suc n) a j lines m m' k h lt =
    write_program_before host n (suc a) j (read_program_word host lines).1
      (first host n a lines m m' k) m' k (write_program_step host n a lines m m' k h) (omega arith)
    ∙ ground arith

-- In kernel mode a copy of a program to RAM that succeeds leaves the `i`-th number of the host's file
-- in the `i`-th cell from its address on.
pub write_program_lem :
    (host : Host) (n a i : ℕ) (lines : List Text) (m : Machine) {m' : Machine}
    → is_kernel m.cpu.psw.mode ≡ true
    → write_program host n a lines m ≡ (mem_success, m')
    → i < n
    → m'.ram (a + i) ≡ scanned host i lines
write_program_lem host zero a i lines m k h lt = absurd (omega arith)
write_program_lem host (suc n) a zero lines m {m'} k h lt =
    write_program_before host n (suc a) (a + 0) (read_program_word host lines).1
      (first host n a lines m m' k) m' k (write_program_step host n a lines m m' k h) (omega arith)
    ∙ ground arith
write_program_lem host (suc n) a (suc i) lines m {m'} k h lt =
    ap (λ j. m'.ram j) (omega arith)
    ∙ write_program_lem host n (suc a) i (read_program_word host lines).1
        (first host n a lines m m' k) k (write_program_step host n a lines m m' k h) (omega arith)

module _ (host : Host) (file : HostFile) (m : Machine) where
  finished_copy :
      (r : MemoryStatus × Machine)
      → (finish_program file r).0.status ≡ load_success
      → (r ≡ (mem_success, r.1)) × ((finish_program file r).1 ≡ start_program file r.1)
  finished_copy (mem_success, x) h = (refl, refl)
  finished_copy (mem_err_out_of_bounds, x) h = absurd (ground arith)
  finished_copy (mem_err_protection, x) h = absurd (ground arith)
  finished_copy (mem_err_invalid_data, x) h = absurd (ground arith)

  checked_copy :
      (too_large : Bool) (k : Machine) (r : MemoryStatus × Machine)
      → (if too_large then (info_of file load_file_error, k) else finish_program file r).0.status
        ≡ load_success
      → (r ≡ (mem_success, r.1))
        × ((if too_large then (info_of file load_file_error, k) else finish_program file r).1
            ≡ start_program file r.1)
  checked_copy true k r h = absurd (ground arith)
  checked_copy false k r h = finished_copy r h

  -- The copy of an opened program that was loaded.
  abbrev copied : MemoryStatus × Machine
  copied =
      write_program host (pos_part file.word_count) os_reserved_size file.lines
        (set_mode mode_kernel m)

  load_opened-success :
      (load_opened host file m).0.status ≡ load_success
      → (copied ≡ (mem_success, copied.1))
        × ((load_opened host file m).1 ≡ start_program file copied.1)
  unfolding load_opened
  load_opened-success h =
      checked_copy
        (ltb_ℤ (pos ram_size) (add32 (pos (os_reserved_size + min_stack_size)) file.word_count))
        (set_mode mode_kernel m) copied h

load_program-opened :
    (host : Host) (path : Text) (file : HostFile) (m : Machine)
    → host.open_file path ≡ some file
    → load_program host path m ≡ load_opened host file m
unfolding load_program
load_program-opened host path file m e = rw (e, load_program) refl

-- When `loadProgram` reports success, each word of the program stands in RAM behind the kernel's part
-- as the host's file holds it, and the processor is in user mode.
pub load_program_lem :
    (host : Host) (path : Text) (file : HostFile) (i : ℕ) (m : Machine)
    → host.open_file path ≡ some file
    → (load_program host path m).0.status ≡ load_success
    → i < pos_part file.word_count
    → ((load_program host path m).1.ram (os_reserved_size + i) ≡ scanned host i file.lines)
      × ((load_program host path m).1.cpu.psw.mode ≡ mode_user)
unfolding start_program
load_program_lem host path file i m e h lt =
    let same = load_program-opened host path file m e in
    let done =
      load_opened-success host file m
        (sym (ap (λ (r : ProgramInfo × Machine). r.0.status) same) ∙ h) in
    (
      ap (λ (r : ProgramInfo × Machine). r.1.ram (os_reserved_size + i)) same
          ∙ ap (λ (x : Machine). x.ram (os_reserved_size + i)) done.1
          ∙ write_program_lem host (pos_part file.word_count) os_reserved_size i file.lines
              (set_mode mode_kernel m) refl done.0 lt,
      ap (λ (r : ProgramInfo × Machine). r.1.cpu.psw.mode) same
          ∙ ap (λ (x : Machine). x.cpu.psw.mode) done.1,
    )
