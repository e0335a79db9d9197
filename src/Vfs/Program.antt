-- ===== src/Vfs/Program.antt =====
-- `loadProgram` (src/kernel/vfs.c): a program of the host goes straight to RAM, behind the kernel's
-- part, and starts in user mode.
use project_lucario.Base.{ℕ, zero, suc, ◌+◌, ◌-◌, none, some, List, [], true, if◌then◌else◌}
use project_lucario.Base.Int.{ℤ, pos, pos_part, add32, sub32, ltb_ℤ}
use project_lucario.Machine.{
  Machine, Text, MemoryStatus, mem_success, mode_kernel, mode_user, set_mode, ram_size,
  os_reserved_size, min_stack_size, default_stack_size,
}
use project_lucario.Memory.{write_memory}
use project_lucario.Vfs.{Host, HostFile, read_program_word}

-- `LoadStatus_t`
pub data LoadStatus : Type 0 where
  load_success load_file_error load_memory_error : LoadStatus

-- `ProgramInfo_t`
pub record ProgramInfo : Type 0 where
  pub start_pc : ℤ
  pub word_count : ℤ
  pub program_name : Text
  pub status : LoadStatus

-- The loop over the words, at a RAM address and for a number of rounds; it ends at the first word
-- that memory does not take.
unfoldable pub write_program : Host → ℕ → ℕ → List Text → Machine → MemoryStatus × Machine
write_program host zero addr lines m = (mem_success, m)
write_program host (suc rounds) addr lines m =
    let (w, rest) = read_program_word host lines in
    let (status, m') = write_memory (pos addr) w m in
    elim status [ mem_success ↦ write_program host rounds (suc addr) rest m' | other ↦ (other, m') ]

-- The room for the stack.
abbrev pub stack_memory : ℤ → ℤ
stack_memory word_count =
    let room = sub32 (pos (ram_size - os_reserved_size)) word_count in
    if ltb_ℤ (pos default_stack_size) room then pos default_stack_size else room

-- The registers with which the program starts.
unfoldable pub start_program : HostFile → Machine → Machine
start_program file m =
    let stack = stack_memory file.word_count in
    record m {
      cpu = record m.cpu {
        rb = pos os_reserved_size;
        rl = add32 (add32 (pos os_reserved_size) stack) file.word_count;
        rx = file.word_count;
        sp = add32 file.word_count stack;
        timer_limit = 16;
        cycles_counter = 0;
        psw = record m.cpu.psw {
          pc = sub32 file.start_pc (pos 1);
          mode = mode_user;
          interrupt_enable = true;
        };
      };
    }

abbrev pub info_of : HostFile → LoadStatus → ProgramInfo
info_of file status = record {
  start_pc = file.start_pc;
  word_count = file.word_count;
  program_name = file.program_name;
  status = status;
}

abbrev pub finish_program : HostFile → MemoryStatus × Machine → ProgramInfo × Machine
finish_program file (mem_success, m) = (info_of file load_success, start_program file m)
finish_program file (_, m) = (info_of file load_memory_error, m)

unfoldable pub load_opened : Host → HostFile → Machine → ProgramInfo × Machine
load_opened host file m =
    let kernel = set_mode mode_kernel m in
    if ltb_ℤ (pos ram_size) (add32 (pos (os_reserved_size + min_stack_size)) file.word_count)
    then (info_of file load_file_error, kernel)
    else finish_program file
        (write_program host (pos_part file.word_count) os_reserved_size file.lines kernel)

unfoldable pub load_program : Host → Text → Machine → ProgramInfo × Machine
load_program host file_path m = elim (host.open_file file_path) [
  | none ↦ (
    record { start_pc = pos 0; word_count = pos 0; program_name = []; status = load_file_error },
    m,
  )
  | some file ↦ load_opened host file m
]
