-- ===== src/Syscalls.antt =====
-- The system calls (src/kernel/syscalls.c), and the lines that the monitor keeps (src/console.c).
--
-- `PROCESS_TABLE[currentActiveProcess]` is outside the table while no process runs: such a write is
-- left out here. The user types until `scanf` has read a number; what stands before it is dropped.
use project_lucario.Base.{
  ◌||◌, Option, none, some, List, [], ◌∷◌, ◌++◌, ltb, length, update, if◌then◌else◌,
}
use project_lucario.Base.Int.{ℤ, pos, negsuc, ◌-ℤ◌, int32, ltb_ℤ, eqb_ℤ, add32, sub32}
use project_lucario.Machine.{
  Machine, Pcb, blocked, blocked_io, Message, output, input_read, input_truncated, bad_sleep,
  Typing, rejected, accepted, Outside, SyscallStatus, syscall_success, syscall_unknown,
  syscall_halt, syscall_block, max_magnitude, max_history_lines, set_cc,
}
use project_lucario.Words.{word_to_int, int_to_word}
use project_lucario.Memory.{read_memory, write_memory}

-- The lines move up by one, and the new one takes the last place.
unfoldable pub shift_lines : List Message → Message → List Message
shift_lines [] line = line ∷ []
shift_lines (first ∷ lines) line = lines ++ (line ∷ [])

-- `monitorSaveHistory`: the oldest line goes when the history is full.
unfoldable pub append_line : List Message → Message → List Message
unfolding shift_lines
append_line lines line =
    if ltb (length lines) max_history_lines then lines ++ (line ∷ []) else shift_lines lines line

unfoldable pub monitor_save_history : Message → Machine → Machine
monitor_save_history line m = record m { history = append_line m.history line }

-- The line that is shown, if the monitor is open, and the history with it.
abbrev pub monitor_print : Message → Machine → Option Message × Machine
monitor_print line m = ((if m.monitor_active then some line else none), monitor_save_history line m)

-- The process that runs.
abbrev pub current_pid : Machine → ℤ
current_pid m = elim m.current [ none ↦ negsuc 0 | some k ↦ (m.table k).pid ]

unfoldable pub update_current : (Pcb → Pcb) → Machine → Machine
update_current f m = elim m.current [
  | none ↦ m
  | some k ↦ record m { table = update m.table k (f (m.table k)) }
]

-- The loop around `scanf`.
unfoldable pub scan_number : Typing → ℤ
scan_number (rejected rest) = scan_number rest
scan_number (accepted n) = n

abbrev pub value_read : Option ℤ → ℤ → ℤ
value_read (some word) unset = word
value_read none unset = unset

-- The process waits for the monitor: the saved program counter goes back to the SVC instruction.
unfoldable pub block_on_monitor : Outside → Machine → SyscallStatus × Machine
unfolding update_current
block_on_monitor o m =
    let waiting = update_current (λ p. record p { state = blocked_io }) m in
    let slot = add32 waiting.cpu.sp (pos 1) in
    let saved_pc = word_to_int (value_read (read_memory waiting slot).1 o.saved_pc_word) in
    let (word, cc) = int_to_word (sub32 saved_pc (pos 1)) in
    (syscall_block, (write_memory slot word (set_cc cc waiting)).1)

-- Service 2: print the word on top of the program's stack.
unfoldable pub print_value : Option ℤ → Outside → Machine → SyscallStatus × Machine
unfolding monitor_save_history
print_value none o m = (syscall_halt, m)
print_value (some param) o m =
    if m.monitor_active
    then (syscall_success, (monitor_print (output (current_pid m) (word_to_int param)) m).1)
    else block_on_monitor o m

-- Service 3: read a number into the saved accumulator.
unfoldable pub read_value : Outside → Machine → SyscallStatus × Machine
unfolding monitor_save_history
read_value o m =
    if m.monitor_active
    then (let user_input = scan_number o.typing in
        let noted =
          if ltb_ℤ (pos max_magnitude) user_input || ltb_ℤ user_input (pos 0 -ℤ pos max_magnitude)
          then monitor_save_history (input_truncated (current_pid m)) m
          else m in
        let listed = monitor_save_history (input_read (current_pid m) (int32 user_input)) noted in
        let (word, cc) = int_to_word (int32 user_input) in
        (syscall_success, (write_memory listed.cpu.sp word (set_cc cc listed)).1))
    else block_on_monitor o m

-- Service 4: sleep for the number of tics on top of the program's stack.
unfoldable pub sleep : Option ℤ → Machine → SyscallStatus × Machine
unfolding monitor_save_history update_current
sleep none m = (syscall_halt, m)
sleep (some param) m =
    let tics = word_to_int param in
    if ltb_ℤ tics (pos 0)
    then (syscall_halt, (monitor_print (bad_sleep (current_pid m) tics) m).1)
    else if eqb_ℤ tics (pos 0)
    then (syscall_success, m)
    else (syscall_block, update_current (λ p. record p { sleep_tics = tics; state = blocked }) m)

-- `saveContext` has pushed seven words onto the program's stack.
unfoldable pub handle_syscall : Outside → Machine → SyscallStatus × Machine
unfolding print_value read_value sleep
handle_syscall o m =
    let syscall_code = word_to_int m.cpu.ac in
    let param = (read_memory m (add32 m.cpu.sp (pos 7))).1 in
    if eqb_ℤ syscall_code (pos 1)
    then (syscall_halt, m)
    else if eqb_ℤ syscall_code (pos 2)
    then print_value param o m
    else if eqb_ℤ syscall_code (pos 3)
    then read_value o m
    else if eqb_ℤ syscall_code (pos 4)
    then sleep param m
    else (syscall_unknown, m)
