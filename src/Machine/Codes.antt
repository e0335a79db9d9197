-- ===== src/Machine/Codes.antt =====
-- The enumerations of inc/definitions.h and of the headers of the components. A register of a C
-- enumeration that the code loads with a cast word can hold any number: such a value is `other`.
use project_lucario.Base.{ℕ, Bool, true, false, List, [], ◌∷◌, get_or, ◌==◌, if◌then◌else◌}
use project_lucario.Base.Int.{ℤ, pos, negsuc}

pub data ConditionCode : Type 0 where
  cc_zero cc_neg cc_pos cc_overflow : ConditionCode
  cc_other : ℤ → ConditionCode

pub data OpMode : Type 0 where
  mode_user mode_kernel : OpMode
  mode_other : ℤ → OpMode

pub data AddressingMode : Type 0 where
  addr_direct addr_immediate addr_indexed : AddressingMode
  addr_other : ℤ → AddressingMode

pub data OpCode : Type 0 where
  op_sum op_res op_mult op_divi op_load op_str op_loadrx op_strrx op_comp : OpCode
  op_jmpe op_jmpne op_jmplt op_jmplgt op_svc op_retrn op_hab op_dhab op_tti op_chmod : OpCode
  op_loadrb op_strrb op_loadrl op_strrl op_loadsp op_strsp op_psh op_pop op_j : OpCode
  op_sdmap op_sdmac op_sdmas op_sdmaio op_sdmam op_sdmaon : OpCode
  op_other : ℤ → OpCode

pub data InterruptCode : Type 0 where
  ic_invalid_syscall ic_invalid_int_code ic_syscall ic_timer ic_io_done : InterruptCode
  ic_invalid_instr ic_invalid_addr ic_underflow ic_overflow : InterruptCode

pub data ProcessState : Type 0 where
  new ready executing blocked blocked_io finished : ProcessState

pub data OsStatus : Type 0 where
  os_success os_err_max_processes os_err_memory os_err_disk os_err_thread : OsStatus

pub data MemoryStatus : Type 0 where
  mem_success mem_err_out_of_bounds mem_err_protection mem_err_invalid_data : MemoryStatus

pub data DiskStatus : Type 0 where
  disk_success disk_err_out_of_bounds : DiskStatus

pub data CpuStatus : Type 0 where
  cpu_ok cpu_stop : CpuStatus

pub data InstructionStatus : Type 0 where
  instr_success instr_fail : InstructionStatus

pub data SyscallStatus : Type 0 where
  syscall_success syscall_unknown syscall_halt syscall_block : SyscallStatus

-- The casts between words and the enumerations of the status word.
abbrev pub mode_of_word : ℤ → OpMode
mode_of_word (pos n) =
    if n == 0 then mode_user else if n == 1 then mode_kernel else mode_other (pos n)
mode_of_word (negsuc n) = mode_other (negsuc n)

abbrev pub word_of_mode : OpMode → ℤ
word_of_mode mode_user = pos 0
word_of_mode mode_kernel = pos 1
word_of_mode (mode_other w) = w

abbrev pub is_kernel : OpMode → Bool
is_kernel mode_kernel = true
is_kernel _ = false

abbrev pub cc_of_word : ℤ → ConditionCode
cc_of_word (pos n) =
    if n == 0
    then cc_zero
    else if n == 1
    then cc_neg
    else if n == 2
    then cc_pos
    else if n == 3
    then cc_overflow
    else cc_other (pos n)
cc_of_word (negsuc n) = cc_other (negsuc n)

abbrev pub word_of_cc : ConditionCode → ℤ
word_of_cc cc_zero = pos 0
word_of_cc cc_neg = pos 1
word_of_cc cc_pos = pos 2
word_of_cc cc_overflow = pos 3
word_of_cc (cc_other w) = w

abbrev pub is_overflow : ConditionCode → Bool
is_overflow cc_overflow = true
is_overflow _ = false

abbrev pub addressing_mode_of : ℤ → AddressingMode
addressing_mode_of (pos n) =
    if n == 0
    then addr_direct
    else if n == 1
    then addr_immediate
    else if n == 2
    then addr_indexed
    else addr_other (pos n)
addressing_mode_of (negsuc n) = addr_other (negsuc n)

-- The operation codes in the order of their numbers, 0 to 33.
abbrev pub op_codes : List OpCode
op_codes =
    op_sum ∷ op_res ∷ op_mult ∷ op_divi ∷ op_load ∷ op_str ∷ op_loadrx ∷ op_strrx ∷ op_comp
    ∷ op_jmpe ∷ op_jmpne ∷ op_jmplt ∷ op_jmplgt ∷ op_svc ∷ op_retrn ∷ op_hab ∷ op_dhab ∷ op_tti
    ∷ op_chmod ∷ op_loadrb ∷ op_strrb ∷ op_loadrl ∷ op_strrl ∷ op_loadsp ∷ op_strsp ∷ op_psh
    ∷ op_pop ∷ op_j ∷ op_sdmap ∷ op_sdmac ∷ op_sdmas ∷ op_sdmaio ∷ op_sdmam ∷ op_sdmaon ∷ []

abbrev pub op_code_of : ℤ → OpCode
op_code_of (pos n) = get_or op_codes n (op_other (pos n))
op_code_of (negsuc n) = op_other (negsuc n)

-- `code == other` on interrupt codes, by their numbers.
abbrev pub interrupt_number : InterruptCode → ℕ
interrupt_number ic_invalid_syscall = 0
interrupt_number ic_invalid_int_code = 1
interrupt_number ic_syscall = 2
interrupt_number ic_timer = 3
interrupt_number ic_io_done = 4
interrupt_number ic_invalid_instr = 5
interrupt_number ic_invalid_addr = 6
interrupt_number ic_underflow = 7
interrupt_number ic_overflow = 8

abbrev pub is_ready : ProcessState → Bool
is_ready ready = true
is_ready _ = false

abbrev pub is_finished : ProcessState → Bool
is_finished finished = true
is_finished _ = false

abbrev pub is_executing : ProcessState → Bool
is_executing executing = true
is_executing _ = false

abbrev pub is_blocked : ProcessState → Bool
is_blocked blocked = true
is_blocked _ = false

abbrev pub is_blocked_io : ProcessState → Bool
is_blocked_io blocked_io = true
is_blocked_io _ = false

abbrev pub is_success : MemoryStatus → Bool
is_success mem_success = true
is_success _ = false

abbrev pub is_fail : InstructionStatus → Bool
is_fail instr_fail = true
is_fail instr_success = false
