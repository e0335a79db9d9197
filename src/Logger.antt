-- ===== src/Logger.antt =====
-- The log files (src/logger.c). A file is the list of its lines with the mark whether it is open; what
-- `strftime` writes, and whether `fopen` succeeds, come from outside. The calls that the rest of the
-- program makes are left out of its model: they write to these files alone.
pub mod Lines
use Prim.Native.String
use Prim.Native.String.{String}
use Prim.Native.Char.{code}
use project_lucario.Base.{
  ℕ, Bool, true, false, Option, none, some, List, [], ◌∷◌, ◌++◌, if◌then◌else◌,
}
use project_lucario.Machine.{
  Text, InterruptCode, ic_invalid_syscall, ic_invalid_int_code, ic_syscall, ic_timer, ic_io_done,
  ic_invalid_instr, ic_invalid_addr, ic_underflow, ic_overflow,
}

-- The bytes of a literal.
abbrev pub codes : String → Text
codes String.[] = []
codes (String.◌∷◌ c s) = code c ∷ codes s

-- `LogLevel_t` and `LogType_t`
pub data LogLevel : Type 0 where
  log_info log_warning log_error : LogLevel

pub data LogType : Type 0 where
  hardware_log kernel_log : LogType

pub record LogFile : Type 0 where
  pub is_open : Bool
  pub lines : List Text

-- `hardwareLogFile` and `kernelLogFile`
pub record Logs : Type 0 where
  pub hardware : LogFile
  pub kernel : LogFile

-- `getCurrentTimeString`, from what `strftime` has written, if it could.
unfoldable pub get_current_time_string : Option Text → Text
get_current_time_string (some time) = time
get_current_time_string none = codes "UNKNOWN_TIME"

unfoldable pub prefix : LogLevel → Text
prefix log_info = codes ":"
prefix log_warning = codes ": [WARN]"
prefix log_error = codes ": [ERROR]"

-- The line of `fprintf`, without its newline.
unfoldable pub log_line : Option Text → LogLevel → Text → Text
unfolding get_current_time_string prefix
log_line clock level message =
    codes "["
    ++ (get_current_time_string clock ++ (codes "]" ++ (prefix level ++ (codes " " ++ message))))

abbrev pub append_to : Text → LogFile → LogFile
append_to line f = if f.is_open then record f { lines = f.lines ++ (line ∷ []) } else f

unfoldable pub save_in_log_file : Option Text → LogLevel → Text → LogType → Logs → Logs
save_in_log_file clock level message kernel_log l = record l {
  kernel = append_to (log_line clock level message) l.kernel;
}
save_in_log_file clock level message hardware_log l = record l {
  hardware = append_to (log_line clock level message) l.hardware;
}

-- `fopen(..., "a")` keeps what the file holds.
unfoldable pub logger_init : Bool → Bool → Logs → Logs
logger_init hardware_opens kernel_opens l = record {
  hardware = record l.hardware { is_open = hardware_opens };
  kernel = record l.kernel { is_open = kernel_opens };
}

unfoldable pub logger_close : Logs → Logs
logger_close l = record {
  hardware = record l.hardware { is_open = false };
  kernel = record l.kernel { is_open = false };
}

unfoldable pub logger_log_hardware : Option Text → LogLevel → Text → Logs → Logs
unfolding save_in_log_file
logger_log_hardware clock level message l = save_in_log_file clock level message hardware_log l

unfoldable pub logger_log_kernel : Option Text → LogLevel → Text → Logs → Logs
unfolding save_in_log_file
logger_log_kernel clock level message l = save_in_log_file clock level message kernel_log l

unfoldable pub interrupt_message : InterruptCode → Text
interrupt_message ic_invalid_syscall = codes "Invalid system call interrupt"
interrupt_message ic_invalid_int_code = codes "Invalid interrupt code"
interrupt_message ic_syscall = codes "System call interrupt"
interrupt_message ic_timer = codes "Timer interrupt"
interrupt_message ic_io_done = codes "I/O completion interrupt"
interrupt_message ic_invalid_instr = codes "Invalid instruction interrupt"
interrupt_message ic_invalid_addr = codes "Invalid memory address interrupt"
interrupt_message ic_underflow = codes "Arithmetic underflow interrupt"
interrupt_message ic_overflow = codes "Arithmetic overflow interrupt"

unfoldable pub is_error : InterruptCode → Bool
is_error ic_invalid_syscall = true
is_error ic_invalid_int_code = true
is_error ic_invalid_instr = true
is_error ic_invalid_addr = true
is_error _ = false

unfoldable pub logger_log_interrupt : Option Text → InterruptCode → Logs → Logs
unfolding logger_log_hardware is_error interrupt_message
logger_log_interrupt clock code l =
    if is_error code
    then logger_log_hardware clock log_error (interrupt_message code) l
    else logger_log_hardware clock log_warning (interrupt_message code) l
