-- ===== src/Tests/Logs.antt =====
-- The theorem on the log files at concrete inputs.
use project_lucario.Base.{◌≡◌, true, false, none, some, [], ◌∷◌}
use project_lucario.Machine.{ic_timer}
use project_lucario.Logger.{Logs, log_info}
use project_lucario.Logger.Lines.{
  LogCall, on_kernel, on_interrupt, call_all, call_all-lines, extended, hardware_lines,
  kernel_lines,
}
use project_lucario.Base.{List}

-- The kernel's log is open, the hardware's is not.
abbrev one_log : Logs
one_log = record {
  hardware = record { is_open = false; lines = [] };
  kernel = record { is_open = true; lines = [] };
}

abbrev two_calls : List LogCall
two_calls = on_kernel none log_info (b'x' ∷ []) ∷ on_interrupt (some (b't' ∷ [])) ic_timer ∷ []

call_all-lines_example : call_all two_calls one_log ≡ record {
  hardware = extended (hardware_lines two_calls) one_log.hardware;
  kernel = extended (kernel_lines two_calls) one_log.kernel;
}
call_all-lines_example = call_all-lines two_calls one_log
