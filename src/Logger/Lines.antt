-- ===== src/Logger/Lines.antt =====
-- What a sequence of calls leaves in the log files (src/logger.c).
use project_lucario.Base.{
  ◌≡◌, refl, sym, ap, ◌∙◌, Bool, true, false, Option, List, [], ◌∷◌, ◌++◌, if◌then◌else◌,
}
use mathlib.Core.List.{append_assoc, append-nil}
use project_lucario.Machine.{Text, InterruptCode}
use project_lucario.Logger.{
  LogLevel, log_error, log_warning, LogFile, Logs, log_line, append_to, logger_log_hardware,
  logger_log_kernel, logger_log_interrupt, interrupt_message, is_error,
}

-- A call of the logger.
pub data LogCall : Type 0 where
  on_hardware : Option Text → LogLevel → Text → LogCall
  on_kernel : Option Text → LogLevel → Text → LogCall
  on_interrupt : Option Text → InterruptCode → LogCall

abbrev pub call : LogCall → Logs → Logs
call (on_hardware clock level message) l = logger_log_hardware clock level message l
call (on_kernel clock level message) l = logger_log_kernel clock level message l
call (on_interrupt clock code) l = logger_log_interrupt clock code l

abbrev pub call_all : List LogCall → Logs → Logs
call_all [] l = l
call_all (c ∷ cs) l = call_all cs (call c l)

-- The lines that the calls owe to each file.
abbrev pub hardware_lines : List LogCall → List Text
hardware_lines [] = []
hardware_lines (on_hardware clock level message ∷ cs) =
    log_line clock level message ∷ hardware_lines cs
hardware_lines (on_kernel clock level message ∷ cs) = hardware_lines cs
hardware_lines (on_interrupt clock code ∷ cs) =
    log_line clock (if is_error code then log_error else log_warning) (interrupt_message code)
    ∷ hardware_lines cs

abbrev pub kernel_lines : List LogCall → List Text
kernel_lines [] = []
kernel_lines (on_hardware clock level message ∷ cs) = kernel_lines cs
kernel_lines (on_kernel clock level message ∷ cs) = log_line clock level message ∷ kernel_lines cs
kernel_lines (on_interrupt clock code ∷ cs) = kernel_lines cs

abbrev pub extended : List Text → LogFile → LogFile
extended ls f = if f.is_open then record f { lines = f.lines ++ ls } else f

extended-cons :
    (line : Text) (ls : List Text) (f : LogFile)
    → extended ls (append_to line f) ≡ extended (line ∷ ls) f
extended-cons line ls f = by_open f.is_open f.lines
  where
    by_open :
        (b : Bool) (kept : List Text)
        → extended ls (append_to line (record { is_open = b; lines = kept }))
          ≡ extended (line ∷ ls) (record { is_open = b; lines = kept })
    by_open true kept =
        ap (λ (z : List Text). record { is_open = true; lines = z })
          (append_assoc kept (line ∷ []) ls)
    by_open false kept = refl

extended-nil : (f : LogFile) → extended [] f ≡ f
extended-nil f = by_open f.is_open f.lines
  where
    by_open :
        (b : Bool) (kept : List Text)
        → extended [] (record { is_open = b; lines = kept }) ≡ record { is_open = b; lines = kept }
    by_open true kept =
        ap (λ (z : List Text). record { is_open = true; lines = z }) (append-nil kept)
    by_open false kept = refl

-- Both files after one more call.
module _ (cs : List LogCall) (l : Logs)
    (rest : (x : Logs)
      → call_all cs x ≡ record {
        hardware = extended (hardware_lines cs) x.hardware;
        kernel = extended (kernel_lines cs) x.kernel;
      }) where
  hardware_first :
      (line : Text)
      → call_all cs (record l { hardware = append_to line l.hardware }) ≡ record {
        hardware = extended (line ∷ hardware_lines cs) l.hardware;
        kernel = extended (kernel_lines cs) l.kernel;
      }
  hardware_first line =
      rest (record l { hardware = append_to line l.hardware })
      ∙ ap (λ (f : LogFile). record { hardware = f; kernel = extended (kernel_lines cs) l.kernel })
          (extended-cons line (hardware_lines cs) l.hardware)

  kernel_first :
      (line : Text)
      → call_all cs (record l { kernel = append_to line l.kernel }) ≡ record {
        hardware = extended (hardware_lines cs) l.hardware;
        kernel = extended (line ∷ kernel_lines cs) l.kernel;
      }
  kernel_first line =
      rest (record l { kernel = append_to line l.kernel })
      ∙ ap
          (λ (f : LogFile). record {
            hardware = extended (hardware_lines cs) l.hardware;
            kernel = f;
          })
          (extended-cons line (kernel_lines cs) l.kernel)

interrupt_level :
    (clock : Option Text) (code : InterruptCode) (l : Logs)
    → logger_log_interrupt clock code l
      ≡ logger_log_hardware clock
          (if is_error code then log_error else log_warning)
          (interrupt_message code)
          l
unfolding logger_log_interrupt
interrupt_level clock code l = by_level (is_error code)
  where
    by_level :
        (b : Bool)
        → (if b
            then logger_log_hardware clock log_error (interrupt_message code) l
            else logger_log_hardware clock log_warning (interrupt_message code) l)
          ≡ logger_log_hardware clock
              (if b then log_error else log_warning)
              (interrupt_message code)
              l
    by_level true = refl
    by_level false = refl

-- A sequence of calls appends to each file that is open the lines that are for it, in their order, and
-- changes no file that is closed.
pub call_all-lines :
    (cs : List LogCall) (l : Logs)
    → call_all cs l ≡ record {
      hardware = extended (hardware_lines cs) l.hardware;
      kernel = extended (kernel_lines cs) l.kernel;
    }
unfolding logger_log_hardware logger_log_kernel
call_all-lines [] l =
    ap (λ (f : LogFile). record { hardware = f; kernel = l.kernel }) (sym (extended-nil l.hardware))
    ∙ ap (λ (f : LogFile). record { hardware = extended [] l.hardware; kernel = f })
        (sym (extended-nil l.kernel))
call_all-lines (on_hardware clock level message ∷ cs) l =
    hardware_first cs l (call_all-lines cs) (log_line clock level message)
call_all-lines (on_kernel clock level message ∷ cs) l =
    kernel_first cs l (call_all-lines cs) (log_line clock level message)
call_all-lines (on_interrupt clock code ∷ cs) l =
    let level : LogLevel = if is_error code then log_error else log_warning in
    ap (call_all cs) (interrupt_level clock code l)
    ∙ hardware_first cs l (call_all-lines cs) (log_line clock level (interrupt_message code))
