-- ===== src/Console/Tty.antt =====
-- The modes of the terminal (src/console.c, `enableRawMode` and `disableRawMode`), as the monitor and
-- the read service (src/kernel/syscalls.c) change them.
use project_lucario.Base.{ℕ, Bool, true, false, List, [], ◌∷◌, if◌then◌else◌}
use project_lucario.Console.Parsing.{CommandStatus, cmd_success, cmd_runtime_error}

-- What `enableRawMode` touches of `struct termios`.
pub record Termios : Type 0 where
  pub echo : Bool
  pub icanon : Bool
  pub vmin : ℕ
  pub vtime : ℕ

-- The settings of the terminal, and `origTermios`.
pub record Tty : Type 0 where
  pub settings : Termios
  pub orig_termios : Termios

abbrev pub raw : Termios → Termios
raw t = record t { echo = false; icanon = false; vmin = 0; vtime = 1 }

-- The arguments are whether `tcgetattr` and `tcsetattr` succeed.
unfoldable pub enable_raw_mode : Bool → Bool → Tty → CommandStatus × Tty
enable_raw_mode gets sets t =
    let remembered = record t { orig_termios = t.settings } in
    if gets
    then if sets
      then (cmd_success, record remembered { settings = raw t.settings })
      else (cmd_runtime_error, remembered)
    else (cmd_runtime_error, t)

unfoldable pub disable_raw_mode : Bool → Tty → CommandStatus × Tty
disable_raw_mode sets t =
    if sets then (cmd_success, record t { settings = t.orig_termios }) else (cmd_runtime_error, t)

-- The moments at which a mode is set: a monitor session begins and ends, and the read service begins
-- and ends. They belong to two threads.
pub data ModeChange : Type 0 where
  session_begins session_ends read_begins read_ends : ModeChange

-- Where all calls succeed.
unfoldable pub apply_change : ModeChange → Tty → Tty
unfolding enable_raw_mode disable_raw_mode
apply_change session_begins t = (enable_raw_mode true true t).1
apply_change session_ends t = (disable_raw_mode true t).1
apply_change read_begins t = (disable_raw_mode true t).1
apply_change read_ends t = (enable_raw_mode true true t).1

unfoldable pub change_modes : List ModeChange → Tty → Tty
unfolding apply_change
change_modes [] t = t
change_modes (c ∷ changes) t = change_modes changes (apply_change c t)
