-- ===== src/Console/Interaction.antt =====
-- The loops of the console (src/console.c): `startMonitorSession` as a whole, and `consoleStart`.
use project_lucario.Base.{
  ℕ, suc, ◌-◌, Bool, true, false, ◌&&◌, ◌||◌, Option, none, some, List, [], ◌∷◌, ◌==◌, ltb,
  if◌then◌else◌,
}
use project_lucario.Machine.{Machine, Text}
use project_lucario.Core.{System}
use project_lucario.Console.Parsing.{CommandStatus, cmd_success, parse_input}
use project_lucario.Console.Commands.{
  Terminal, Command, monitor, command_of, Reply, done, closed, console_line, start_monitor_session,
  end_monitor_session,
}

-- What one round of the monitor's loop meets: a system call that reads, no key within the time, or a
-- key.
pub data MonitorRound : Type 0 where
  syscall_reading : MonitorRound
  no_key : MonitorRound
  key : ℕ → MonitorRound

-- The loop, with `inputPos` and the characters that it has erased; `none` while ESC has not come.
unfoldable pub monitor_loop : ℕ → ℕ → List MonitorRound → Option ℕ
monitor_loop input_pos erased [] = none
monitor_loop input_pos erased (syscall_reading ∷ rounds) = monitor_loop input_pos erased rounds
monitor_loop input_pos erased (no_key ∷ rounds) = monitor_loop input_pos erased rounds
monitor_loop input_pos erased (key c ∷ rounds) =
    let erase = (c == 127 || c == 8) && ltb 0 input_pos in
    let rest =
      monitor_loop (if erase then input_pos - 1 else input_pos)
        (if erase then suc erased else erased) rounds in
    if c == 27 then some erased else rest

-- A session from its start to its end.
unfoldable pub monitor_session :
    Bool → List MonitorRound → Machine → Option (CommandStatus × Machine)
unfolding monitor_loop start_monitor_session end_monitor_session
monitor_session raw_mode rounds m =
    let (status, opened) = start_monitor_session raw_mode m in
    elim status [
      | cmd_success ↦ elim (monitor_loop 0 0 rounds) [
        | none ↦ none
        | some _ ↦ some (cmd_success, end_monitor_session opened)
      ]
      | other ↦ some (other, opened)
    ]

-- `ConsoleStatus_t`
pub data ConsoleStatus : Type 0 where
  console_success console_runtime_error : ConsoleStatus

abbrev pub is_closed : Reply → Bool
is_closed closed = true
is_closed _ = false

-- The command `monitor` returns when its session has ended.
abbrev pub after_command : Command → Reply → System → System
after_command monitor (done cmd_success) s = record s { machine = end_monitor_session s.machine }
after_command _ _ s = s

-- The loop over the lines that are typed, until `shutdown` or the end of the input, while the other
-- threads rest.
unfoldable pub console_start : List (Terminal × Text) → System → ConsoleStatus × System
console_start [] s = (console_runtime_error, s)
console_start ((t, input) ∷ lines) s =
    let (reply, s') = console_line t input s in
    let s'' = after_command (command_of (parse_input input).command) reply s' in
    let rest = console_start lines s'' in if is_closed reply then (console_success, s'') else rest
