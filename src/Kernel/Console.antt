-- ===== src/Kernel/Console.antt =====
-- Whole sessions of the console (src/console.c) and of its monitor.
use project_lucario.Base.{
  ℕ, ◌||◌, ◌&&◌, ltb, ◌-◌, suc, ◌≡◌, refl, arith, Bool, true, false, some, List, [], ◌∷◌,
  if◌then◌else◌, ◌==◌,
}
use project_lucario.Machine.{Text}
use project_lucario.Core.{System}
use project_lucario.Console.{
  Terminal, Command, Reply, cmd_success, console_line, console_start, console_success,
  after_command, is_closed, command_of, parse_input, end_monitor_session, monitor, done,
  monitor_loop, MonitorRound, syscall_reading, no_key, key,
}
use project_lucario.Kernel.Owners.{IsSound}
use project_lucario.Kernel.Admission.{IsSound-tables}
use project_lucario.Kernel.Session.{console_line-IsSound}

after_command-IsSound :
    (c : Command) (r : Reply) (s : System)
    → IsSound s.machine
    → IsSound (after_command c r s).machine
unfolding end_monitor_session
after_command-IsSound monitor (done cmd_success) s v = IsSound-tables s.machine _ refl v
after_command-IsSound _ _ s v = v

-- Whatever lines are typed, the invariant holds when the console returns.
pub console_start-IsSound :
    (lines : List (Terminal × Text)) (s : System)
    → IsSound s.machine
    → IsSound (console_start lines s).1.machine
unfolding console_start
console_start-IsSound [] s v = v
console_start-IsSound ((t, input) ∷ lines) s v =
    by_reply (is_closed (console_line t input s).0) ended (console_start-IsSound lines _ ended)
  where
    after : System
    after =
        after_command (command_of (parse_input input).command) (console_line t input s).0
          (console_line t input s).1

    ended : IsSound after.machine
    ended = after_command-IsSound _ _ _ (console_line-IsSound t input s v)

    by_reply :
        (b : Bool)
        → IsSound after.machine
        → IsSound (console_start lines after).1.machine
        → IsSound (if b then (console_success, after) else console_start lines after).1.machine
    by_reply true h k = h
    by_reply false h k = k

-- No key that is pressed erases anything in the monitor: a session ends with nothing erased.
pub monitor_loop_erases :
    (rounds : List MonitorRound) {erased : ℕ} → monitor_loop 0 0 rounds ≡ some erased → erased ≡ 0
unfolding monitor_loop
monitor_loop_erases [] h = absurd (ground arith)
monitor_loop_erases (syscall_reading ∷ rounds) h = monitor_loop_erases rounds h
monitor_loop_erases (no_key ∷ rounds) h = monitor_loop_erases rounds h
monitor_loop_erases (key c ∷ rounds) {erased} h =
    by_key (c == 27) ((c == 127 || c == 8) && ltb 0 0) (ground arith) h (monitor_loop_erases rounds)
  where
    by_key :
        (leaves erase : Bool)
        → erase ≡ false
        → (if leaves
            then some 0
            else monitor_loop (if erase then 0 - 1 else 0) (if erase then suc 0 else 0) rounds)
          ≡ some erased
        → (monitor_loop 0 0 rounds ≡ some erased → erased ≡ 0)
        → erased ≡ 0
    by_key true erase e q ih = ground arith
    by_key false true e q ih = absurd (ground arith)
    by_key false false e q ih = ih q
