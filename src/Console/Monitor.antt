-- ===== src/Console/Monitor.antt =====
-- When a monitor session (src/console.c, `startMonitorSession`) ends, and what it leaves behind.
use project_lucario.Base.{
  ℕ, suc, ◌-◌, ◌≡◌, refl, ap, ◌∙◌, Bool, true, false, ◌&&◌, ◌||◌, Option, none, some, List, [], ◌∷◌,
  ◌==◌, ltb, if◌then◌else◌, Bool-cases, inl, inr,
}
use project_lucario.Machine.{Machine}
use project_lucario.Console.Parsing.{CommandStatus, cmd_success, cmd_runtime_error}
use project_lucario.Console.Commands.{start_monitor_session, end_monitor_session}
use project_lucario.Console.Interaction.{
  MonitorRound, syscall_reading, no_key, key, monitor_loop, monitor_session,
}

abbrev pub presses_escape : List MonitorRound → Bool
presses_escape [] = false
presses_escape (syscall_reading ∷ rounds) = presses_escape rounds
presses_escape (no_key ∷ rounds) = presses_escape rounds
presses_escape (key c ∷ rounds) = c == 27 || presses_escape rounds

abbrev has_ended : Option ℕ → Bool
has_ended none = false
has_ended (some _) = true

ends-monitor_loop :
    (input_pos erased : ℕ) (rounds : List MonitorRound)
    → has_ended (monitor_loop input_pos erased rounds) ≡ presses_escape rounds
unfolding monitor_loop
ends-monitor_loop input_pos erased [] = refl
ends-monitor_loop input_pos erased (syscall_reading ∷ rounds) =
    ends-monitor_loop input_pos erased rounds
ends-monitor_loop input_pos erased (no_key ∷ rounds) = ends-monitor_loop input_pos erased rounds
ends-monitor_loop input_pos erased (key c ∷ rounds) =
    let erase = (c == 127 || c == 8) && ltb 0 input_pos in
    elim (Bool-cases (c == 27)) [
      | inl e ↦ rw e refl
      | inr ne ↦ rw ne (
          ends-monitor_loop (if erase then input_pos - 1 else input_pos)
            (if erase then suc erased else erased) rounds)
    ]

-- What a session that ends by ESC returns, and nothing as long as it does not end.
abbrev pub closed_if : Bool → Machine → Option (CommandStatus × Machine)
closed_if true m = some (cmd_success, record m { monitor_active = false })
closed_if false m = none

-- A monitor session ends at once with an error where the terminal's raw mode cannot be had, and else
-- exactly if ESC is pressed, with success; in either case the monitor is closed, and nothing else of
-- the machine has changed.
pub monitor_session_lem :
    (raw_mode : Bool) (rounds : List MonitorRound) (m : Machine)
    → monitor_session raw_mode rounds m ≡ (
        if raw_mode
        then closed_if (presses_escape rounds) m
        else some (cmd_runtime_error, record m { monitor_active = false }))
unfolding monitor_session start_monitor_session end_monitor_session
monitor_session_lem false rounds m = refl
monitor_session_lem true rounds m =
    by_end (monitor_loop 0 0 rounds) ∙ ap (λ b. closed_if b m) (ends-monitor_loop 0 0 rounds)
  where
    by_end :
        (r : Option ℕ)
        → elim r as (λ _. Option (CommandStatus × Machine)) [
          | none ↦ none
          | some _ ↦ some (cmd_success, record m { monitor_active = false })
        ]
          ≡ closed_if (has_ended r) m
    by_end none = refl
    by_end (some _) = refl
