-- ===== src/Machine/Registers.antt =====
-- Assignments to one register: `CPU.AC = v` and the like.
use project_lucario.Base.{ℕ, Bool}
use project_lucario.Base.Int.{ℤ}
use project_lucario.Machine.Codes.{ConditionCode, OpMode}
use project_lucario.Machine.State.{Machine}

abbrev pub set_ac : ℤ → Machine → Machine
set_ac v m = record m { cpu = record m.cpu { ac = v } }

abbrev pub set_sp : ℤ → Machine → Machine
set_sp v m = record m { cpu = record m.cpu { sp = v } }

abbrev pub set_rx : ℤ → Machine → Machine
set_rx v m = record m { cpu = record m.cpu { rx = v } }

abbrev pub set_rb : ℤ → Machine → Machine
set_rb v m = record m { cpu = record m.cpu { rb = v } }

abbrev pub set_rl : ℤ → Machine → Machine
set_rl v m = record m { cpu = record m.cpu { rl = v } }

abbrev pub set_timer_limit : ℕ → Machine → Machine
set_timer_limit v m = record m { cpu = record m.cpu { timer_limit = v } }

abbrev pub set_cycles_counter : ℕ → Machine → Machine
set_cycles_counter v m = record m { cpu = record m.cpu { cycles_counter = v } }

abbrev pub set_pc : ℤ → Machine → Machine
set_pc v m = record m { cpu = record m.cpu { psw = record m.cpu.psw { pc = v } } }

abbrev pub set_mode : OpMode → Machine → Machine
set_mode v m = record m { cpu = record m.cpu { psw = record m.cpu.psw { mode = v } } }

abbrev pub set_cc : ConditionCode → Machine → Machine
set_cc v m = record m { cpu = record m.cpu { psw = record m.cpu.psw { condition_code = v } } }

abbrev pub set_interrupt_enable : Bool → Machine → Machine
set_interrupt_enable v m = record m {
  cpu = record m.cpu { psw = record m.cpu.psw { interrupt_enable = v } };
}
