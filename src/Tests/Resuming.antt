-- ===== src/Tests/Resuming.antt =====
-- The theorem on a process that gets the processor back, at a concrete machine.
use project_lucario.Base.{
  ◌≡◌, refl, ap, ◌∙◌, arith, Bool, true, false, some, update, ◌==◌, Bool-cases, inl, inr,
}
use project_lucario.Base.Int.{pos, negsuc, tdiv, tmod, add32, ◌+ℤ◌}
use project_lucario.Machine.{
  Machine, ProcessTable, executing, ready, zero_cpu, ic_timer, Cpu, Outside, InterruptCode,
}
use project_lucario.Memory.{read_memory, is_valid_instruction}
use project_lucario.Interrupt.{set_bit, any_pending}
use project_lucario.Mmu.{Partitions}
use project_lucario.Cpu.{
  fetch, decode, execute, execute_arithmetic, fetch_operand, calculate_effective_address,
}
use project_lucario.Words.{int_to_word, word_to_int}
use project_lucario.Context.Saving.{HasRoom, saved}
use project_lucario.Scheduler.{
  scheduler_tick, find_ready, suspend_current, wake_all, each_process, unblock_one, wake_one,
  suspend,
}
use project_lucario.Step.{
  worker_round, cpu_step, tick_timer, service, check_interrupts, highest, set_yield,
}
use project_lucario.Step.Timer.{service-timer}
use project_lucario.Kernel.Owners.{IsSound}
use project_lucario.Kernel.Resuming.{away, worker_round-yields, worker_round-resumes}
use project_lucario.Tests.{user_machine, free_pcb, quiet}

-- Process 1 runs in block 0 with the timer's interrupt pending; process 4, in block 5, is READY, and
-- will stop at its first fetch.
abbrev two_owners : ProcessTable
two_owners =
    update
      (update (λ _. free_pcb) 4
        (record free_pcb {
          state = ready;
          pid = pos 8;
          start_block = pos 5;
          block_count = pos 1;
          context = record zero_cpu { rl = negsuc 0 };
        }))
      1 (record free_pcb { state = executing; pid = pos 7; block_count = pos 1 })

abbrev two_blocks : Partitions
two_blocks = update (update (λ _. true) 0 false) 5 false

abbrev timed_machine : Machine
timed_machine = record user_machine {
  pending = set_bit ic_timer true (λ _. false);
  table = two_owners;
  free_partitions = two_blocks;
}

timed_machine-IsSound : IsSound timed_machine
timed_machine-IsSound = record {
  partitioned = record {
    runs = λ j h l. record {
      start = ground arith;
      count = ground arith;
      some_block = ground arith;
      inside = ground arith;
    };
    occupied = λ j b h l owns. ground arith;
    disjoint = λ i j b hi hj li lj bi bj. ground arith;
    no_leak = λ b h taken. elim (Bool-cases (b == 0)) [
      | inl e ↦ (1, omega arith, refl, ground arith)
      | inr ne ↦ (4, omega arith, refl, ground arith)
    ];
  };
  running = (omega arith, refl);
}

-- The machine in which the step handles the interrupt.
abbrev stepped : Machine
stepped =
    let fetched = (fetch timed_machine).1 in
    tick_timer (execute quiet (decode fetched.cpu.ir) fetched).1

stepped-HasRoom : HasRoom 300 384 77 stepped
unfolding tick_timer execute decode tdiv fetch read_memory add32 ◌+ℤ◌ execute_arithmetic
    fetch_operand tmod calculate_effective_address int_to_word word_to_int is_valid_instruction
stepped-HasRoom = record {
  place = record { user = refl; base = refl; limit = refl; inside = omega arith };
  stack = refl;
  fits = omega arith;
  ac = refl;
  rx = refl;
  pc = refl;
  code = ground arith;
}

checked : cpu_step quiet timed_machine ≡ check_interrupts quiet stepped
unfolding cpu_step fetch read_memory add32 ◌+ℤ◌
checked = refl

enabled : stepped.cpu.psw.interrupt_enable ≡ true
unfolding tick_timer execute decode tdiv fetch read_memory add32 ◌+ℤ◌ execute_arithmetic
    fetch_operand tmod calculate_effective_address int_to_word word_to_int is_valid_instruction
enabled = refl

timer_pending : (any_pending stepped.pending ≡ true) × (highest stepped.pending ≡ ic_timer)
unfolding tick_timer execute decode tdiv fetch read_memory add32 ◌+ℤ◌ execute_arithmetic
    fetch_operand tmod calculate_effective_address int_to_word word_to_int is_valid_instruction
    highest
timer_pending = (refl, refl)

check_interrupts-service :
    (o : Outside) (m : Machine) {c : InterruptCode}
    → m.cpu.psw.interrupt_enable ≡ true
    → any_pending m.pending ≡ true
    → highest m.pending ≡ c
    → check_interrupts o m ≡ service c o m
unfolding check_interrupts
check_interrupts-service o m e p h = rw (e, p, h) refl

abbrev serviced : Machine
serviced = record stepped {
  ram = (saved 300 77 stepped).ram;
  pending = set_bit ic_timer false stepped.pending;
  os_yield = true;
}

step-serviced : cpu_step quiet timed_machine ≡ (true, serviced)
step-serviced =
    checked
    ∙ check_interrupts-service quiet stepped enabled timer_pending.0 timer_pending.1
    ∙ service-timer quiet 300 384 77 stepped stepped-HasRoom enabled

-- The two rounds that follow, from any machine with these tables.
module _ (cpu : Cpu) (x : Machine) where
  abbrev suspending : Machine
  suspending = record x {
    cpu = cpu;
    table = two_owners;
    free_partitions = two_blocks;
    current = some 1;
    monitor_active = true;
  }

  tick-other : (scheduler_tick suspending).current ≡ some 4
  unfolding scheduler_tick find_ready suspend_current wake_all each_process unblock_one wake_one
      suspend
  tick-other = refl

  round-back : (worker_round quiet (scheduler_tick suspending)).current ≡ some 1
  unfolding worker_round scheduler_tick find_ready suspend_current wake_all each_process unblock_one
      wake_one suspend cpu_step fetch read_memory add32 ◌+ℤ◌
  round-back = refl

abbrev other_runs : Machine
other_runs = scheduler_tick (set_yield false serviced)

round-other : worker_round quiet timed_machine ≡ other_runs
round-other =
    worker_round-yields quiet 1 timed_machine refl (ap (λ r. r.0) step-serviced)
      (ap (λ r. r.1.os_yield) step-serviced)
    ∙ ap (λ (r : Bool × Machine). scheduler_tick (set_yield false r.1)) step-serviced

suspends : set_yield false serviced ≡ suspending serviced.cpu (set_yield false serviced)
unfolding tick_timer execute decode tdiv fetch read_memory add32 ◌+ℤ◌ execute_arithmetic
    fetch_operand tmod calculate_effective_address int_to_word word_to_int
suspends = refl

other-current : other_runs.current ≡ some 4
other-current =
    ap (λ (x : Machine). (scheduler_tick x).current) suspends
    ∙ tick-other serviced.cpu (set_yield false serviced)

back : (worker_round quiet other_runs).current ≡ some 1
back =
    ap (λ (x : Machine). (worker_round quiet (scheduler_tick x)).current) suspends
    ∙ round-back serviced.cpu (set_yield false serviced)

worker_round-resumes_example :
    (worker_round quiet (worker_round quiet timed_machine)).cpu
    ≡ (cpu_step quiet timed_machine).1.cpu
worker_round-resumes_example =
    worker_round-resumes quiet quiet 1 timed_machine timed_machine-IsSound refl
      (ap (λ r. r.0) step-serviced) (ap (λ r. r.1.os_yield) step-serviced)
      (away (ground (arith, other-current, ap (λ (x : Machine). x.current) round-other)))
      (ap (λ (x : Machine). (worker_round quiet x).current) round-other ∙ back)
