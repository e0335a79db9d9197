-- ===== src/Scheduler/Waiting.antt =====
-- How long a process waits (src/kernel/scheduler.c): a READY one for its turn, and a sleeping one for
-- its last tic.
use project_lucario.Base.{ℕ, zero, suc, ◌≤◌, ◌<◌, ◌≡◌, arith, true, some, inl, inr, ◌≢◌}
use project_lucario.Base.Int.{pos}
use project_lucario.Machine.{Machine, max_processes, is_ready, blocked}
use project_lucario.Scheduler.{scheduler_tick}
use project_lucario.Scheduler.RoundRobin.{distance, scheduler_tick_fair}

-- A number of ticks.
abbrev pub ticks : ℕ → Machine → Machine
ticks zero m = m
ticks (suc n) m = ticks n (scheduler_tick m)

-- A READY process runs after at most as many ticks as its place in the search.
turn_comes :
    (d : ℕ) (m : Machine) (p : ℕ)
    → p < max_processes
    → is_ready (m.table p).state ≡ true
    → distance m.current p < d
    → (n : ℕ) × (n ≤ d) × ((ticks n m).current ≡ some p)
turn_comes zero m p h r lt = absurd (omega arith)
turn_comes (suc d) m p h r lt = elim (scheduler_tick_fair m p h r) [
  | inl now ↦ (1, omega arith, now)
  | inr (still, nearer) ↦
      let (n, le, runs) = turn_comes d (scheduler_tick m) p h still (omega arith) in
      (suc n, omega arith, runs)
]

-- Among twenty ticks in a row there is one that runs a given READY process, whatever the other
-- entries hold.
pub ticks-runs :
    (m : Machine) (p : ℕ)
    → p < max_processes
    → is_ready (m.table p).state ≡ true
    → (n : ℕ) × (n ≤ max_processes) × ((ticks n m).current ≡ some p)
ticks-runs m p h r = turn_comes max_processes m p h r (omega arith)

-- A sleeping process that is not the current one, with its last tics.
pub record IsAsleep (n p : ℕ) (m : Machine) : Type 0 where
  pub state : (m.table p).state ≡ blocked
  pub tics : (m.table p).sleep_tics ≡ pos n
  pub other : m.current ≢ some p
