-- ===== src/Kernel/Start.antt =====
-- The process that `createProcess` (src/kernel/core.c) leaves in the tables when it succeeds: its blocks,
-- their size, and the registers that it starts with.
use project_lucario.Base.{
  ℕ, ◌+◌, ◌-◌, ◌*◌, ◌≤◌, ◌<◌, ◌≡◌, ◌≢◌, refl, sym, ap, ◌∙◌, subst, arith, true, false, ◌&&◌, Option,
  some, ltb, leb, update_ne, update_self, if◌then◌else◌,
}
use project_lucario.Base.Int.{ℤ, pos, add32, sub32, int32, tdiv, ◌+ℤ◌, ◌-ℤ◌}
use project_lucario.Machine.{
  Machine, Pcb, ProcessTable, Text, os_success, is_finished, ready, mode_user, max_processes,
  min_stack_size, partition_size, os_reserved_size,
}
use project_lucario.Mmu.{Partitions, calculate_required_blocks}
use project_lucario.Mmu.FirstFit.{AllFree, allocate_memory_sound}
use project_lucario.Vfs.{Host, FileMeta, vfs_get_metadata, copy_name, total_disk_sectors}
use project_lucario.Core.{System, create_process, initial_context}
use project_lucario.Kernel.Creation.{IsCreated, created_entry, create_process-CreatesFrom}

-- A run of `n` blocks from `start` on has been taken for `w` words and the smallest stack: it was free,
-- lies in the table, is the shortest that holds them, and no other block has changed.
pub record TakesRun (w start n : ℕ) (free free' : Partitions) : Type 0 where
  pub was_free : AllFree n start free
  pub inside : start + n ≤ max_processes
  pub enough : w + min_stack_size ≤ n * partition_size
  pub shortest : n * partition_size < w + min_stack_size + partition_size
  pub taken : (j : ℕ) → free' j ≡ (if leb start j && ltb j (start + n) then false else free j)

-- The entry of a process that is to start in that run.
pub record Starts (w start n : ℕ) (pid : ℤ) (meta : FileMeta) (p : Pcb) : Type 0 where
  pub state : p.state ≡ ready
  pub number : p.pid ≡ pid
  pub name : p.program_name ≡ copy_name meta.program_name
  pub run : (p.start_block ≡ pos start) × (p.block_count ≡ pos n)
  pub first_cell : p.context.rb ≡ pos (os_reserved_size + start * partition_size)
  pub last_cell : p.context.rl ≡ pos (os_reserved_size + (start + n) * partition_size - 1)
  pub stack : p.context.rb +ℤ p.context.sp ≡ p.context.rl
  pub words : p.context.rx ≡ pos w
  pub counter : p.context.psw.pc ≡ sub32 meta.start_pc (pos 1)
  pub user : p.context.psw.mode ≡ mode_user
  pub interruptible : p.context.psw.interrupt_enable ≡ true

shortest_run :
    (w n : ℕ)
    → w ≤ total_disk_sectors
    → calculate_required_blocks (pos w) ≡ pos n
    → 1 ≤ n
    → (w + min_stack_size ≤ n * partition_size)
      × (n * partition_size < w + min_stack_size + partition_size)
unfolding calculate_required_blocks add32 sub32 int32 ◌+ℤ◌ ◌-ℤ◌ tdiv
shortest_run w n few e least = (ground arith, ground arith)

same_entry : {a b : FileMeta} → some a ≡ some b → a ≡ b
same_entry e = cc

created_entry-Starts :
    (w start n : ℕ) (pid : ℤ) (meta : FileMeta)
    → meta.word_count ≡ pos w
    → 1 ≤ n
    → Starts w start n pid meta (created_entry start n pid meta)
unfolding initial_context ◌+ℤ◌
created_entry-Starts w start n pid meta e least = record {
  state = refl;
  number = refl;
  name = refl;
  run = (refl, refl);
  first_cell = ap pos (omega arith);
  last_cell = ap pos (omega arith);
  stack = ground arith;
  words = e;
  counter = refl;
  user = refl;
  interruptible = refl;
}

module _ (k w : ℕ) (meta : FileMeta) (m m' : Machine) (e : meta.word_count ≡ pos w)
    (few : w ≤ total_disk_sectors) (c : IsCreated k meta m m') where
  takes_run : TakesRun w c.start c.count m.free_partitions m'.free_partitions
  takes_run =
      let found = allocate_memory_sound c.count m.free_partitions c.least c.most c.allocated in
      let size =
        shortest_run w c.count few (ap (λ z. calculate_required_blocks z) (sym e) ∙ c.required)
          c.least in
      record {
        was_free = found.0;
        inside = found.1;
        enough = size.0;
        shortest = size.1;
        taken = λ j. ap (λ (t : ProcessTable × Partitions × Option ℕ). t.1 j) c.result ∙ found.2 j;
      }

  starts : Starts w c.start c.count m.next_pid meta (m'.table k)
  starts =
      subst (Starts w c.start c.count m.next_pid meta)
        (sym (
          ap (λ (t : ProcessTable × Partitions × Option ℕ). t.0 k) c.result
          ∙ update_self m.table k (created_entry c.start c.count m.next_pid meta)))
        (created_entry-Starts w c.start c.count m.next_pid meta e c.least)

  others : (j : ℕ) → j ≢ k → m'.table j ≡ m.table j
  others j ne =
      ap (λ (t : ProcessTable × Partitions × Option ℕ). t.0 j) c.result ∙ update_ne m.table k _ j ne

-- When `createProcess` succeeds, an entry that was FINISHED holds a READY process with the next PID, of
-- the program that the catalogue has under the name. It has a run of blocks that were free, the
-- shortest that holds the program's words and the smallest stack; these blocks are taken, and no
-- other block or entry has changed. The process starts in user mode with interrupts enabled, with RB
-- and RL at the first and the last cell of the run, with the stack pointer at the last cell, the
-- number of words in RX, and the program counter one before the program's start. The catalogue gives
-- the program no more words than the disk has sectors.
pub create_process-Starts :
    (host : Host) (name : Text) (w : ℕ) (meta : FileMeta) (s : System)
    → (create_process host name s).0 ≡ os_success
    → vfs_get_metadata name (create_process host name s).1.vfs ≡ some meta
    → meta.word_count ≡ pos w
    → w ≤ total_disk_sectors
    → (k : ℕ) × (start : ℕ) × (n : ℕ) × (k < max_processes)
      × (is_finished (s.machine.table k).state ≡ true)
      × TakesRun w start n s.machine.free_partitions
          (create_process host name s).1.machine.free_partitions
      × Starts w start n s.machine.next_pid meta ((create_process host name s).1.machine.table k)
      × ((j : ℕ) → j ≢ k → (create_process host name s).1.machine.table j ≡ s.machine.table j)
create_process-Starts host name w meta s done found e few =
    let (k, h, fin, (meta', found', c')) = create_process-CreatesFrom host name s done in
    let m' = (create_process host name s).1.machine in
    let same : meta' ≡ meta = same_entry (sym found' ∙ found) in
    let c : IsCreated k meta s.machine m' = subst (λ r. IsCreated k r s.machine m') same c' in
    (
      k,
      c.start,
      c.count,
      h,
      fin,
      takes_run k w meta s.machine m' e few c,
      starts k w meta s.machine m' e few c,
      others k w meta s.machine m' e few c,
    )
