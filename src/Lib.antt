-- ===== src/Lib.antt =====
-- The virtual machine and minikernel of Project Lucario.
--
-- The program is a virtual computer of decimal words and a small kernel on it. The processor
-- (src/hardware/cpu.c) fetches words through the memory's protection (src/hardware/memory.c), decodes
-- and executes them, counts cycles, and handles at most one pending interrupt a cycle. The DMA
-- controller (src/hardware/dma.c) copies one word between RAM and the disk (src/hardware/disk.c). The
-- kernel keeps a table of twenty processes: src/kernel/core.c creates and ends them,
-- src/kernel/mmu.c gives out runs of partitions, src/kernel/scheduler.c chooses the next process,
-- src/kernel/syscalls.c serves its calls, and src/kernel/vfs.c keeps the catalogue of the programs on
-- the disk. The console (src/console.c) reads the user's commands, shows reports, and has a monitor
-- for the numbers that programs print and read; src/logger.c keeps two log files, and src/main.c
-- starts the parts.
--
-- The global variables of the C code are the fields of one record, `Machine` (Machine/State), and
-- those of the file system the record `Vfs` (Vfs). An operation is a function from the state to the
-- state with a status, under the C name in snake case. RAM, the disk and the tables are functions of
-- the index.
--
-- Base: numbers, integers with the 32-bit sums of the code, and functions changed at an index.
-- Machine: the constants, codes, records and registers of inc/definitions.h.
-- Words: wordToInt and intToWord of cpu.c. Memory: memory.c, with the memory that a program sees in
-- Memory/Refinement. Disk: disk.c. Dma: one round of the loop of dma.c. Interrupt: raising of
-- interrupts, of cpu.c.
-- Cpu: the instruction handlers of cpu.c, one module for each, up to `execute`. The properties of
-- whole instructions stand in Alu, Isolation and Geometry.
-- Context: the stack and the saved context of cpu.c. Step: the interrupts, the system calls as the
-- program meets them and the step of cpu.c, and the round of the worker of core.c.
-- Mmu: mmu.c. Scheduler: scheduler.c. Syscalls: syscalls.c and the monitor's history of console.c.
-- Vfs: vfs.c, with the store of programs that it stands for in Vfs/Store. Core: the creation of
-- processes of core.c, as one function, and in Core/Phases in steps that others may interrupt.
-- Threads: the worker's thread of core.c.
-- Console: console.c, the parser of a line (Console/Parsing), the commands (Console/Commands), the
-- figures of the reports (Console/Reports, Console/Screens), the loops (Console/Interaction), and the
-- modes of the terminal (Console/Tty).
-- Logger: logger.c. Program: main.c.
-- Kernel: the parts together. Kernel/Owners has the invariant of the process table and the partition
-- table, Kernel/Steps the steps of the system as a relation, Kernel/Interleaving the turns of a creation
-- and the other threads, and the other modules what each kind of step does to the tables and to memory.
-- Tests: concrete machines, and the theorems at them.
--
-- Bounds: a loop over a table runs for the table's size, and the loops that copy a program run for
-- its word count, as in the code; the loops that wait for the outside (the worker's, the debugger's,
-- the monitor's and the console's) run over the list of what they meet. No function has other fuel.
-- What comes from outside is a parameter: the host's files and sscanf (`Host`), the lines and keys
-- typed and the state of the terminal (`Terminal`), the time, the success of `fopen` and of the
-- thread's calls, and the values of the local variables that the code reads uninitialised (`Outside`).
--
-- Not modelled: the layout of what is printed; the calls of the logger in the other parts, which
-- write to the log files alone; mutexes, the condition variable of the DMA controller and the delays
-- (the steps of the threads are taken in any order, and each round of a thread, each line of the
-- console and each of the steps into which Core/Phases cuts a creation is atomic); the flag that
-- keeps the monitor off the keyboard while a program reads; and what the threads still do after the
-- console has returned; the unit tests and their framework (lib/utest.h), which is a copy of another
-- project's. The bits of the interrupt bitmap that stand for no interrupt are left out, since the
-- code never sets them.
pub mod Base
pub mod Machine
pub mod Words
pub mod Memory
pub mod Interrupt
pub mod Disk
pub mod Dma
pub mod Cpu
pub mod Mmu
pub mod Scheduler
pub mod Context
pub mod Syscalls
pub mod Step
pub mod Vfs
pub mod Core
pub mod Console
pub mod Logger
pub mod Threads
pub mod Program
pub mod Alu
pub mod Isolation
pub mod Geometry
pub mod Tests
pub mod Kernel
