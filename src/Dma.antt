-- ===== src/Dma.antt =====
-- The DMA controller (src/hardware/dma.c): one round of the worker thread's loop, from the moment
-- that it finds a request pending. `DMA.track` and the others are `uint8_t`; the worker reaches DISK
-- with them unchecked.
pub mod Transfer
use project_lucario.Base.{ℕ, Bool, true, false, Option, none, some, ◌==◌, if◌then◌else◌}
use project_lucario.Base.Int.{ℤ}
use project_lucario.Machine.{
  Machine, Dma, zero_dma, MemoryStatus, mem_success, ic_invalid_addr, ic_io_done,
}
use project_lucario.Memory.{dma_read_memory, dma_write_memory}
use project_lucario.Disk.{set_sector}
use project_lucario.Interrupt.{raise_interrupt}

abbrev pub set_dma : Dma → Machine → Machine
set_dma d m = record m { dma = d }

-- The word read goes to the disk, if the read succeeded.
unfoldable pub store_on_disk : MemoryStatus × Option ℤ → Machine → MemoryStatus × Machine
store_on_disk (status, some word) m =
    (status, record m { disk = set_sector m.dma.track m.dma.cylinder m.dma.sector word m.disk })
store_on_disk (status, none) m = (status, m)

-- The copy in the direction that the controller was given.
unfoldable pub dma_copy : Machine → MemoryStatus × Machine
unfolding store_on_disk
dma_copy m =
    let d = m.dma in
    if d.io_direction == 1
    then store_on_disk (dma_read_memory m d.mem_addr) m
    else dma_write_memory d.mem_addr (m.disk d.track d.cylinder d.sector) m

-- The status register and the interrupt that a copy ends with.
unfoldable pub dma_finish : MemoryStatus × Machine → Machine
dma_finish (mem_success, m) = raise_interrupt ic_io_done m
dma_finish (_, m) = raise_interrupt ic_invalid_addr (set_dma (record m.dma { status = 1 }) m)

unfoldable pub dma_round : Machine → Machine
unfolding dma_copy dma_finish
dma_round m =
    let started = set_dma (record m.dma { status = 0; active = true }) m in
    let ended = dma_finish (dma_copy started) in
    set_dma (record ended.dma { active = false; pending = false }) ended

unfoldable pub dma_reset : Machine → Machine
dma_reset m = set_dma zero_dma m
