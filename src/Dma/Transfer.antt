-- ===== src/Dma/Transfer.antt =====
-- One round of the DMA controller moves one word (src/hardware/dma.c).
use project_lucario.Base.{ℕ, ◌<◌, ◌≡◌, arith, true, false, update}
use project_lucario.Base.Int.{pos}
use project_lucario.Machine.{Machine, ic_io_done, ic_invalid_addr, ram_size}
use project_lucario.Memory.{is_physical_address_valid, dma_read_memory, dma_write_memory}
use project_lucario.Disk.{set_sector}
use project_lucario.Interrupt.{set_bit}
use project_lucario.Dma.{dma_round}

-- With direction 0 and an address in RAM the sector's word arrives in RAM; the status is 0, the
-- request is done, and the completion interrupt is pending. Nothing else changes.
dma_round_to_ram :
    (m : Machine) (a : ℕ)
    → m.dma.io_direction ≡ 0
    → m.dma.mem_addr ≡ pos a
    → a < ram_size
    → dma_round m ≡ record m {
      ram = update m.ram a (m.disk m.dma.track m.dma.cylinder m.dma.sector);
      dma = record m.dma { status = 0; active = false; pending = false };
      pending = set_bit ic_io_done true m.pending;
    }
unfolding dma_round dma_write_memory
dma_round_to_ram m a d e h = ground arith

-- With direction 1 the cell's word arrives in the sector, in the same way.
dma_round_to_disk :
    (m : Machine) (a : ℕ)
    → m.dma.io_direction ≡ 1
    → m.dma.mem_addr ≡ pos a
    → a < ram_size
    → dma_round m ≡ record m {
      disk = set_sector m.dma.track m.dma.cylinder m.dma.sector (m.ram a) m.disk;
      dma = record m.dma { status = 0; active = false; pending = false };
      pending = set_bit ic_io_done true m.pending;
    }
unfolding dma_round dma_read_memory
dma_round_to_disk m a d e h = ground arith

-- With an address outside RAM neither RAM nor the disk changes, the status is 1, and the address
-- fault is pending.
dma_round_fails :
    (m : Machine)
    → is_physical_address_valid m.dma.mem_addr ≡ false
    → dma_round m ≡ record m {
      dma = record m.dma { status = 1; active = false; pending = false };
      pending = set_bit ic_invalid_addr true m.pending;
    }
unfolding dma_round dma_read_memory dma_write_memory
dma_round_fails m h = ground arith
