-- ===== src/Core/Loading.antt =====
-- `createProcess` (src/kernel/core.c) copies a program's words from the disk to its partition.
use project_lucario.Base.{
  ℕ, zero, suc, ◌+◌, ◌≤◌, ◌<◌, ◌≡◌, refl, ◌⊎◌, inl, ap, ◌∙◌, arith, update, List,
}
use project_lucario.Base.Int.{ℤ, pos}
use project_lucario.Machine.{Machine, Text, MemoryStatus, mem_success, ram_size}
use project_lucario.Memory.{dma_write_memory}
use project_lucario.Vfs.{Host, Place, next_place, linear, total_disk_sectors, write_words}
use project_lucario.Vfs.Places.{IsPlace}
use project_lucario.Vfs.Storage.{place_after, word_at, scanned, write_words_lem}
use project_lucario.Core.{load_words}
use project_lucario.Context.Stack.{add32_pos}

dma_write_memory_at :
    (b : ℕ) (w : ℤ) (m : Machine)
    → b < ram_size
    → dma_write_memory (pos b) w m ≡ (mem_success, record m { ram = update m.ram b w })
unfolding dma_write_memory
dma_write_memory_at b w m h = ground arith

module _ (n b : ℕ) (p : Place) (m : Machine) (h : b < ram_size) where
  -- One round of the loop.
  load_words_step :
      load_words (suc n) (pos b) p m
      ≡ load_words n
          (pos (suc b))
          (next_place p)
          (record m { ram = update m.ram b (word_at m.disk p) })
  unfolding load_words
  load_words_step =
      ap (λ z. load_words n z (next_place p) (dma_write_memory (pos b) (word_at m.disk p) m).1)
        (add32_pos b 1 (omega arith) ∙ ap pos (omega arith))
      ∙ ap (λ (x : MemoryStatus × Machine). load_words n (pos (suc b)) (next_place p) x.1)
          (dma_write_memory_at b (word_at m.disk p) m h)

-- The copy of a program that fits RAM changes no cell before its target or behind its last word.
pub load_words_outside :
    (n b j : ℕ) (p : Place) (m : Machine)
    → b + n ≤ ram_size
    → (j < b) ⊎ (b + n ≤ j)
    → (load_words n (pos b) p m).ram j ≡ m.ram j
load_words_outside zero b j p m h out = unfold load_words in refl
load_words_outside (suc n) b j p m h out =
    ap (λ (x : Machine). x.ram j) (load_words_step n b p m (omega arith))
    ∙ load_words_outside n (suc b) j (next_place p)
        (record m { ram = update m.ram b (word_at m.disk p) }) (omega arith) (omega arith)
    ∙ ground arith

-- The copied words: cell `b + i` holds what the sector `i` places after the first holds, for every
-- word of a program that fits RAM.
pub load_words_lem :
    (n b i : ℕ) (p : Place) (m : Machine)
    → b + n ≤ ram_size
    → i < n
    → (load_words n (pos b) p m).ram (b + i) ≡ word_at m.disk (place_after i p)
load_words_lem zero b i p m h lt = absurd (omega arith)
load_words_lem (suc n) b zero p m h lt =
    ap (λ (x : Machine). x.ram (b + 0)) (load_words_step n b p m (omega arith))
    ∙ load_words_outside n (suc b) (b + 0) (next_place p)
        (record m { ram = update m.ram b (word_at m.disk p) }) (omega arith) (inl (omega arith))
    ∙ ground arith
load_words_lem (suc n) b (suc i) p m h lt =
    ap (λ (x : Machine). x.ram (b + suc i)) (load_words_step n b p m (omega arith))
    ∙ ap
        (λ j.
          (load_words n (pos (suc b)) (next_place p)
              (record m { ram = update m.ram b (word_at m.disk p) })).ram
            j)
        (omega arith)
    ∙ load_words_lem n (suc b) i (next_place p)
        (record m { ram = update m.ram b (word_at m.disk p) }) (omega arith) (omega arith)

-- A program written to the disk and copied from there to RAM arrives word by word as the host's file
-- holds it, where it fits both.
pub load_words-write_words :
    (host : Host) (n b i : ℕ) (lines : List Text) (p : Place) (m : Machine)
    → IsPlace p
    → linear p + n ≤ total_disk_sectors
    → b + n ≤ ram_size
    → i < n
    → (load_words n (pos b) p (record m { disk = (write_words host n lines p m.disk).1 })).ram
        (b + i)
      ≡ scanned host i lines
load_words-write_words host n b i lines p m v fits room h =
    load_words_lem n b i p (record m { disk = (write_words host n lines p m.disk).1 }) room h
    ∙ write_words_lem host n i lines p m.disk v fits h
