-- ===== src/Heap/Tests.antt =====
-- Runs of the heap's functions, and the theorems about them at concrete heaps.
use bimble_os.Common.{
  zero, suc, ◌+◌, ◌*◌, ◌≤◌, ◌<◌, ◌≡◌, refl, List, [], ◌∷◌, ◌++◌, arith, if◌then◌else◌,
}
use bimble_os.Heap.{Heap, HeapTable, heap_get_entry_type, block_size, heap_malloc, heap_free}
use bimble_os.Heap.Chunks.{Chunk, free, taken, frees}
use bimble_os.Heap.Kernel.{Kernel, heap_address, kzalloc, kzalloc_lem}
use bimble_os.Heap.Malloc.{IsHeap, Allocated, heap_malloc_lem, heap_free_lem}
use bimble_os.Heap.Search.{FreeRun, table_entries}
use bimble_os.Heap.Short.{heap_malloc_short}
use bimble_os.Memory.Laws.{within}

-- An allocation of two blocks and two free blocks.
abbrev half_used : Heap
half_used = record {
  table = record { entries = 0xc1 ∷ 0x01 ∷ 0x00 ∷ 0x00 ∷ []; total_entries = 4 };
  saddr = heap_address;
}

abbrev half_chunks : List Chunk
half_chunks = taken 1 ∷ free ∷ free ∷ []

half_used-IsHeap : IsHeap half_used half_chunks
half_used-IsHeap = record { entries = refl; total = refl; start = omega arith; end = omega arith }

malloc_runs : heap_malloc half_used 5000 ≡ (
  0x0100_2000,
  record half_used {
    table = record { entries = 0xc1 ∷ 0x01 ∷ 0xc1 ∷ 0x01 ∷ []; total_entries = 4 };
  },
)
unfolding heap_malloc
malloc_runs = refl

free_runs : (heap_free half_used heap_address).table.entries ≡ 0 ∷ 0 ∷ 0 ∷ 0 ∷ []
unfolding heap_free
free_runs = refl

-- Three blocks are asked for and two are left.
short_runs : (heap_malloc half_used 12288).0 ≡ 0x0100_2000
unfolding heap_malloc
short_runs = refl

half_run : FreeRun (table_entries half_used) 2 (2 + 2)
unfolding heap_get_entry_type
half_run zero lo hi = absurd (omega arith)
half_run (suc zero) lo hi = absurd (omega arith)
half_run (suc (suc zero)) lo hi = refl
half_run (suc (suc (suc zero))) lo hi = refl
half_run (suc (suc (suc (suc i)))) lo hi = absurd (omega arith)

heap_malloc_example : Allocated half_used half_chunks 1 2 (heap_malloc half_used 5000)
heap_malloc_example = heap_malloc_lem (taken 1 ∷ []) [] 1 5000 half_used-IsHeap (omega arith) refl

heap_free_example :
    IsHeap (heap_free half_used (heap_address + 0 * block_size)) (frees 2 ++ (free ∷ free ∷ []))
heap_free_example = heap_free_lem [] (free ∷ free ∷ []) 1 half_used-IsHeap

no_three : (pre post : List Chunk) → half_chunks ≡ pre ++ (frees 3 ++ post) → ⊥
no_three [] post e = cc
no_three (a ∷ []) post e = cc
no_three (a ∷ b ∷ []) post e = cc
no_three (a ∷ b ∷ c ∷ []) post e = cc
no_three (a ∷ b ∷ c ∷ d ∷ pre) post e = cc

heap_malloc_short_example :
    (heap_address ≤ (heap_malloc half_used 12288).0)
    × ((heap_malloc half_used 12288).0 < heap_address + 4 * block_size)
    × (heap_address + 4 * block_size < (heap_malloc half_used 12288).0 + 12288)
heap_malloc_short_example =
    heap_malloc_short (taken 1 ∷ free ∷ []) 2 12288 half_used-IsHeap (omega arith) refl no_three

abbrev two_blocks : HeapTable
two_blocks = record { entries = 9 ∷ 9 ∷ []; total_entries = 2 }

abbrev start : Kernel
start = record { heap = half_used; mem = λ a. 7 }

kzalloc_example :
    Allocated half_used half_chunks 1 2 ((kzalloc 5000 start).0, (kzalloc 5000 start).1.heap)
    × ((kzalloc 5000 start).1.mem 0x0100_2001
        ≡ (if within (kzalloc 5000 start).0 5000 0x0100_2001 then 0 else 7))
kzalloc_example =
    kzalloc_lem start (taken 1 ∷ []) [] 1 5000 0x0100_2001 half_used-IsHeap (omega arith) refl
