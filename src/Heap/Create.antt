-- ===== src/Heap/Create.antt =====
-- heap_create: which regions it takes, and the heap that it makes.
use bimble_os.Common.{
  ℕ, zero, suc, ◌-◌, ◌/◌, ◌%◌, ◌≤◌, ◌<◌, ◌≡◌, ◌↔◌, refl, sym, ap, ◌∙◌, List, [], ◌∷◌, arith, length,
  replicate, length-replicate,
}
use bimble_os.Common.Status.{done}
use bimble_os.Heap.{Heap, HeapTable, block_size, clear_entries, heap_create}
use bimble_os.Heap.Chunks.{frees, encode-frees}
use bimble_os.Heap.Malloc.{IsHeap}

clear_entries_all : (es : List ℕ) (n : ℕ) → n ≡ length es → clear_entries n es ≡ replicate n 0
unfolding clear_entries
clear_entries_all [] zero e = refl
clear_entries_all [] (suc n) e = absurd (omega arith)
clear_entries_all (x ∷ es) zero e = absurd (omega arith)
clear_entries_all (x ∷ es) (suc n) e = ap (λ l. 0 ∷ l) (clear_entries_all es n (omega arith))

-- `heap_create` succeeds exactly when both ends of the region are multiples of the block size and the
-- table has an entry for each block, if the region lies in the lower half of the address space.
pub heap_create-done :
    (h : Heap) (ptr end : ℕ) (table : HeapTable)
    → ptr ≤ end
    → end < 0x8000_0000
    → ((heap_create h ptr end table).0 ≡ done) ↔ (
        (ptr % block_size ≡ 0)
        × (end % block_size ≡ 0)
        × (table.total_entries ≡ (end - ptr) / block_size))
unfolding heap_create
heap_create-done h ptr end table order half = (ground arith, ground arith)

created :
    (h : Heap) (ptr end : ℕ) (table : HeapTable)
    → (heap_create h ptr end table).0 ≡ done
    → (heap_create h ptr end table).1 ≡ record {
      table = record table { entries = clear_entries table.total_entries table.entries };
      saddr = ptr;
    }
unfolding heap_create
created h ptr end table e = ground arith

-- The heap that a successful `heap_create` makes: every block is free.
pub heap_create-IsHeap :
    (h : Heap) (ptr end : ℕ) (table : HeapTable)
    → 0 < ptr
    → ptr ≤ end
    → end < 0x8000_0000
    → length table.entries ≡ table.total_entries
    → (heap_create h ptr end table).0 ≡ done
    → IsHeap (heap_create h ptr end table).1 (frees table.total_entries)
heap_create-IsHeap h ptr end table pos order half size e =
    let n = table.total_entries in
    let count = (heap_create-done h ptr end table order half).0 e in
    rw (created h ptr end table e) (record {
      entries = clear_entries_all table.entries n (sym size) ∙ sym (encode-frees n);
      total = sym (ap length (encode-frees n) ∙ length-replicate n 0);
      start = pos;
      end = omega (arith, count.0, count.1, count.2);
    })
