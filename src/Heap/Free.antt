-- ===== src/Heap/Free.antt =====
-- heap_mark_blocks_free and heap_free: an allocation becomes free blocks, and an address outside the
-- heap changes nothing.
use mathlib.Core.List.{append_assoc}
use bimble_os.Common.{
  ℕ, zero, suc, ◌+◌, ◌-◌, ◌*◌, ◌≤◌, ◌<◌, ◌≡◌, refl, ap, ◌∙◌, List, [], ◌∷◌, ◌++◌, arith, length,
  bit_and, ◌⊎◌, replicate, length-append, get_or-append, set-append,
}
use bimble_os.Common.Word.{word_size}
use bimble_os.Heap.{
  Heap, block_size, with_entries, free_loop, heap_address_to_block, heap_mark_blocks_free,
  heap_free,
}
use bimble_os.Heap.Chunks.{taken, entries_of}

length-snoc : (pre : List ℕ) (x i : ℕ) → i ≡ length pre → i + 1 ≡ length (pre ++ (x ∷ []))
length-snoc pre x i h = omega (arith, length-append pre (x ∷ []))

-- One round at an entry that has a next one.
free_next :
    (n : ℕ) (pre ys : List ℕ) (x i : ℕ)
    → bit_and x 0x80 ≡ 0x80
    → i ≡ length pre
    → free_loop (suc n) i (pre ++ (x ∷ ys)) ≡ free_loop n (i + 1) ((pre ++ (0 ∷ [])) ++ ys)
unfolding free_loop
free_next n pre ys x i next h =
    rw (get_or-append pre x ys i 0 h, next, set-append pre x ys i 0 h, append_assoc pre (0 ∷ []) ys)

-- One round at the last entry of an allocation.
free_last :
    (n : ℕ) (pre ys : List ℕ) (x i : ℕ)
    → bit_and x 0x80 ≡ 0
    → i ≡ length pre
    → free_loop (suc n) i (pre ++ (x ∷ ys)) ≡ pre ++ (0 ∷ ys)
unfolding free_loop
free_last n pre ys x i last h = rw (get_or-append pre x ys i 0 h, last, set-append pre x ys i 0 h)

free_tail :
    (j n : ℕ) (pre ys : List ℕ) (i : ℕ)
    → j < n
    → i ≡ length pre
    → free_loop n i (pre ++ (replicate j 0x81 ++ (0x01 ∷ ys))) ≡ pre ++ (replicate (suc j) 0 ++ ys)
free_tail j zero pre ys i fuel h = absurd (omega arith)
free_tail zero (suc n) pre ys i fuel h = free_last n pre ys 0x01 i refl h
free_tail (suc j) (suc n) pre ys i fuel h =
    free_next n pre (replicate j 0x81 ++ (0x01 ∷ ys)) 0x81 i refl h
    ∙ free_tail j n (pre ++ (0 ∷ [])) ys (i + 1) (omega arith) (length-snoc pre 0 i h)
    ∙ append_assoc pre (0 ∷ []) (replicate (suc j) 0 ++ ys)

free_loop_lem :
    (k n : ℕ) (pre ys : List ℕ) (i : ℕ)
    → k < n
    → i ≡ length pre
    → free_loop n i (pre ++ (entries_of (taken k) ++ ys)) ≡ pre ++ (replicate (suc k) 0 ++ ys)
free_loop_lem k zero pre ys i fuel h = absurd (omega arith)
free_loop_lem zero (suc n) pre ys i fuel h = free_last n pre ys 0x41 i refl h
free_loop_lem (suc j) (suc n) pre ys i fuel h =
    ap (λ l. free_loop (suc n) i (pre ++ (0xc1 ∷ l)))
      (append_assoc (replicate j 0x81) (0x01 ∷ []) ys)
    ∙ free_next n pre (replicate j 0x81 ++ (0x01 ∷ ys)) 0xc1 i refl h
    ∙ free_tail j n (pre ++ (0 ∷ [])) ys (i + 1) (omega arith) (length-snoc pre 0 i h)
    ∙ append_assoc pre (0 ∷ []) (replicate (suc j) 0 ++ ys)

-- The block of an address within the heap.
pub heap_address_to_block_lem :
    (h : Heap) (block : ℕ)
    → h.saddr + block * block_size < word_size
    → block * block_size < 0x8000_0000
    → heap_address_to_block h (h.saddr + block * block_size) ≡ block
unfolding heap_address_to_block
heap_address_to_block_lem h block small half = ground arith

pub heap_mark_blocks_free_lem :
    (h : Heap) (k block : ℕ) (pre ys : List ℕ)
    → h.table.entries ≡ pre ++ (entries_of (taken k) ++ ys)
    → block ≡ length pre
    → block + suc k ≤ h.table.total_entries
    → heap_mark_blocks_free h block ≡ with_entries h (pre ++ (replicate (suc k) 0 ++ ys))
unfolding heap_mark_blocks_free
heap_mark_blocks_free_lem h k block pre ys e place inside = ap (with_entries h) (
    ap (free_loop (h.table.total_entries - block) block) e
    ∙ free_loop_lem k (h.table.total_entries - block) pre ys block (omega arith) place)

outside_rounds :
    (h : Heap) (ptr : ℕ)
    → h.saddr + h.table.total_entries * block_size ≤ 0x8000_0000
    → ptr < 0x8000_0000
    → (ptr + block_size ≤ h.saddr) ⊎ (h.saddr + h.table.total_entries * block_size ≤ ptr)
    → h.table.total_entries - heap_address_to_block h ptr ≡ 0
unfolding heap_address_to_block
outside_rounds h ptr small low out = ground arith

-- `heap_free` of an address below 2 ^ 31 that lies 4096 bytes or more below the heap, or not below its
-- end, leaves a heap that ends below 2 ^ 31 as it is. NULL is such an address.
pub heap_free_outside :
    (h : Heap) (ptr : ℕ)
    → h.saddr + h.table.total_entries * block_size ≤ 0x8000_0000
    → ptr < 0x8000_0000
    → (ptr + block_size ≤ h.saddr) ⊎ (h.saddr + h.table.total_entries * block_size ≤ ptr)
    → heap_free h ptr ≡ h
unfolding heap_free
heap_free_outside h ptr small low out =
    ap (λ n. with_entries h (free_loop n (heap_address_to_block h ptr) h.table.entries))
      (outside_rounds h ptr small low out)
