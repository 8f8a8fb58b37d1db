-- ===== src/Heap/Short.antt =====
-- heap_malloc where no run of free blocks is long enough: the run at the table's end is returned.
use bimble_os.Common.{
  ℕ, suc, ◌+◌, ◌-◌, ◌*◌, ◌≤◌, ◌<◌, min, ◌≡◌, refl, ◌∙◌, Option, none, some, List, [], ◌∷◌, ◌++◌,
  arith, length, ◌==◌, ltb, Bool-cases, inl, inr,
}
use bimble_os.Common.Word.{word_size}
use bimble_os.Heap.{
  Heap, block_size, entry_free, heap_get_entry_type, scan, heap_get_start_block, heap_malloc,
}
use bimble_os.Heap.Align.{blocks_for, blocks_for_lem}
use bimble_os.Heap.Chunks.{Chunk, free, encode, frees, encode-append, FreeRun-Split}
use bimble_os.Heap.Malloc.{IsHeap, table_entries-encode, malloc_blocks_at, address_at}
use bimble_os.Heap.Search.{FreeRun, scan_busy, scan_free, first_block, heap_get_start_block-Sound}

-- A table whose last entry is free gives some block.
scan_last :
    (es : List ℕ) (x i count : ℕ) (start : Option ℕ) (total : ℕ)
    → heap_get_entry_type x ≡ entry_free
    → (s : ℕ) × (scan (es ++ (x ∷ [])) i count start total ≡ some s)
unfolding scan
scan_last [] x i count start total h =
    rw (scan_free x [] i count start total h) (elim (Bool-cases (count + 1 == total)) [
      | inl e ↦ rw e (first_block start i, refl)
      | inr e ↦ rw e (first_block start i, refl)
    ])
scan_last (y ∷ es) x i count start total h =
    elim (Bool-cases (heap_get_entry_type y == entry_free)) [
      | inr busy ↦
          rw (scan_busy y (es ++ (x ∷ [])) i count start total busy)
            (scan_last es x (i + 1) 0 none total h)
      | inl idle ↦
          rw (scan_free y (es ++ (x ∷ [])) i count start total (ground arith))
            (elim (Bool-cases (count + 1 == total)) [
              | inl e ↦ rw e (first_block start i, refl)
              | inr e ↦
                  rw e (scan_last es x (i + 1) (count + 1) (some (first_block start i)) total h)
            ])
    ]

-- The table of a heap whose last block is free.
encode-snoc : (cs : List Chunk) → encode (cs ++ (free ∷ [])) ≡ encode cs ++ (0 ∷ [])
encode-snoc cs = encode-append cs (free ∷ [])

short_start :
    {h : Heap} (cs : List Chunk) (total : ℕ)
    → IsHeap h (cs ++ (free ∷ []))
    → (s : ℕ) × (heap_get_start_block h total ≡ some s)
unfolding heap_get_start_block heap_get_entry_type
short_start {h} cs total v =
    let table = table_entries-encode (cs ++ (free ∷ [])) v ∙ encode-snoc cs in
    rw table (scan_last (encode cs) 0 0 0 none total refl)

-- Where the heap's last block is free and no `k + 1` free blocks follow one another, `heap_malloc` of
-- a size that takes `k + 1` blocks returns an address in the heap from which `size` bytes reach behind
-- the heap's end.
pub heap_malloc_short :
    {h : Heap} (cs : List Chunk) (k size : ℕ)
    → IsHeap h (cs ++ (free ∷ []))
    → size ≤ word_size - block_size
    → blocks_for size ≡ suc k
    → ((pre post : List Chunk) → cs ++ (free ∷ []) ≡ pre ++ (frees (suc k) ++ post) → ⊥)
    → (h.saddr ≤ (heap_malloc h size).0)
      × ((heap_malloc h size).0 < h.saddr + h.table.total_entries * block_size)
      × (h.saddr + h.table.total_entries * block_size < (heap_malloc h size).0 + size)
unfolding heap_malloc
heap_malloc_short {h} cs k size v small blocks no_run =
    let all = cs ++ (free ∷ []) in
    let table = table_entries-encode all v in
    let (s, e) = short_start cs (suc k) v in
    let sound = heap_get_start_block-Sound h (suc k) s (omega arith) e in
    let inside : s < length (encode all) = rw table at sound.0 in
    let run : FreeRun (encode all) s (min (s + suc k) (length (encode all))) =
      rw table at sound.1 in
    let address = address_at s v inside in
    let long : length (encode all) < s + suc k =
      elim (Bool-cases (ltb (length (encode all)) (s + suc k))) [
        | inl lt ↦ ground arith
        | inr ge ↦
            let fits : s + suc k ≤ length (encode all) = ground arith in
            let split =
              FreeRun-Split all s (suc k) (omega arith) (λ i lo hi. run i lo (omega arith)) fits in
            absurd (no_run split.pre split.post split.shape)
      ] in
    rw (blocks_for_lem size small, blocks, malloc_blocks_at h (suc k) s e)
      (omega (arith, address, v.total))
