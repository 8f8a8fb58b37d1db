-- ===== src/Heap/Taken.antt =====
-- heap_mark_blocks_taken on a run of free entries makes it an allocation.
use mathlib.Core.List.{append_assoc}
use bimble_os.Common.{
  ℕ, zero, suc, ◌+◌, ◌-◌, ◌≤◌, ◌≡◌, refl, sym, ap, ◌∙◌, List, [], ◌∷◌, ◌++◌, arith, length, set,
  bit_or, replicate, length-append, length-replicate, get_or-append, set-append, replicate_snoc,
}
use bimble_os.Common.Word.{word_size, sub32}
use bimble_os.Heap.{Heap, with_entries, or_entry, mark_loop, heap_mark_blocks_taken}
use bimble_os.Heap.Chunks.{taken, entries_of}

-- `entries[i] |= mask` behind a prefix.
or_entry_lem :
    (pre : List ℕ) (x : ℕ) (ys : List ℕ) (i mask : ℕ)
    → i ≡ length pre
    → or_entry (pre ++ (x ∷ ys)) i mask ≡ pre ++ (bit_or x mask ∷ ys)
unfolding or_entry
or_entry_lem pre x ys i mask h =
    rw (get_or-append pre x ys i 0 h) (set-append pre x ys i (bit_or x mask) h)

length-snoc : (pre : List ℕ) (x i : ℕ) → i ≡ length pre → i + 1 ≡ length (pre ++ (x ∷ []))
length-snoc pre x i h = omega (arith, length-append pre (x ∷ []))

mark_loop_lem :
    (n : ℕ) (pre ys : List ℕ) (i : ℕ)
    → i ≡ length pre
    → mark_loop n i (pre ++ (replicate n 0 ++ ys)) ≡ pre ++ (replicate n 0x81 ++ ys)
unfolding mark_loop
mark_loop_lem zero pre ys i h = refl
mark_loop_lem (suc n) pre ys i h = rw (or_entry_lem pre 0 (replicate n 0 ++ ys) i 0x81 h) (
    ap (mark_loop n (i + 1)) (sym (append_assoc pre (0x81 ∷ []) (replicate n 0 ++ ys)))
    ∙ mark_loop_lem n (pre ++ (0x81 ∷ [])) ys (i + 1) (length-snoc pre 0x81 i h)
    ∙ append_assoc pre (0x81 ∷ []) (replicate n 0x81 ++ ys))

-- The loop from the first entry of the allocation, marked as such.
mark_first :
    (j : ℕ) (pre ys : List ℕ) (i : ℕ)
    → i ≡ length pre
    → mark_loop (suc j) i (pre ++ (0x40 ∷ (replicate j 0 ++ ys)))
      ≡ pre ++ (0xc1 ∷ (replicate j 0x81 ++ ys))
unfolding mark_loop
mark_first j pre ys i h = rw (or_entry_lem pre 0x40 (replicate j 0 ++ ys) i 0x81 h) (
    ap (mark_loop j (i + 1)) (sym (append_assoc pre (0xc1 ∷ []) (replicate j 0 ++ ys)))
    ∙ mark_loop_lem j (pre ++ (0xc1 ∷ [])) ys (i + 1) (length-snoc pre 0xc1 i h)
    ∙ append_assoc pre (0xc1 ∷ []) (replicate j 0x81 ++ ys))

-- The last entry.
mark_last :
    (j : ℕ) (pre ys : List ℕ) (i : ℕ)
    → i ≡ length pre
    → or_entry (pre ++ (0xc1 ∷ (replicate j 0x81 ++ (0 ∷ ys)))) (i + suc j) 0x01
      ≡ pre ++ (entries_of (taken (suc j)) ++ ys)
mark_last j pre ys i h =
    ap (λ l. or_entry l (i + suc j) 0x01) (sym (append_assoc pre front (0 ∷ ys)))
    ∙ or_entry_lem (pre ++ front) 0 ys (i + suc j) 0x01 size
    ∙ append_assoc pre front (0x01 ∷ ys)
    ∙ ap (λ l. pre ++ (0xc1 ∷ l)) (sym (append_assoc (replicate j 0x81) (0x01 ∷ []) ys))
  where
    front : List ℕ
    front = 0xc1 ∷ replicate j 0x81

    size : i + suc j ≡ length (pre ++ front)
    size = omega (arith, length-append pre front, length-replicate {A = ℕ} j 0x81)

mark_entries : ℕ → ℕ → List ℕ → List ℕ
mark_entries start end es = or_entry (mark_loop (end - start) start (set es start 0x40)) end 0x01

mark_entries_lem :
    (k : ℕ) (pre ys : List ℕ) (start : ℕ)
    → start ≡ length pre
    → mark_entries start (start + k) (pre ++ (replicate (suc k) 0 ++ ys))
      ≡ pre ++ (entries_of (taken k) ++ ys)
unfolding mark_entries
mark_entries_lem zero pre ys start h =
    let e : start + 0 ≡ start = omega arith in
    let none : start - start ≡ 0 = omega arith in
    rw (e, none, set-append pre 0 ys start 0x40 h)
      (unfold mark_loop in or_entry_lem pre 0x40 ys start 0x01 h)
mark_entries_lem (suc j) pre ys start h =
    let rounds : start + suc j - start ≡ suc j = omega arith in
    rw
      (
        rounds,
        set-append pre 0 (0 ∷ (replicate j 0 ++ ys)) start 0x40 h,
        ← replicate_snoc j 0 ys,
        mark_first j pre (0 ∷ ys) start h,
      )
      (mark_last j pre ys start h)

mark_entries_of :
    (h : Heap) (start total : ℕ)
    → heap_mark_blocks_taken h start total
      ≡ with_entries h (mark_entries start (sub32 (start + total) 1) h.table.entries)
unfolding heap_mark_blocks_taken mark_entries
mark_entries_of h start total = refl

-- `heap_mark_blocks_taken` on the first of `k + 1` free entries gives the table in which these
-- are the entries of one allocation, and leaves every other entry as it is.
pub heap_mark_blocks_taken_lem :
    (h : Heap) (k start : ℕ) (pre ys : List ℕ)
    → h.table.entries ≡ pre ++ (replicate (suc k) 0 ++ ys)
    → start ≡ length pre
    → start + suc k ≤ word_size
    → heap_mark_blocks_taken h start (suc k) ≡ with_entries h (pre ++ (entries_of (taken k) ++ ys))
heap_mark_blocks_taken_lem h k start pre ys e place small =
    let last : sub32 (start + suc k) 1 ≡ start + k = omega arith in
    let inner : mark_entries start (sub32 (start + suc k) 1) h.table.entries
        ≡ pre ++ (entries_of (taken k) ++ ys) =
      rw (last, e) (mark_entries_lem k pre ys start place) in
    mark_entries_of h start (suc k) ∙ ap (with_entries h) inner
