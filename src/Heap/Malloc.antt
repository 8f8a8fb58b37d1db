-- ===== src/Heap/Malloc.antt =====
-- heap_malloc and heap_free against the view of the heap as a sequence of chunks.
use mathlib.Core.Path.{subst}
use bimble_os.Common.{
  ℕ, zero, suc, ◌+◌, ◌-◌, ◌*◌, ◌≤◌, ◌<◌, ◌≡◌, refl, sym, ap, ◌∙◌, some, List, [], ◌∷◌, ◌++◌, arith,
  length, take, replicate, length-append, length-replicate,
}
use bimble_os.Common.Word.{word_size}
use bimble_os.Heap.{
  Heap, block_size, with_entries, heap_get_entry_type, heap_block_to_address, heap_get_start_block,
  heap_mark_blocks_taken, heap_malloc_blocks, heap_malloc, heap_free,
}
use bimble_os.Heap.Align.{blocks_for, blocks_for_lem}
use bimble_os.Heap.Chunks.{
  Chunk, taken, entries_of, encode, frees, encode-append, encode-frees, length-entries_of, Split,
  FreeRun-Split, get_or-skip,
}
use bimble_os.Heap.Free.{heap_address_to_block_lem, heap_mark_blocks_free_lem}
use bimble_os.Heap.Search.{IsFree, FreeRun, table_entries, heap_get_start_block_lem}
use bimble_os.Heap.Taken.{heap_mark_blocks_taken_lem}

-- The heap stands for the chunks, starts behind address 0 and ends in the lower half of the address
-- space.
pub record IsHeap (h : Heap) (cs : List Chunk) : Type 0 where
  pub entries : h.table.entries ≡ encode cs
  pub total : h.table.total_entries ≡ length (encode cs)
  pub start : 0 < h.saddr
  pub end : h.saddr + h.table.total_entries * block_size ≤ 0x8000_0000

take-length : (xs : List ℕ) (n : ℕ) → n ≡ length xs → take n xs ≡ xs
take-length [] zero e = refl
take-length [] (suc n) e = refl
take-length (x ∷ xs) zero e = absurd (omega arith)
take-length (x ∷ xs) (suc n) e = ap (λ l. x ∷ l) (take-length xs n (omega arith))

pub table_entries-encode : {h : Heap} (cs : List Chunk) → IsHeap h cs → table_entries h ≡ encode cs
table_entries-encode {h} cs v =
    ap (take (h.table.total_entries)) v.entries ∙ take-length (encode cs) _ v.total

-- A run of free chunks is a run of free entries.
run_of_zeros : (n : ℕ) (ys : List ℕ) (i : ℕ) → i < n → IsFree (replicate n 0 ++ ys) i
unfolding heap_get_entry_type
run_of_zeros zero ys i h = absurd (omega arith)
run_of_zeros (suc n) ys zero h = refl
run_of_zeros (suc n) ys (suc i) h = run_of_zeros n ys i (omega arith)

encode_run :
    (pre post : List Chunk) (n : ℕ)
    → encode (pre ++ (frees n ++ post)) ≡ encode pre ++ (replicate n 0 ++ encode post)
encode_run pre post n =
    encode-append pre (frees n ++ post)
    ∙ ap (λ l. encode pre ++ l)
        (encode-append (frees n) post ∙ ap (λ l. l ++ encode post) (encode-frees n))

encode_taken :
    (pre post : List Chunk) (k : ℕ)
    → encode (pre ++ (taken k ∷ post)) ≡ encode pre ++ (entries_of (taken k) ++ encode post)
encode_taken pre post k = encode-append pre (taken k ∷ post)

frees-FreeRun :
    (pre post : List Chunk) (n : ℕ)
    → FreeRun (encode (pre ++ (frees n ++ post))) (length (encode pre)) (length (encode pre) + n)
frees-FreeRun pre post n i lo hi =
    let at : i ≡ length (encode pre) + (i - length (encode pre)) = omega arith in
    rw
      (
        encode_run pre post n,
        at,
        get_or-skip (encode pre) (replicate n 0 ++ encode post) (i - length (encode pre)),
      )
      (run_of_zeros n (encode post) (i - length (encode pre)) (omega arith))

-- The size of a table before and after.
pub length_run :
    (pre post : List Chunk) (n : ℕ)
    → length (encode (pre ++ (frees n ++ post))) ≡ length (encode pre) + (n + length (encode post))
length_run pre post n =
    ap length (encode_run pre post n)
    ∙ omega (
      arith,
      length-append (encode pre) (replicate n 0 ++ encode post),
      length-append (replicate n 0) (encode post),
      length-replicate {A = ℕ} n 0,
    )

length_taken :
    (pre post : List Chunk) (k : ℕ)
    → length (encode (pre ++ (taken k ∷ post)))
      ≡ length (encode pre) + (suc k + length (encode post))
length_taken pre post k =
    ap length (encode_taken pre post k)
    ∙ omega (
      arith,
      length-append (encode pre) (entries_of (taken k) ++ encode post),
      length-append (entries_of (taken k)) (encode post),
      length-entries_of k,
    )

with_entries-IsHeap :
    {h : Heap} {cs : List Chunk} (cs' : List Chunk) (es : List ℕ)
    → IsHeap h cs
    → es ≡ encode cs'
    → length (encode cs) ≡ length (encode cs')
    → IsHeap (with_entries h es) cs'
with_entries-IsHeap cs' es v e size = record {
  entries = e;
  total = v.total ∙ size;
  start = v.start;
  end = v.end;
}

-- What an allocation of `k + 1` blocks does: it takes the place of `k + 1` free chunks, of which the
-- first is at a block that is not behind `limit`.
pub record Allocated (h : Heap) (cs : List Chunk) (k limit : ℕ) (out : ℕ × Heap) : Type 0 where
  pub pre : List Chunk
  pub post : List Chunk
  pub before : cs ≡ pre ++ (frees (suc k) ++ post)
  pub first : length (encode pre) ≤ limit
  pub address : out.0 ≡ h.saddr + length (encode pre) * block_size
  pub after : IsHeap (out.1) (pre ++ (taken k ∷ post))
  pub undo : heap_free (out.1) (out.0) ≡ h

pub malloc_blocks_at :
    (h : Heap) (n s : ℕ)
    → heap_get_start_block h n ≡ some s
    → heap_malloc_blocks h n ≡ (heap_block_to_address h s, heap_mark_blocks_taken h s n)
unfolding heap_malloc_blocks
malloc_blocks_at h n s e = rw (e, heap_malloc_blocks)

pub address_at :
    {h : Heap} {cs : List Chunk} (s : ℕ)
    → IsHeap h cs
    → s < length (encode cs)
    → heap_block_to_address h s ≡ h.saddr + s * block_size
unfolding heap_block_to_address
address_at {h} s v inside = omega (arith, v.total, v.end)

-- `heap_free` at the first block of an allocation makes its blocks free, if the heap stands for the
-- chunks.
pub heap_free-taken :
    {h : Heap} (pre post : List Chunk) (k : ℕ)
    → IsHeap h (pre ++ (taken k ∷ post))
    → heap_free h (h.saddr + length (encode pre) * block_size)
      ≡ with_entries h (encode (pre ++ (frees (suc k) ++ post)))
unfolding heap_free
heap_free-taken {h} pre post k v =
    let size = length_taken pre post k in
    let place =
      heap_address_to_block_lem h (length (encode pre)) (omega (arith, v.total, v.end))
        (omega (arith, v.total, v.end)) in
    rw place (
      heap_mark_blocks_free_lem h k (length (encode pre)) (encode pre) (encode post)
        (v.entries ∙ encode_taken pre post k) refl (omega (arith, v.total)))
    ∙ ap (with_entries h) (sym (encode_run pre post (suc k)))

-- The block table after `heap_mark_blocks_taken` at a run of free chunks.
mark_run :
    {h : Heap} (pre post : List Chunk) (k : ℕ)
    → IsHeap h (pre ++ (frees (suc k) ++ post))
    → heap_mark_blocks_taken h (length (encode pre)) (suc k)
      ≡ with_entries h (encode (pre ++ (taken k ∷ post)))
mark_run {h} pre post k v =
    heap_mark_blocks_taken_lem h k (length (encode pre)) (encode pre) (encode post)
      (v.entries ∙ encode_run pre post (suc k)) refl
      (omega (arith, v.total, v.end, length_run pre post (suc k)))
    ∙ ap (with_entries h) (sym (encode_taken pre post k))

malloc_Allocated :
    {h : Heap} (pre post : List Chunk) (k limit : ℕ) (out : ℕ × Heap)
    → IsHeap h (pre ++ (frees (suc k) ++ post))
    → length (encode pre) ≤ limit
    → out ≡ (
      heap_block_to_address h (length (encode pre)),
      heap_mark_blocks_taken h (length (encode pre)) (suc k),
    )
    → Allocated h (pre ++ (frees (suc k) ++ post)) k limit out
malloc_Allocated {h} pre post k limit out v first e =
    let size = length_run pre post (suc k) in
    let address = address_at (length (encode pre)) v (omega (arith, v.total, size)) in
    let marked = mark_run pre post k v in
    let h' : Heap = with_entries h (encode (pre ++ (taken k ∷ post))) in
    let out' : out ≡ (h.saddr + length (encode pre) * block_size, h') =
      e ∙ (λ i. (address i, marked i)) in
    let after : IsHeap h' (pre ++ (taken k ∷ post)) =
      with_entries-IsHeap (pre ++ (taken k ∷ post)) _ v refl
        (omega (arith, size, length_taken pre post k)) in
    rw out' (record {
      pre = pre;
      post = post;
      before = refl;
      first = first;
      address = refl;
      after = after;
      undo = heap_free-taken pre post k after ∙ ap (with_entries h) (sym v.entries);
    })

malloc_from :
    {h : Heap} (cs : List Chunk) (k s limit : ℕ)
    → IsHeap h cs
    → s ≤ limit
    → heap_get_start_block h (suc k) ≡ some s
    → Split cs s (suc k)
    → Allocated h cs k limit (heap_malloc_blocks h (suc k))
malloc_from {h} cs k s limit v first e sp =
    subst (λ c. Allocated h c k limit (heap_malloc_blocks h (suc k))) (sym sp.shape)
      (malloc_Allocated sp.pre sp.post k limit _ (subst (IsHeap h) sp.shape v)
        (omega (arith, sp.place))
        (malloc_blocks_at h (suc k) s e
          ∙ ap (λ b. (heap_block_to_address h b, heap_mark_blocks_taken h b (suc k)))
              (sym sp.place)))

-- Where `k + 1` blocks hold the size and as many free chunks follow one another, `heap_malloc` finds
-- the first such run that is not behind them, makes it an allocation, and returns its address; and
-- `heap_free` of that address gives back the heap as it was.
pub heap_malloc_lem :
    {h : Heap} (pre post : List Chunk) (k size : ℕ)
    → IsHeap h (pre ++ (frees (suc k) ++ post))
    → size ≤ word_size - block_size
    → blocks_for size ≡ suc k
    → Allocated h (pre ++ (frees (suc k) ++ post)) k (length (encode pre)) (heap_malloc h size)
unfolding heap_malloc
heap_malloc_lem {h} pre post k size v small blocks =
    let cs = pre ++ (frees (suc k) ++ post) in
    let table = table_entries-encode cs v in
    let (s, e, early, fits, run) =
      heap_get_start_block_lem h (suc k) (length (encode pre)) (omega arith)
        (rw table (frees-FreeRun pre post (suc k)))
        (rw table (omega (arith, length_run pre post (suc k)))) in
    let split = FreeRun-Split cs s (suc k) (omega arith) (rw table at run) (rw table at fits) in
    let found = malloc_from cs k s (length (encode pre)) v early e split in
    rw (blocks_for_lem size small, blocks) found

-- `heap_free` at the address of an allocation makes each of its blocks free, and keeps every other
-- chunk of the heap, allocated or free, as it is.
pub heap_free_lem :
    {h : Heap} (pre post : List Chunk) (k : ℕ)
    → IsHeap h (pre ++ (taken k ∷ post))
    → IsHeap
        (heap_free h (h.saddr + length (encode pre) * block_size))
        (pre ++ (frees (suc k) ++ post))
heap_free_lem {h} pre post k v = rw (heap_free-taken pre post k v) (
    with_entries-IsHeap (pre ++ (frees (suc k) ++ post)) _ v refl
      (omega (arith, length_run pre post (suc k), length_taken pre post k)))
