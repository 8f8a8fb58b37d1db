-- ===== src/Paging/Create.antt =====
-- paging_new, paging_free and paging_switch: page directories and the heap that they are made from.
use bimble_os.Common.{ℕ, zero, suc, ◌+◌, ◌*◌, bit_and, bit_or}
use bimble_os.Common.Word.{add32}
use bimble_os.Heap.Kernel.{Kernel, kzalloc, kfree}
use bimble_os.Memory.{Mem, load32, store32}
use bimble_os.Paging.{page_size, total_entries_per_table, page_mask, word_at}

-- `struct PageDirectory_4GB` at the address `chunk`, with its one field. NULL is the chunk 0.
pub record PageDirectory : Type 0 where
  pub chunk : ℕ
  pub directory_entry : ℕ

-- The loop over `j` that fills a table, with the rounds left.
unfoldable pub fill_table : ℕ → ℕ → ℕ → ℕ → ℕ → Mem → Mem
fill_table zero j entry offset flags m = m
fill_table (suc n) j entry offset flags m =
    fill_table n (j + 1) entry offset flags
      (store32 m (word_at entry j) (add32 offset (bit_or (j * page_size) flags)))

-- One round of the loop over the tables.
unfoldable pub new_table : ℕ → ℕ → ℕ → ℕ → Kernel → Kernel
new_table directory flags i offset k =
    let (entry, k') = kzalloc (4 * total_entries_per_table) k in
    let filled = fill_table total_entries_per_table 0 entry offset flags (k'.mem) in
    record k' { mem = store32 filled (word_at directory i) (bit_or (bit_or entry flags) 0x02) }

-- The loop over the tables from index `i` on, with the rounds left. A table that could not be
-- allocated is written at address 0.
unfoldable pub new_tables : ℕ → ℕ → ℕ → ℕ → ℕ → Kernel → Kernel
new_tables zero directory flags i offset k = k
new_tables (suc n) directory flags i offset k =
    new_tables n directory flags (i + 1) (add32 offset (page_size * total_entries_per_table))
      (new_table directory flags i offset k)

-- `sizeof(struct PageDirectory_4GB)` is 4.
unfoldable pub paging_new : ℕ → Kernel → PageDirectory × Kernel
paging_new flags k =
    let (directory, k') = kzalloc (4 * total_entries_per_table) k in
    let made = new_tables total_entries_per_table directory flags 0 0 k' in
    let (page_directory, k'') = kzalloc 4 made in
    (
      record { chunk = page_directory; directory_entry = directory },
      record k'' { mem = store32 (k''.mem) page_directory directory },
    )

-- The directory that the processor uses and `current_directory` hold.
unfoldable pub paging_switch : PageDirectory → ℕ
paging_switch directory = directory.directory_entry

-- The loop over the entries from `i` on, with the rounds left.
unfoldable pub free_tables : ℕ → ℕ → ℕ → Kernel → Kernel
free_tables zero i directory k = k
free_tables (suc n) i directory k =
    let entry = load32 (k.mem) (word_at directory i) in
    free_tables n (i + 1) directory (kfree (bit_and entry page_mask) k)

unfoldable pub paging_free : PageDirectory → Kernel → Kernel
unfolding free_tables
paging_free chunk k =
    kfree chunk.chunk (kfree chunk.directory_entry (free_tables 1024 0 chunk.directory_entry k))
