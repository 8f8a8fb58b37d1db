-- ===== src/Heap.antt =====
-- memory/heap/heap.c: the block allocator behind the kernel's `malloc`. A `struct heap` is a record;
-- `struct heap_table` is held in it by value, its `entries` as the list of the bytes of the table. A
-- write behind the table's last byte, which `mark_blocks_taken` may make, changes nothing here.
-- `void *` is an address, NULL is 0, and each function that changes the heap returns the new one.
pub mod Allocator
pub mod Align
pub mod Blocks
pub mod Chunks
pub mod Create
pub mod Free
pub mod Kernel
pub mod Malloc
pub mod Sample
pub mod Search
pub mod Short
pub mod Small
pub mod Taken
mod Tests
use bimble_os.Common.{
  ℕ, zero, suc, ◌+◌, ◌-◌, ◌*◌, ◌/◌, ◌%◌, bit_and, bit_or, Bool, ◌||◌, Option, none, some, List, [],
  ◌∷◌, ◌==◌, leb, if◌then◌else◌, get_or, set, take,
}
use mathlib.Core.Bool.{not}
use bimble_os.Common.Status.{Status, done, ok, err, einvarg}
use bimble_os.Common.Word.{word_size, add32, sub32, mul32, sdiv32}

abbrev pub block_size : ℕ
block_size = 4096

-- HEAP_BLOCK_TABLE_ENTRY_TAKEN, HEAP_BLOCK_TABLE_ENTRY_FREE, HEAP_BLOCK_HAS_NEXT, HEAP_BLOCK_IS_FIRST
abbrev pub entry_taken : ℕ
entry_taken = 0x01

abbrev pub entry_free : ℕ
entry_free = 0x00

abbrev pub has_next : ℕ
has_next = 0x80

abbrev pub is_first : ℕ
is_first = 0x40

pub record HeapTable : Type 0 where
  pub entries : List ℕ
  pub total_entries : ℕ

pub record Heap : Type 0 where
  pub table : HeapTable
  pub saddr : ℕ

-- `end - ptr` is an `int`; the comparison with a `size_t` is between the bit patterns.
unfoldable pub heap_validate_table : ℕ → ℕ → HeapTable → Status
heap_validate_table ptr end table =
    let table_size = sub32 end ptr in
    let total_blocks = sdiv32 table_size block_size in
    if total_blocks == table.total_entries then done else err einvarg

unfoldable pub heap_validate_alignment : ℕ → Bool
heap_validate_alignment ptr = ptr % block_size == 0

unfoldable pub heap_align_value_to_upper : ℕ → ℕ
heap_align_value_to_upper size =
    if size % block_size == 0 then size else add32 (size - size % block_size) block_size

-- `memset` of the first `n` bytes of the table to HEAP_BLOCK_TABLE_ENTRY_FREE.
unfoldable pub clear_entries : ℕ → List ℕ → List ℕ
clear_entries zero es = es
clear_entries (suc n) [] = []
clear_entries (suc n) (e ∷ es) = entry_free ∷ clear_entries n es

-- The heap that is passed in is overwritten once the addresses are known to be aligned.
unfoldable pub heap_create : Heap → ℕ → ℕ → HeapTable → Status × Heap
unfolding heap_validate_alignment heap_validate_table clear_entries
heap_create heap ptr end table =
    if not (heap_validate_alignment ptr) || not (heap_validate_alignment end)
    then (err einvarg, heap)
    else elim (heap_validate_table ptr end table) [
      | err e ↦ (err e, record { table = table; saddr = ptr })
      | ok _ ↦ (
        done,
        record {
          table = record table { entries = clear_entries table.total_entries table.entries };
          saddr = ptr;
        },
      )
    ]

unfoldable pub heap_get_entry_type : ℕ → ℕ
heap_get_entry_type entry = bit_and entry 0x0f

unfoldable pub heap_block_to_address : Heap → ℕ → ℕ
heap_block_to_address heap block = add32 heap.saddr (mul32 block block_size)

-- `entries[i] |= mask`.
unfoldable pub or_entry : List ℕ → ℕ → ℕ → List ℕ
or_entry es i mask = set es i (bit_or (get_or es i 0) mask)

-- The loop of `heap_mark_blocks_taken`, with the rounds left.
unfoldable pub mark_loop : ℕ → ℕ → List ℕ → List ℕ
unfolding or_entry
mark_loop zero i es = es
mark_loop (suc n) i es = mark_loop n (i + 1) (or_entry es i (bit_or entry_taken has_next))

abbrev pub with_entries : Heap → List ℕ → Heap
with_entries heap es = record heap { table = record (heap.table) { entries = es } }

unfoldable pub heap_mark_blocks_taken : Heap → ℕ → ℕ → Heap
unfolding mark_loop or_entry
heap_mark_blocks_taken heap start_block total_blocks =
    let end_block = sub32 (start_block + total_blocks) 1 in
    let first = set heap.table.entries start_block is_first in
    let looped = mark_loop (end_block - start_block) start_block first in
    with_entries heap (or_entry looped end_block entry_taken)

-- The loop of `heap_get_start_block` over the entries from `i` on; `none` is the -1 of `blockStart`.
unfoldable pub scan : List ℕ → ℕ → ℕ → Option ℕ → ℕ → Option ℕ
unfolding heap_get_entry_type
scan [] i count start total = start
scan (e ∷ es) i count start total =
    let restart = scan es (i + 1) 0 none total in
    let start' : Option ℕ = elim start [ none ↦ some i | some s ↦ some s ] in
    let next = scan es (i + 1) (count + 1) start' total in
    if heap_get_entry_type e == entry_free
    then (if count + 1 == total then start' else next)
    else restart

-- `none` is -ENOMEM.
unfoldable pub heap_get_start_block : Heap → ℕ → Option ℕ
unfolding scan
heap_get_start_block heap total_blocks =
    scan (take heap.table.total_entries heap.table.entries) 0 0 none total_blocks

unfoldable pub heap_malloc_blocks : Heap → ℕ → ℕ × Heap
unfolding heap_get_start_block heap_mark_blocks_taken heap_block_to_address
heap_malloc_blocks heap total_blocks = elim (heap_get_start_block heap total_blocks) [
  | none ↦ (0, heap)
  | some start ↦ (heap_block_to_address heap start, heap_mark_blocks_taken heap start total_blocks)
]

unfoldable pub heap_malloc : Heap → ℕ → ℕ × Heap
unfolding heap_malloc_blocks heap_align_value_to_upper
heap_malloc heap total_size =
    let aligned_size = heap_align_value_to_upper total_size in
    let total_blocks = aligned_size / block_size in heap_malloc_blocks heap total_blocks

-- The difference of the addresses is an `int`, and so is the block.
unfoldable pub heap_address_to_block : Heap → ℕ → ℕ
heap_address_to_block heap address = sdiv32 (sub32 address heap.saddr) block_size

-- The loop of `heap_mark_blocks_free`, with the rounds left.
unfoldable pub free_loop : ℕ → ℕ → List ℕ → List ℕ
free_loop zero i es = es
free_loop (suc n) i es =
    let entry = get_or es i 0 in
    let es' = set es i entry_free in
    let rest = free_loop n (i + 1) es' in if bit_and entry has_next == 0 then es' else rest

-- The `int` starting block becomes a `size_t`.
unfoldable pub heap_mark_blocks_free : Heap → ℕ → Heap
unfolding free_loop
heap_mark_blocks_free heap starting_block =
    with_entries heap
      (free_loop (heap.table.total_entries - starting_block) starting_block heap.table.entries)

unfoldable pub heap_free : Heap → ℕ → Heap
unfolding heap_mark_blocks_free heap_address_to_block
heap_free heap ptr = heap_mark_blocks_free heap (heap_address_to_block heap ptr)
