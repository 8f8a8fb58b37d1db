-- ===== src/Heap/Kernel.antt =====
-- memory/heap/kheap.c: the kernel's heap and the memory that `kzalloc` clears. The bytes of the block
-- table are held in the heap's record and not in `mem`.
use bimble_os.Common.{
  ℕ, suc, ◌+◌, ◌-◌, ◌*◌, ◌/◌, ◌≤◌, ◌<◌, ◌≡◌, refl, ap, ◌∙◌, false, List, ◌++◌, arith, length, ◌==◌,
  if◌then◌else◌,
}
use bimble_os.Common.Status.{Status, done}
use bimble_os.Common.Word.{word_size, add32}
use bimble_os.Heap.{Heap, HeapTable, block_size, heap_create, heap_malloc, heap_free}
use bimble_os.Heap.Align.{blocks_for}
use bimble_os.Heap.Chunks.{Chunk, encode, frees}
use bimble_os.Heap.Create.{heap_create-done, heap_create-IsHeap}
use bimble_os.Heap.Malloc.{IsHeap, Allocated, heap_malloc_lem, length_run}
use bimble_os.Memory.{Mem, memset}
use bimble_os.Memory.Laws.{within, memset_lem}

abbrev pub heap_size_bytes : ℕ
heap_size_bytes = 104857600

abbrev pub heap_address : ℕ
heap_address = 0x0100_0000

pub record Kernel : Type 0 where
  pub heap : Heap
  pub mem : Mem

pub total_heap_entries : ℕ
total_heap_entries = 104857600 / 4096

total_heap_entries_lem : total_heap_entries ≡ 25600
unfolding total_heap_entries
total_heap_entries_lem = refl

abbrev pub kernel_heap_table : List ℕ → HeapTable
kernel_heap_table entries = record { entries = entries; total_entries = total_heap_entries }

-- `entries` are the bytes at BIMBLEOS_HEAP_TABLE_ADDRESS. A status below 0 is reported on the screen.
pub kheap_init : List ℕ → Kernel → Status × Kernel
kheap_init entries k =
    let end = add32 heap_address heap_size_bytes in
    let (status, heap) = heap_create (k.heap) heap_address end (kernel_heap_table entries) in
    (status, record k { heap = heap })

unfoldable pub kmalloc : ℕ → Kernel → ℕ × Kernel
kmalloc size k = let (ptr, heap) = heap_malloc (k.heap) size in (ptr, record k { heap = heap })

unfoldable pub kzalloc : ℕ → Kernel → ℕ × Kernel
unfolding kmalloc
kzalloc size k =
    let (ptr, k') = kmalloc size k in
    if ptr == 0 then (0, k') else (ptr, record k' { mem = memset ptr 0x00 size (k'.mem) })

unfoldable pub kfree : ℕ → Kernel → Kernel
kfree ptr k = record k { heap = heap_free (k.heap) ptr }

module _ (entries : List ℕ) (h : Heap) where
  created_done :
      (heap_create h heap_address
        (add32 heap_address heap_size_bytes)
        (kernel_heap_table entries)).0
      ≡ done
  created_done =
      (heap_create-done h heap_address (add32 heap_address heap_size_bytes)
          (kernel_heap_table entries) (omega arith) (omega arith)).1
        (refl, refl, total_heap_entries_lem)

-- `kheap_init` succeeds on a table of as many bytes as the heap has blocks, and leaves a heap in which
-- every block is free.
pub kheap_init_lem :
    (entries : List ℕ) (k : Kernel)
    → length entries ≡ total_heap_entries
    → ((kheap_init entries k).0 ≡ done)
      × IsHeap ((kheap_init entries k).1.heap) (frees total_heap_entries)
unfolding kheap_init
kheap_init_lem entries k size = (
  created_done entries (k.heap),
  heap_create-IsHeap (k.heap) heap_address (add32 heap_address heap_size_bytes)
      (kernel_heap_table entries) (omega arith) (omega arith) (omega arith) size
      (created_done entries (k.heap)),
)

kzalloc_some :
    (s : Kernel) (size : ℕ)
    → ((heap_malloc (s.heap) size).0 == 0) ≡ false
    → kzalloc size s ≡ (
      (heap_malloc (s.heap) size).0,
      record {
        heap = (heap_malloc (s.heap) size).1;
        mem = memset (heap_malloc (s.heap) size).0 0 size (s.mem);
      },
    )
unfolding kzalloc
kzalloc_some s size e = rw e

-- The last block of an allocation lies in the heap.
pub Allocated-end :
    {h : Heap} {cs : List Chunk} {k limit : ℕ} {out : ℕ × Heap}
    → IsHeap h cs
    → Allocated h cs k limit out
    → (0 < out.0) × (out.0 + suc k * block_size ≤ 0x8000_0000)
Allocated-end {k} v got =
    let size = ap (λ c. length (encode c)) got.before ∙ length_run (got.pre) (got.post) (suc k) in
    omega (arith, size, got.address, v.start, v.end, v.total)

-- Where `k + 1` blocks hold the size and as many free chunks follow one another, `kzalloc` allocates
-- as `heap_malloc` does, fills the `size` bytes at the address with 0, and leaves all other bytes of
-- memory as they are.
pub kzalloc_lem :
    (s : Kernel) (pre post : List Chunk) (k size a : ℕ)
    → IsHeap (s.heap) (pre ++ (frees (suc k) ++ post))
    → size ≤ word_size - block_size
    → blocks_for size ≡ suc k
    → Allocated
        (s.heap)
        (pre ++ (frees (suc k) ++ post))
        k
        (length (encode pre))
        ((kzalloc size s).0, (kzalloc size s).1.heap)
      × ((kzalloc size s).1.mem a ≡ (if within (kzalloc size s).0 size a then 0 else s.mem a))
unfolding kzalloc
kzalloc_lem s pre post k size a v small blocks =
    let got = heap_malloc_lem pre post k size v small blocks in
    let bounds = Allocated-end v got in
    let set : ((heap_malloc (s.heap) size).0 == 0) ≡ false = ground (arith, bounds.0) in
    rw (kzalloc_some s size set)
      (got, memset_lem (heap_malloc (s.heap) size).0 0 size (s.mem) a (omega (arith, bounds.1)))
