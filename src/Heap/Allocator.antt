-- ===== src/Heap/Allocator.antt =====
-- The kernel's heap as its users see it: a part of a state `W`, with kzalloc and kfree.
use bimble_os.Common.{ℕ, suc, ◌≤◌, ◌<◌, ◌≢◌}
use bimble_os.Heap.{block_size}
use bimble_os.Heap.Kernel.{Kernel, kzalloc, kfree}
use bimble_os.Heap.Small.{HasRoom, kzalloc-Fresh}

pub record Allocator (W : Type 0) : Type 0 where
  pub allocate : ℕ → W → ℕ × W
  pub release : ℕ → W → W

-- States with at least `n` free blocks, from which an allocation of at most a block takes one.
pub record HasBlocks {W : Type 0} (heap : Allocator W) : Type 1 where
  pub Room : ℕ → W → Type 0
  pub block :
      (size n : ℕ) (w : W)
      → 0 < size
      → size ≤ block_size
      → Room (suc n) w
      → ((heap.allocate size w).0 ≢ 0) × Room n (heap.allocate size w).1

abbrev pub kernel_allocator : Allocator Kernel
kernel_allocator = record { allocate = kzalloc; release = kfree }

abbrev pub kernel-HasBlocks : HasBlocks kernel_allocator
kernel-HasBlocks = record {
  Room = λ n k. HasRoom (k.heap) n;
  block = λ size n k pos small room.
      let fresh = kzalloc-Fresh k size n pos small room in (fresh.address, fresh.room);
}
