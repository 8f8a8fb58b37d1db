-- ===== src/Heap/Sample.antt =====
-- A kernel with free blocks, for tests.
use bimble_os.Common.{ℕ, ◌≤◌, refl, arith, replicate}
use bimble_os.Heap.Chunks.{frees}
use bimble_os.Heap.Kernel.{Kernel}
use bimble_os.Heap.Small.{HasRoom, free_blocks}

-- 1030 blocks, in a memory of zeros.
abbrev pub roomy : Kernel
roomy = record {
  heap = record {
    table = record { entries = replicate 1030 0; total_entries = 1030 };
    saddr = 0x100_0000;
  };
  mem = λ a. 0;
}

free_1030 : 1030 ≤ free_blocks (frees 1030)
unfolding free_blocks
free_1030 = omega arith

pub roomy-HasRoom : (n : ℕ) → n ≤ 1030 → HasRoom (roomy.heap) n
unfolding HasRoom
roomy-HasRoom n h = (
  frees 1030,
  record { entries = refl; total = refl; start = omega arith; end = omega arith },
  omega (arith, free_1030, h),
)
