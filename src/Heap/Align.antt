-- ===== src/Heap/Align.antt =====
-- heap_align_value_to_upper: the size rounded up to whole blocks.
use bimble_os.Common.{ℕ, ◌+◌, ◌*◌, ◌/◌, ◌-◌, ◌≤◌, ◌<◌, ◌≡◌, arith, leb, if◌then◌else◌}
use bimble_os.Common.Word.{word_size}
use bimble_os.Heap.{block_size, heap_align_value_to_upper}

-- The number of blocks that a request takes.
abbrev pub blocks_for : ℕ → ℕ
blocks_for size = (size + (block_size - 1)) / block_size

-- For a size of at most 2 ^ 32 - 4096 bytes the result is the size of the least number of blocks that
-- hold it; for a larger 32-bit size the addition wraps and the result is 0.
pub heap_align_value_to_upper_lem :
    (size : ℕ)
    → size < word_size
    → heap_align_value_to_upper size
      ≡ (if leb size (word_size - block_size) then blocks_for size * block_size else 0)
unfolding heap_align_value_to_upper
heap_align_value_to_upper_lem size h = ground arith

pub blocks_for_lem :
    (size : ℕ)
    → size ≤ word_size - block_size
    → heap_align_value_to_upper size / block_size ≡ blocks_for size
unfolding heap_align_value_to_upper
blocks_for_lem size h = ground arith
