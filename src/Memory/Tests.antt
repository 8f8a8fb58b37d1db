-- ===== src/Memory/Tests.antt =====
-- The theorems about memory.c at concrete ranges.
use bimble_os.Common.{ℕ, ◌%◌, ◌<◌, ◌≡◌, refl, arith}
use bimble_os.Memory.{Mem, memset}

-- Each byte is the low byte of its address.
abbrev counting : Mem
counting a = a % 256

counting-small : (b : ℕ) → counting b < 256
counting-small b = omega arith

memset_runs : memset 0x100 0x141 8 counting 0x103 ≡ 0x41
unfolding memset
memset_runs = refl
