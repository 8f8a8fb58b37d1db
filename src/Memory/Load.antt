-- ===== src/Memory/Load.antt =====
-- A `uint32_t` that is written is read back, and a write elsewhere leaves it alone.
use bimble_os.Common.{ℕ, ◌+◌, ◌≤◌, ◌<◌, ◌≡◌, ◌⊎◌, arith}
use bimble_os.Common.Word.{word_size}
use bimble_os.Memory.{Mem, load32, store32}

pub load32-store32 : (m : Mem) (p v : ℕ) → v < word_size → load32 (store32 m p v) p ≡ v
load32-store32 m p v h = ground arith

pub load32-store32_apart :
    (m : Mem) (p q v : ℕ) → (p + 4 ≤ q) ⊎ (q + 4 ≤ p) → load32 (store32 m p v) q ≡ load32 m q
load32-store32_apart m p q v h = ground arith
