-- ===== src/Memory.antt =====
-- memory/memory.c: `memset`, `memcmp` and `memcpy` over the bytes of a 32-bit address space. An
-- `int` result is given by its bit pattern, -1 being 0xffff_ffff. The program library has the same
-- text in programs/stdlib/src/memory.c.
pub mod Laws
pub mod Load
mod Tests
use bimble_os.Common.{ℕ, zero, suc, ◌+◌, ◌*◌, ◌/◌, ◌%◌, Bool, ◌==◌, ltb, if◌then◌else◌}
use bimble_os.Common.Word.{add32}

-- The byte at each address.
abbrev pub Mem : Type 0
Mem = ℕ → ℕ

-- `*p = (char)v`.
abbrev pub store8 : Mem → ℕ → ℕ → Mem
store8 m p v a = if a == p then v % 256 else m a

-- The loop of `memset`, with the rounds left and the index `i`.
unfoldable pub memset_loop : ℕ → ℕ → ℕ → ℕ → Mem → Mem
memset_loop zero i ptr c m = m
memset_loop (suc n) i ptr c m = memset_loop n (i + 1) ptr c (store8 m (add32 ptr i) c)

unfoldable pub memset : ℕ → ℕ → ℕ → Mem → Mem
unfolding memset_loop
memset ptr c size m = memset_loop size 0 ptr c m

-- A `char` is signed: the order is that of the bytes moved by 128.
abbrev pub char_lt : ℕ → ℕ → Bool
char_lt a b = ltb ((a + 128) % 256) ((b + 128) % 256)

unfoldable pub memcmp : ℕ → ℕ → ℕ → Mem → ℕ
memcmp s1 s2 zero m = 0
memcmp s1 s2 (suc count) m =
    let rest = memcmp (add32 s1 1) (add32 s2 1) count m in
    if m s1 == m s2 then rest else if char_lt (m s1) (m s2) then 0xffff_ffff else 1

unfoldable pub memcpy : ℕ → ℕ → ℕ → Mem → Mem
memcpy dest src zero m = m
memcpy dest src (suc len) m = memcpy (add32 dest 1) (add32 src 1) len (store8 m dest (m src))

-- A `uint32_t` in memory, lowest byte first, read and written whole.
abbrev pub load32 : Mem → ℕ → ℕ
load32 m p = m p + 0x100 * m (p + 1) + 0x1_0000 * m (p + 2) + 0x100_0000 * m (p + 3)

abbrev pub store32 : Mem → ℕ → ℕ → Mem
store32 m p v =
    store8 (store8 (store8 (store8 m p v) (p + 1) (v / 0x100)) (p + 2) (v / 0x1_0000)) (p + 3)
      (v / 0x100_0000)
