-- ===== src/Common/Word.antt =====
-- The 32-bit words of the target: `uint32_t`, `size_t` and addresses are numbers below 2 ^ 32, and
-- an `int` is its bit pattern.
use Prim.Native.Nat.{ℕ, ◌+◌, ◌-◌, ◌*◌, ◌/◌, ◌%◌}
use mathlib.Core.Bool.{Bool}
use bimble_os.Common.Tests.{ltb, if◌then◌else◌}

abbrev pub word_size : ℕ
word_size = 0x1_0000_0000

abbrev pub add32 : ℕ → ℕ → ℕ
add32 a b = (a + b) % word_size

-- `-` on ℕ stops at 0, so the modulus is added first; `b` is a word.
abbrev pub sub32 : ℕ → ℕ → ℕ
sub32 a b = (a + word_size - b) % word_size

abbrev pub mul32 : ℕ → ℕ → ℕ
mul32 a b = a * b % word_size

-- Signed division of the `int` with pattern `w` by a positive constant: it rounds towards 0.
abbrev pub sdiv32 : ℕ → ℕ → ℕ
sdiv32 w d = if ltb w 0x8000_0000 then w / d else (word_size - (word_size - w) / d) % word_size

-- The remainder of that division, which has the sign of `w`.
abbrev pub srem32 : ℕ → ℕ → ℕ
srem32 w d = if ltb w 0x8000_0000 then w % d else (word_size - (word_size - w) % d) % word_size

-- `<` on `int`s.
abbrev pub slt32 : ℕ → ℕ → Bool
slt32 a b = ltb (add32 a 0x8000_0000) (add32 b 0x8000_0000)

-- The rounds of a loop that counts from 0 up to an `int`.
abbrev pub rounds32 : ℕ → ℕ
rounds32 w = if ltb w 0x8000_0000 then w else 0
