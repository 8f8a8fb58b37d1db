-- ===== src/Paging/Sample.antt =====
-- A page directory with its tables, for tests.
use bimble_os.Common.{ℕ, ◌+◌, ◌-◌, ◌*◌, ◌/◌, ◌%◌, ◌<◌, ◌≡◌, refl, true, arith, ◌==◌, if◌then◌else◌}
use bimble_os.Memory.{Mem, load32}
use bimble_os.Memory.Laws.{within}
use bimble_os.Paging.{page_size, word_at}
use bimble_os.Paging.Entries.{IsDirectory, table_of, bit_and-page_mask}

-- A directory at 0x1_0000 whose tables start at 0x80_0000.
abbrev pub directory : ℕ
directory = 0x1_0000

-- Byte `k` of the `i`-th word of the directory.
byte_at : ℕ → ℕ → ℕ
byte_at i k =
    let w : ℕ = 0x80_0000 + i * page_size in
    if k == 0
    then w % 256
    else if k == 1
    then w / 0x100 % 256
    else if k == 2
    then w / 0x1_0000 % 256
    else w / 0x100_0000 % 256

pub tables : Mem
tables a =
    if within directory page_size a then byte_at ((a - directory) / 4) ((a - directory) % 4) else 0

tables_byte : (i k a : ℕ) → a ≡ directory + 4 * i + k → k < 4 → i < 1024 → tables a ≡ byte_at i k
unfolding tables
tables_byte i k a e hk hi =
    let word : (a - directory) / 4 ≡ i = omega arith in
    let byte : (a - directory) % 4 ≡ k = omega arith in
    let inside : within directory page_size a ≡ true = ground arith in rw (inside, word, byte) refl

byte_at-lt : (i k : ℕ) → byte_at i k < 256
unfolding byte_at
byte_at-lt i k = ground arith

tables-lt : (a : ℕ) → tables a < 256
unfolding tables
tables-lt a = ground (arith, byte_at-lt ((a - directory) / 4) ((a - directory) % 4))

tables_word : (i : ℕ) → i < 1024 → load32 tables (word_at directory i) ≡ 0x80_0000 + i * page_size
unfolding byte_at
tables_word i h =
    let at : word_at directory i ≡ directory + 4 * i = omega arith in
    rw
      (
        at,
        tables_byte i 0 (directory + 4 * i) (omega arith) (omega arith) h,
        tables_byte i 1 (directory + 4 * i + 1) refl (omega arith) h,
        tables_byte i 2 (directory + 4 * i + 2) refl (omega arith) h,
        tables_byte i 3 (directory + 4 * i + 3) refl (omega arith) h,
      )
      (omega arith)

table_at : (i : ℕ) → i < 1024 → table_of tables directory i ≡ 0x80_0000 + i * page_size
table_at i h =
    rw (tables_word i h)
      (omega (arith, bit_and-page_mask (0x80_0000 + i * page_size) (omega arith)))

pub tables-IsDirectory : IsDirectory tables directory
unfolding tables
tables-IsDirectory = record {
  bytes = tables-lt;
  aligned = refl;
  inside = omega arith;
  distinct = λ i j hi hj ne. omega (arith, table_at i hi, table_at j hj);
  apart = λ i hi. omega (arith, table_at i hi);
}
