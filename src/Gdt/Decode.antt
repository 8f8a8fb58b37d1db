-- ===== src/Gdt/Decode.antt =====
-- The descriptor as the processor reads it, and that it stands for what was encoded.
use bimble_os.Common.{
  ℕ, ◌+◌, ◌*◌, ◌/◌, ◌%◌, ◌≤◌, ◌<◌, ◌≡◌, ◌⊎◌, inl, inr, refl, ◌∙◌, Bool-cases, arith, leb, ltb,
  if◌then◌else◌, bit_and, bit_or, some,
}
use bimble_os.Common.Bits.{bit_and-ones, bit_or-shl}
use bimble_os.Common.Word.{word_size}
use bimble_os.Gdt.{GdtStructured, Gdt, encode_fields, encode_gdt_entry}

-- The base that the processor puts together.
abbrev pub segment_base : Gdt → ℕ
segment_base g = g.target2 + 0x100 * g.target3 + 0x1_0000 * g.target4 + 0x100_0000 * g.target7

-- The 20 bits of the limit; with the granularity flag they count pages.
abbrev pub segment_limit : Gdt → ℕ
segment_limit g =
    let bits = g.target0 + 0x100 * g.target1 + 0x1_0000 * (g.target6 % 16) in
    if leb 128 g.target6 then bits * 0x1000 + 0xfff else bits

low_byte : (x : ℕ) → bit_and x 0xff ≡ x % 256
low_byte x = bit_and-ones 8 x (x / 256) (x % 256) (omega arith) (omega arith)

low_nibble : (x : ℕ) → bit_and x 0x0f ≡ x % 16
low_nibble x = bit_and-ones 4 x (x / 16) (x % 16) (omega arith) (omega arith)

low_page : (x : ℕ) → bit_and x 0xfff ≡ x % 4096
low_page x = bit_and-ones 12 x (x / 4096) (x % 4096) (omega arith) (omega arith)

-- The flags lie above the four bits of the limit.
flags_joined : (k x : ℕ) → bit_or (64 * k) (x % 16) ≡ 64 * k + x % 16
flags_joined k x = bit_or-shl 6 (64 * k) k (x % 16) (omega arith) (omega arith)

fields_base :
    (limit flags : ℕ) (source : GdtStructured)
    → source.base < word_size
    → segment_base (encode_fields limit flags source) ≡ source.base
unfolding encode_fields
fields_base limit flags source h =
    rw
      (
        low_byte (source.base),
        low_byte (source.base / 0x100),
        low_byte (source.base / 0x1_0000),
        low_byte (source.base / 0x100_0000),
      )
      (omega arith)

fields_limit :
    (limit k : ℕ) (source : GdtStructured)
    → limit < 0x10_0000
    → k < 4
    → segment_limit (encode_fields limit (64 * k) source)
      ≡ (if leb 2 k then limit * 0x1000 + 0xfff else limit)
unfolding encode_fields
fields_limit limit k source h hk =
    rw
      (
        low_byte limit,
        low_byte (limit / 0x100),
        low_nibble (limit / 0x1_0000),
        flags_joined k (limit / 0x1_0000),
      )
      (ground arith)

-- A segment whose limit is at most 65536, or has its low 12 bits set, is encoded without a panic, and the
-- processor reads the base, the limit and the type back from the descriptor.
pub encode_gdt_entry_lem :
    (source : GdtStructured)
    → source.base < word_size
    → source.limit < word_size
    → (source.limit ≤ 65536) ⊎ (source.limit % 4096 ≡ 4095)
    → (g : Gdt) × (encode_gdt_entry source ≡ some g)
      × (segment_base g ≡ source.base)
      × (segment_limit g ≡ source.limit)
      × (g.target5 ≡ source.type)
unfolding encode_gdt_entry
encode_gdt_entry_lem source hb hl ok = elim (Bool-cases (ltb 65536 source.limit)) [
  | inl large ↦
      let page : source.limit % 4096 ≡ 4095 = ground arith in
      (
        encode_fields (source.limit / 0x1000) 0xc0 source,
        rw (large, low_page (source.limit), page) refl,
        fields_base (source.limit / 0x1000) 0xc0 source hb,
        fields_limit (source.limit / 0x1000) 3 source (omega arith) (omega arith)
            ∙ omega (arith, page),
        refl,
      )
  | inr small ↦ (
    encode_fields (source.limit) 0x40 source,
    rw small refl,
    fields_base (source.limit) 0x40 source hb,
    fields_limit (source.limit) 1 source (ground arith) (omega arith),
    refl,
  )
]
