-- ===== src/Gdt.antt =====
-- gdt/gdt.c: the eight bytes of a segment descriptor. `struct GdtStructured` has words and a byte.
pub mod Decode
mod Tests
use bimble_os.Common.{
  ℕ, ◌+◌, ◌*◌, ◌/◌, ◌%◌, bit_and, bit_or, Bool, ◌&&◌, Option, none, some, List, [], ◌∷◌, ◌==◌, ltb,
  if◌then◌else◌,
}
use mathlib.Core.Bool.{not}

pub record GdtStructured : Type 0 where
  pub base : ℕ
  pub limit : ℕ
  pub type : ℕ

-- A packed `struct Gdt`, as the bytes that `encodeGdtEntry` writes.
pub record Gdt : Type 0 where
  pub target0 : ℕ
  pub target1 : ℕ
  pub target2 : ℕ
  pub target3 : ℕ
  pub target4 : ℕ
  pub target5 : ℕ
  pub target6 : ℕ
  pub target7 : ℕ

-- `x >> 8`, `x >> 16` and `x >> 24`, and the byte that is left.
abbrev pub byte_at : ℕ → ℕ → ℕ
byte_at x scale = bit_and (x / scale) 0xff

-- The bytes for a limit that is shortened to 20 bits where `flags` says so.
unfoldable pub encode_fields : ℕ → ℕ → GdtStructured → Gdt
encode_fields limit flags source = record {
  target0 = bit_and limit 0xff;
  target1 = byte_at limit 0x100;
  target2 = bit_and source.base 0xff;
  target3 = byte_at source.base 0x100;
  target4 = byte_at source.base 0x1_0000;
  target5 = source.type;
  target6 = bit_or flags (bit_and (limit / 0x1_0000) 0x0f);
  target7 = byte_at source.base 0x100_0000;
}

-- `none` is the panic.
unfoldable pub encode_gdt_entry : GdtStructured → Option Gdt
unfolding encode_fields
encode_gdt_entry source =
    if ltb 65536 source.limit && not (bit_and source.limit 0xfff == 0xfff)
    then none
    else if ltb 65536 source.limit
    then some (encode_fields (source.limit / 0x1000) 0xc0 source)
    else some (encode_fields source.limit 0x40 source)

-- The loop over the entries; the panic ends it.
unfoldable pub gdt_structured_to_gdt : List GdtStructured → Option (List Gdt)
gdt_structured_to_gdt [] = some []
gdt_structured_to_gdt (source ∷ sources) =
    let rest = gdt_structured_to_gdt sources in
    elim (encode_gdt_entry source) [
      | none ↦ none
      | some entry ↦ elim rest [ none ↦ none | some entries ↦ some (entry ∷ entries) ]
    ]
