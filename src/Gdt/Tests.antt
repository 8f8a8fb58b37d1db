-- ===== src/Gdt/Tests.antt =====
-- The descriptors of the kernel's segments.
use bimble_os.Common.{◌≡◌, refl, inr, arith, some}
use bimble_os.Gdt.{GdtStructured, Gdt, encode_gdt_entry, encode_fields}
use bimble_os.Gdt.Decode.{segment_base, segment_limit, encode_gdt_entry_lem}

-- The kernel's code segment.
abbrev kernel_code : GdtStructured
kernel_code = record { base = 0; limit = 0xffff_ffff; type = 0x9a }

kernel_code_bytes :
    encode_gdt_entry kernel_code
    ≡ some (record {
      target0 = 0xff;
      target1 = 0xff;
      target2 = 0;
      target3 = 0;
      target4 = 0;
      target5 = 0x9a;
      target6 = 0xcf;
      target7 = 0;
    })
unfolding encode_gdt_entry encode_fields
kernel_code_bytes = refl

encode_gdt_entry_example :
    (g : Gdt) × (encode_gdt_entry kernel_code ≡ some g)
    × (segment_base g ≡ 0)
    × (segment_limit g ≡ 0xffff_ffff)
    × (g.target5 ≡ 0x9a)
encode_gdt_entry_example =
    encode_gdt_entry_lem kernel_code (omega arith) (omega arith) (inr (omega arith))
