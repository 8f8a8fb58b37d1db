-- ===== src/Elf.antt =====
-- loader/format/elf.c and loader/format/elfloader.c: the checks of a loaded ELF image and the bounds of
-- its segments. The image lies in the kernel's memory; the `struct Elf_file` is a value.
pub mod Bounds
pub mod Disk
pub mod Load
mod Tests
use bimble_os.Common.{
  ℕ, zero, suc, ◌+◌, ◌*◌, Bool, ◌&&◌, ◌||◌, Option, none, some, ◌==◌, leb, if◌then◌else◌,
}
use mathlib.Core.Bool.{not}
use bimble_os.Common.Status.{Status, done, ok, err, einformat}
use bimble_os.Common.Word.{add32, mul32}
use bimble_os.Memory.{Mem, load32}

abbrev pub program_virtual_address : ℕ
program_virtual_address = 0x40_0000

-- PT_LOAD.
abbrev pub pt_load : ℕ
pt_load = 1

pub record ElfFile : Type 0 where
  pub elf_memory : ℕ
  pub virtual_base_address : ℕ
  pub virtual_end_address : ℕ
  pub physical_base_address : ℕ
  pub physical_end_address : ℕ

pub record Elf32Phdr : Type 0 where
  pub p_type : ℕ
  pub p_offset : ℕ
  pub p_vaddr : ℕ
  pub p_paddr : ℕ
  pub p_filesz : ℕ
  pub p_memsz : ℕ
  pub p_flags : ℕ
  pub p_align : ℕ

-- The fields of a header at an address, as far as the loader reads them.
abbrev pub field16 : Mem → ℕ → ℕ → ℕ
field16 m header offset = m (add32 header offset) + 0x100 * m (add32 header (offset + 1))

abbrev pub field32 : Mem → ℕ → ℕ → ℕ
field32 m header offset = field16 m header offset + 0x1_0000 * field16 m header (offset + 2)

abbrev pub e_type : Mem → ℕ → ℕ
e_type m header = field16 m header 16

abbrev pub e_entry : Mem → ℕ → ℕ
e_entry m header = field32 m header 24

abbrev pub e_phoff : Mem → ℕ → ℕ
e_phoff m header = field32 m header 28

abbrev pub e_shoff : Mem → ℕ → ℕ
e_shoff m header = field32 m header 32

abbrev pub e_phnum : Mem → ℕ → ℕ
e_phnum m header = field16 m header 44

abbrev pub e_shstrndx : Mem → ℕ → ℕ
e_shstrndx m header = field16 m header 50

-- The struct at an address.
unfoldable pub phdr_at : Mem → ℕ → Elf32Phdr
phdr_at m p = record {
  p_type = field32 m p 0;
  p_offset = field32 m p 4;
  p_vaddr = field32 m p 8;
  p_paddr = field32 m p 12;
  p_filesz = field32 m p 16;
  p_memsz = field32 m p 20;
  p_flags = field32 m p 24;
  p_align = field32 m p 28;
}

pub elf_get_entry : Mem → ℕ → ℕ
elf_get_entry m header = e_entry m header

-- The four bytes of `elf_signature`, which `memcmp` compares.
unfoldable pub elf_valid_signature : Mem → ℕ → Bool
elf_valid_signature m buffer =
    (m buffer == 0x7f && m (add32 buffer 1) == b'E')
    && (m (add32 buffer 2) == b'L' && m (add32 buffer 3) == b'F')

-- ELFCLASSNONE and ELFCLASS32, ELFDATANONE and ELFDATA2LSB.
unfoldable pub elf_valid_class : Mem → ℕ → Bool
elf_valid_class m header = m (add32 header 4) == 0 || m (add32 header 4) == 1

unfoldable pub elf_valid_encoding : Mem → ℕ → Bool
elf_valid_encoding m header = m (add32 header 5) == 0 || m (add32 header 5) == 1

-- Nothing calls it.
unfoldable pub elf_is_executable : Mem → ℕ → Bool
elf_is_executable m header = e_type m header == 2 && leb program_virtual_address (e_entry m header)

unfoldable pub elf_has_program_header : Mem → ℕ → Bool
elf_has_program_header m header = not (e_phoff m header == 0)

unfoldable pub elf_sheader : Mem → ℕ → ℕ
elf_sheader m header = add32 header (e_shoff m header)

-- 0 is NULL.
unfoldable pub elf_pheader : Mem → ℕ → ℕ
elf_pheader m header = if e_phoff m header == 0 then 0 else add32 header (e_phoff m header)

unfoldable pub elf_section : Mem → ℕ → ℕ → ℕ
elf_section m header index = add32 (elf_sheader m header) (mul32 index 40)

unfoldable pub elf_phdr_phys_address : ElfFile → Elf32Phdr → ℕ
elf_phdr_phys_address file phdr = add32 file.elf_memory phdr.p_offset

-- `sh_offset` is at 16 in a section's header.
unfoldable pub elf_str_table : Mem → ℕ → ℕ
elf_str_table m header = add32 header (field32 m (elf_section m header (e_shstrndx m header)) 16)

unfoldable pub elf_validate_loaded : Mem → ℕ → Status
elf_validate_loaded m header =
    if (elf_valid_signature m header && elf_valid_class m header)
      && (elf_valid_encoding m header && elf_has_program_header m header)
    then done
    else err einformat

unfoldable pub elf_process_phdr_pt_load : ElfFile → Elf32Phdr → ElfFile
elf_process_phdr_pt_load elf_file phdr =
    let start = add32 elf_file.elf_memory phdr.p_offset in
    let based : ElfFile =
      if leb phdr.p_vaddr elf_file.virtual_base_address || elf_file.virtual_base_address == 0x00
      then record elf_file { virtual_base_address = phdr.p_vaddr; physical_base_address = start }
      else elf_file in
    let end_virtual_address = add32 phdr.p_vaddr phdr.p_filesz in
    if leb based.virtual_end_address end_virtual_address || based.virtual_end_address == 0x00
    then record based {
      virtual_end_address = end_virtual_address;
      physical_end_address = add32 start phdr.p_filesz;
    }
    else based

unfoldable pub elf_process_pheader : ElfFile → Elf32Phdr → ElfFile
elf_process_pheader elf_file phdr =
    if phdr.p_type == pt_load then elf_process_phdr_pt_load elf_file phdr else elf_file

unfoldable pub elf_program_header : Mem → ℕ → ℕ → ℕ
elf_program_header m header index = add32 (elf_pheader m header) (mul32 index 32)

-- The loop from index `i` on, with the rounds left.
unfoldable pub process_headers : ℕ → ℕ → Mem → ElfFile → ElfFile
process_headers zero i m elf_file = elf_file
process_headers (suc n) i m elf_file =
    process_headers n (i + 1) m
      (elf_process_pheader elf_file (phdr_at m (elf_program_header m elf_file.elf_memory i)))

-- The header is the image's start. The status is 0 in every case.
unfoldable pub elf_process_pheaders : Mem → ElfFile → ElfFile
elf_process_pheaders m elf_file = process_headers (e_phnum m elf_file.elf_memory) 0 m elf_file

unfoldable pub elf_process_loaded : Mem → ElfFile → Status × ElfFile
elf_process_loaded m elf_file = elim (elf_validate_loaded m elf_file.elf_memory) [
  | err e ↦ (err e, elf_file)
  | ok _ ↦ (done, elf_process_pheaders m elf_file)
]
