-- ===== src/Process/Mapping.antt =====
-- task/process.c: mapping the image of a process and its stack into its address space, and taking a
-- process out of the table.
use bimble_os.Common.{
  ℕ, zero, suc, ◌+◌, Option, none, some, List, ◌==◌, if◌then◌else◌, bit_and, bit_or, set,
}
use bimble_os.Common.Status.{Status, done, ok, err}
use bimble_os.Common.Word.{add32}
use bimble_os.Elf.{
  ElfFile, Elf32Phdr, phdr_at, e_phnum, elf_program_header, elf_phdr_phys_address,
  program_virtual_address,
}
use bimble_os.Memory.{Mem}
use bimble_os.Paging.{paging_map_to, paging_align_address, paging_align_to_lower_page}
use bimble_os.Process.{user_page, process_switch_to_any}

abbrev pub stack_size : ℕ
stack_size = 16384

-- BIMBLEOS_PROGRAM_VIRTUAL_STACK_ADDRESS_END.
abbrev pub stack_end : ℕ
stack_end = 0x3F_B000

-- The file that a process is started from, with the constructor for its `filetype`: an ELF file, or
-- the address and the size of a binary.
pub data Image : Type 0 where
  elf_image : ElfFile → Image
  binary_image : ℕ → ℕ → Image

-- The status of `paging_map_to` is not looked at.
unfoldable pub process_map_binary : ℕ → ℕ → ℕ → Mem → Status × Mem
process_map_binary directory ptr size m = (
  done,
  (paging_map_to directory program_virtual_address ptr (paging_align_address (add32 ptr size))
      user_page m).1,
)

-- PAGING_IS_PRESENT | PAGING_ACCESS_FROM_ALL, and PAGING_IS_WRITEABLE for a segment with PF_W.
unfoldable pub segment_flags : Elf32Phdr → ℕ
segment_flags phdr = if bit_and phdr.p_flags 0x02 == 0 then 0x05 else bit_or 0x05 0x02

-- The loop from index `i` on, with the rounds left and the status so far.
unfoldable pub map_segments : ℕ → ℕ → ℕ → ElfFile → Status → Mem → Status × Mem
map_segments zero i directory elf_file res m = (res, m)
map_segments (suc n) i directory elf_file res m =
    let phdr = phdr_at m (elf_program_header m elf_file.elf_memory i) in
    let phys = elf_phdr_phys_address elf_file phdr in
    let (res', m') =
      paging_map_to directory (paging_align_to_lower_page phdr.p_vaddr)
        (paging_align_to_lower_page phys) (paging_align_address (add32 phys phdr.p_memsz))
        (segment_flags phdr) m in
    elim res' [ err e ↦ (err e, m') | ok _ ↦ map_segments n (i + 1) directory elf_file done m' ]

unfoldable pub process_map_elf : ℕ → ElfFile → Mem → Status × Mem
process_map_elf directory elf_file m =
    map_segments (e_phnum m elf_file.elf_memory) 0 directory elf_file done m

unfoldable pub process_map_image : ℕ → Image → Mem → Status × Mem
process_map_image directory (elf_image elf_file) m = process_map_elf directory elf_file m
process_map_image directory (binary_image ptr size) m = process_map_binary directory ptr size m

-- A process of another type is a panic, and has no image here.
unfoldable pub process_map_memory : ℕ → Image → ℕ → Mem → Status × Mem
process_map_memory directory image stack m =
    let (res, m') = process_map_image directory image m in
    elim res [
      | err e ↦ (err e, m')
      | ok _ ↦ (
        done,
        (paging_map_to directory stack_end stack (paging_align_address (add32 stack stack_size))
            user_page m').1,
      )
    ]

-- The table of processes and `current_process`; `none` is the panic where no process is left.
unfoldable pub process_unlink : ℕ → ℕ → List ℕ × ℕ → Option (List ℕ × ℕ)
process_unlink process id (processes, current_process) =
    let left = set processes id 0 in
    let switched : Option (List ℕ × ℕ) = elim (process_switch_to_any left) [
      | none ↦ none
      | some next ↦ some (left, next)
    ] in
    if current_process == process then switched else some (left, current_process)
