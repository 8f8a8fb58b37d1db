-- ===== src/Elf/Load.antt =====
-- elf_load and elf_close: an ELF file through the kernel's functions of files.
use bimble_os.Common.{ℕ, Option, none, some, List, [], ◌∷◌, ◌==◌, if◌then◌else◌}
use bimble_os.Common.Status.{Result, ok, err, eio}
use bimble_os.Elf.{ElfFile, elf_process_loaded}
use bimble_os.File.{Files, fopen, fstat, fread, fclose}
use bimble_os.Memory.{Mem, store8}
use bimble_os.Common.Word.{add32}
use bimble_os.Fat16.Files.{fat_heap}
use bimble_os.Fat16.Volume.{Fat}

-- The kernel's memory as a part of the state of the disks.
pub record Machine (W : Type 0) : Type 0 where
  pub allocate : ℕ → W → ℕ × W
  pub release : ℕ → W → W
  pub store : ℕ → List ℕ → W → W
  pub memory : W → Mem

-- `sizeof(struct Elf_file)`.
abbrev pub elf_file_size : ℕ
elf_file_size = 132

-- "r".
abbrev pub read_mode : List ℕ
read_mode = b'r' ∷ []

-- What `kzalloc` leaves.
abbrev pub empty_file : ElfFile
empty_file = record {
  elf_memory = 0;
  virtual_base_address = 0;
  virtual_end_address = 0;
  physical_base_address = 0;
  physical_end_address = 0;
}

unfoldable pub store_bytes : ℕ → List ℕ → Mem → Mem
store_bytes ptr [] m = m
store_bytes ptr (b ∷ bytes) m = store_bytes (add32 ptr 1) bytes (store8 m ptr b)

module _ {W : Type 0} (machine : Machine W) where
  -- The image at the address, once it is read: the status, and the file that the caller is given.
  unfoldable pub load_image : ℕ → W → Result ElfFile
  load_image ptr w =
      let (res, file) =
        elf_process_loaded (machine.memory w) (record empty_file { elf_memory = ptr }) in
      elim res [ err e ↦ err e | ok _ ↦ ok file ]

  -- A file that is not NULL.
  unfoldable pub elf_close : ℕ → ElfFile → W → W
  elf_close ptr file w = machine.release ptr (machine.release file.elf_memory w)

module _ {W P : Type 0} (machine : Machine W) where
  -- The part of `elf_load` from `fstat` to the label. An image's memory that could not be allocated is
  -- written at address 0.
  unfoldable pub read_image : ℕ → Files W P → Option (Result ElfFile × Files W P)
  read_image fd s =
      let (res, s') = fstat fd s in
      elim (res.0) [
        | err e ↦ some (err e, s')
        | ok _ ↦ elim (res.1) [
          | none ↦ none
          | some stat ↦
              let (ptr, w) = machine.allocate stat.filesize s'.world in
              let (read, s'') = fread stat.filesize 1 fd (record s' { world = w }) in
              let stored : Files W P = record s'' {
                world = machine.store ptr (read.1) s''.world;
              } in
              elim (read.0) [
                | err e ↦ some (err e, stored)
                | ok _ ↦ some (load_image machine ptr stored.world, stored)
              ]
        ]
      ]

  -- The address and the file, or the status. The descriptor is closed in every case, also 0, which
  -- stands for none; where the load fails, nothing is freed. `none` is a write through NULL.
  unfoldable pub elf_load : List ℕ → Files W P → Option (Result (ℕ × ElfFile) × Files W P)
  elf_load filename s =
      let (elf_file, w) = machine.allocate elf_file_size s.world in
      let (fd, s') = fopen filename read_mode (record s { world = w }) in
      let loaded : Option (Result (ℕ × ElfFile) × Files W P) = elim (read_image fd s') [
        | none ↦ none
        | some (res, s'') ↦ elim res [
          | err e ↦ some (err e, (fclose fd s'').1)
          | ok file ↦ some (ok (elf_file, file), (fclose fd s'').1)
        ]
      ] in
      if fd == 0 then some (err eio, (fclose 0 s').1) else if elf_file == 0 then none else loaded

-- The mounted FAT16 disk's machine. In the state that the code does not return from nothing happens.
unfoldable pub fat_machine : Machine (Option Fat)
fat_machine = record {
  allocate = fat_heap.allocate;
  release = fat_heap.release;
  store = λ ptr bytes s. elim s [
    | none ↦ none
    | some fat ↦ some (record fat {
      fat_kernel = record (fat.fat_kernel) { mem = store_bytes ptr bytes (fat.fat_kernel.mem) };
    })
  ];
  memory = λ s. elim s [ none ↦ (λ a. 0) | some fat ↦ fat.fat_kernel.mem ];
}
