-- ===== src/Elf/Tests.antt =====
-- The bounds of a small ELF image.
use bimble_os.Common.{
  none, some, Option, ◌==◌, if◌then◌else◌, ℕ, zero, suc, ◌+◌, ◌<◌, ◌≡◌, refl, List, [], ◌∷◌, ◌++◌,
  arith, replicate, get_or,
}
use bimble_os.Common.Status.{done, ok}
use bimble_os.Memory.{Mem, memset}
use bimble_os.Heap.{Heap, heap_malloc, heap_free}
use bimble_os.Heap.Chunks.{taken, frees}
use bimble_os.Heap.Kernel.{Kernel, kzalloc, kfree, heap_address}
use bimble_os.Heap.Small.{HasRoom, free_blocks}
use bimble_os.File.{Files, file_get_mode_by_string}
use bimble_os.PathParser.{
  pathparser_parse, pathparser_get_drive_by_path, pathparser_path_valid_format, parse_parts,
  pathparser_parse_path_part, pathparser_get_path_part, max_path, path_root_size, path_part_size,
}
use bimble_os.Str.{tolower, strncmp, strlen, strnlen, is_digit, to_numeric_digit}
use bimble_os.Fat16.{FatH, FatDirectory, DirectoryItem, held}
use bimble_os.Fat16.Chain.{mounted, IsWalk}
use bimble_os.Fat16.Clusters.{fat16_get_first_cluster}
use bimble_os.Fat16.Files.{fat_heap, fat16_fs}
use bimble_os.Fat16.Loading.{Loadable}
use bimble_os.Fat16.Names.{fat16_get_full_relative_filename, fat16_to_proper_string}
use bimble_os.Fat16.Opening.{HasFile}
use bimble_os.Fat16.Search.{NoneNamed}
use bimble_os.Fat16.Volume.{Fat}
use bimble_os.Elf.Disk.{elf_load_lem, image_memory, image_alloc}
use bimble_os.Elf.{
  ElfFile, e_phnum, elf_process_loaded, elf_validate_loaded, elf_valid_signature, elf_valid_class,
  elf_valid_encoding, elf_has_program_header, elf_program_header, elf_pheader, phdr_at, pt_load,
}
use bimble_os.Elf.Bounds.{Covers, Fits, header_at, elf_process_loaded_lem}
use bimble_os.Elf.Load.{empty_file, fat_machine, elf_load, elf_file_size, read_mode, store_bytes}

-- The header, and behind it a segment of 16 bytes for the address 0x400000.
abbrev bytes : List ℕ
bytes =
    (0x7f ∷ b'E' ∷ b'L' ∷ b'F' ∷ 1 ∷ 1 ∷ [])
    ++ (replicate 22 0
        ++ ((52 ∷ [])
            ++ (replicate 15 0
                ++ ((1 ∷ [])
                    ++ (replicate 7 0
                        ++ ((1 ∷ 0 ∷ 0 ∷ 0 ∷ 84 ∷ 0 ∷ 0 ∷ 0 ∷ 0 ∷ 0 ∷ 0x40 ∷ 0 ∷ 0 ∷ 0 ∷ 0 ∷ 0 ∷ [])
                            ++ (16 ∷ [])))))))

abbrev memory : Mem
memory a = get_or bytes a 0

header_runs : (header_at memory 0 0).p_vaddr ≡ 0x40_0000
unfolding phdr_at elf_program_header elf_pheader
header_runs = refl

valid_runs : elf_validate_loaded memory 0 ≡ done
unfolding elf_validate_loaded elf_valid_signature elf_valid_class elf_valid_encoding
    elf_has_program_header
valid_runs = refl

all-Fits :
    (i : ℕ)
    → i < e_phnum memory 0
    → (header_at memory 0 i).p_type ≡ pt_load
    → Fits (header_at memory 0 i)
unfolding phdr_at elf_program_header elf_pheader
all-Fits zero lt loads = (omega arith, omega arith)
all-Fits (suc i) lt loads = absurd (omega arith)

process_loaded_example :
    ((elf_process_loaded memory empty_file).0 ≡ done)
    × Covers (elf_process_loaded memory empty_file).1 (header_at memory 0 0)
unfolding phdr_at elf_program_header elf_pheader
process_loaded_example =
    elf_process_loaded_lem memory empty_file 0 valid_runs all-Fits (omega arith) refl

-- The same image as the one file of a disk: its cluster 2 is sector 10.
abbrev sectors : ℕ → ℕ → ℕ
sectors lba i = if lba == 10 then get_or bytes i 0 else 0

abbrev header : FatH
header = record {
  primary_header = record {
    bytes_per_sector = 512;
    sectors_per_cluster = 1;
    reserved_sectors = 1;
    fat_copies = 1;
    root_dir_entries = 16;
    number_of_sectors = 100;
    media_type = 0xf8;
    sectors_per_fat = 8;
    sectors_per_track = 32;
    number_of_heads = 2;
    hidden_setors = 0;
    sectors_big = 0;
  };
  extended_header = record {
    drive_number = 0x80;
    win_nt_bit = 0;
    signature = 0x29;
    volume_id = 0xd105;
    volume_id_string = [];
    system_id_string = [];
  };
}

-- "A".
abbrev item : DirectoryItem
item = record {
  filename = b'A' ∷ replicate 7 0x20;
  ext = replicate 3 0x20;
  attribute = 0;
  reserved = 0;
  creation_time_tenths_of_a_sec = 0;
  creation_time = 0;
  creation_date = 0;
  last_access = 0;
  high_16_bits_first_cluster = 0;
  last_mod_time = 0;
  last_mod_date = 0;
  low_16_bits_first_cluster = 2;
  filesize = 69;
}

abbrev root : FatDirectory
root = record {
  item = held 0x0200_0000 (item ∷ []);
  total = 1;
  sector_pos = 9;
  ending_sector_pos = 10;
}

-- A heap of ten blocks, of which the first is the ELF file's, and four are the parsed path's.
abbrev start_heap : List ℕ → Heap
start_heap entries = record {
  table = record { entries = entries; total_entries = 10 };
  saddr = heap_address;
}

abbrev start_fat : List ℕ → Fat
start_fat entries = record {
  fat_kernel = record { heap = start_heap entries; mem = λ a. 0 };
  fs_private = held 0x0300_0000 (mounted header root 0 0 0);
  open_files = λ a. none;
}

abbrev files : Files (Option Fat) ℕ
files = record {
  heap = fat_heap;
  filesystems = some (fat16_fs sectors) ∷ replicate 11 none;
  file_descriptors = replicate 512 none;
  disk_filesystem = some (fat16_fs sectors);
  world = some (start_fat (replicate 10 0));
}

-- The state behind the allocation of the ELF file, and that behind the parse.
abbrev first_state : Option Fat
first_state = (fat_heap.allocate elf_file_size files.world).1

abbrev parse_kernel : Kernel
parse_kernel =
    let k0 = (kzalloc elf_file_size (start_fat (replicate 10 0)).fat_kernel).1 in
    let k1 = (kzalloc path_root_size k0).1 in
    let k2 = (kzalloc max_path k1).1 in
    let k3 = (kzalloc path_part_size k2).1 in
    let k4 = (kzalloc max_path k3).1 in kfree (heap_address + 16384) k4

abbrev fat : Fat
fat = record (start_fat (replicate 10 0)) { fat_kernel = parse_kernel }

file_allocated : fat_machine.allocate elf_file_size files.world ≡ (heap_address, first_state)
unfolding fat_machine kzalloc heap_malloc
file_allocated = refl

fat-HasRoom : HasRoom (fat.fat_kernel.heap) 4
unfolding HasRoom free_blocks kzalloc heap_malloc kfree heap_free
fat-HasRoom = (
  taken 0 ∷ taken 0 ∷ taken 0 ∷ taken 0 ∷ frees 6,
  record { entries = refl; total = refl; start = omega arith; end = omega arith },
  omega arith,
)

a-HasFile : HasFile root (b'a' ∷ []) item
unfolding NoneNamed fat16_get_full_relative_filename fat16_to_proper_string tolower
a-HasFile = record {
  pre = [];
  mid = [];
  post = [];
  text = (omega arith, omega arith, tt);
  items = refl;
  count = refl;
  small = omega arith;
  has_text = ((omega arith, omega arith, tt), omega arith);
  named = refl;
  before = tt;
  behind = tt;
  is_file = refl;
}

-- "0:/a".
abbrev path : List ℕ
path = b'0' ∷ b':' ∷ b'/' ∷ b'a' ∷ []

a-Loadable :
    Loadable sectors
      (record files { world = first_state })
      path
      read_mode
      fat
      header
      root
      item
      []
      []
      (replicate 511 none)
unfolding file_get_mode_by_string strncmp pathparser_parse strlen strnlen is_digit to_numeric_digit
    pathparser_get_drive_by_path pathparser_path_valid_format parse_parts pathparser_parse_path_part
    pathparser_get_path_part kzalloc kfree heap_malloc heap_free fat16_get_first_cluster IsWalk
a-Loadable = record {
  name = b'a' ∷ [];
  at = 0x0300_0000;
  cluster_pos = 0;
  fat_pos = 0;
  directory_pos = 0;
  parsed = refl;
  with_mode = refl;
  system = refl;
  heap = refl;
  on = refl;
  file = a-HasFile;
  room = fat-HasRoom;
  chain = (omega arith, omega arith);
  clusters = omega arith;
  size = omega arith;
  int = omega arith;
  some_bytes = omega arith;
  table = refl;
  used = tt;
  space = omega arith;
}

abbrev image : Mem
image = image_memory sectors fat header root item []

-- The image is in the heap's last block.
abbrev at_image : ℕ
at_image = (image_alloc fat item).0

at_runs : at_image ≡ heap_address + 32768
unfolding kzalloc heap_malloc kfree heap_free
at_runs = refl

image_valid : elf_validate_loaded image at_image ≡ done
unfolding elf_validate_loaded elf_valid_signature elf_valid_class elf_valid_encoding
    elf_has_program_header kzalloc heap_malloc store_bytes fat16_get_first_cluster memset kfree
    heap_free
image_valid = refl

image_phnum : e_phnum image at_image ≡ 1
unfolding phdr_at elf_program_header elf_pheader kzalloc heap_malloc store_bytes
    fat16_get_first_cluster memset kfree heap_free
image_phnum = refl

image_base : (header_at image at_image 0).p_vaddr ≡ 0x40_0000
unfolding phdr_at elf_program_header elf_pheader kzalloc heap_malloc store_bytes
    fat16_get_first_cluster memset kfree heap_free
image_base = refl

image_bytes : (header_at image at_image 0).p_filesz ≡ 16
unfolding phdr_at elf_program_header elf_pheader kzalloc heap_malloc store_bytes
    fat16_get_first_cluster memset kfree heap_free
image_bytes = refl

image-Fits :
    (i : ℕ)
    → i < e_phnum image at_image
    → (header_at image at_image i).p_type ≡ pt_load
    → Fits (header_at image at_image i)
image-Fits zero lt loads = (omega (arith, image_base), omega (arith, image_base, image_bytes))
image-Fits (suc i) lt loads = absurd (omega (arith, image_phnum))

image_loads : (header_at image at_image 0).p_type ≡ pt_load
unfolding phdr_at elf_program_header elf_pheader kzalloc heap_malloc store_bytes
    fat16_get_first_cluster memset kfree heap_free
image_loads = refl

elf_load_example :
    (file : ElfFile) × (s' : Files (Option Fat) ℕ) × (elf_load fat_machine path files
      ≡ some (ok (heap_address, file), s'))
    × Covers file (header_at image at_image 0)
    × (s'.file_descriptors ≡ files.file_descriptors)
elf_load_example =
    elf_load_lem sectors files path fat header root item [] [] (replicate 511 none) heap_address 0
      first_state file_allocated (omega arith) a-Loadable image_valid image-Fits
      (omega (arith, image_phnum)) image_loads
