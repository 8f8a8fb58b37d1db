-- ===== src/Fat16/Tests.antt =====
-- The theorems about fat16.c on a small disk: a file of two clusters that are not neighbours, and a
-- directory with a deleted item.
use bimble_os.Common.{
  ℕ, ◌+◌, ◌*◌, ◌≡◌, ◌≢◌, refl, Option, none, some, List, [], ◌∷◌, arith, take, drop, replicate,
  ◌==◌, if◌then◌else◌, get_or, ap,
}
use bimble_os.Common.Status.{done, ok}
use bimble_os.Disk.{sector_size}
use bimble_os.Disk.Stream.{disk_byte, disk_bytes}
use bimble_os.File.{Files, mode_read, file_get_mode_by_string, fopen, fstat, fread, fclose}
use bimble_os.Heap.{heap_malloc, heap_free}
use bimble_os.Heap.Chunks.{taken, frees}
use bimble_os.Heap.Kernel.{Kernel, heap_address, kzalloc, kfree}
use bimble_os.Heap.Small.{HasRoom, free_blocks}
use bimble_os.PathParser.{
  pathparser_parse, pathparser_get_drive_by_path, pathparser_path_valid_format, parse_parts,
  pathparser_parse_path_part, pathparser_get_path_part, max_path, path_root_size, path_part_size,
}
use bimble_os.Str.{first_char, tolower, strncmp, strlen, strnlen, is_digit, to_numeric_digit}
use bimble_os.Fat16.{
  FatH, FatDirectory, DirectoryItem, FatPrivate, held, nil, file_item, directory_item_of,
}
use bimble_os.Fat16.Chain.{mounted, cluster_size, cluster_position, IsWalk, contents}
use bimble_os.Fat16.Clusters.{
  fat16_get_first_cluster, fat16_get_fat_entry, fat16_read_internal, is_end_mark,
}
use bimble_os.Fat16.Counting.{IsListing, used_items, fat16_get_total_items_for_directory_lem}
use bimble_os.Fat16.Files.{fat_heap, fat16_fs, fat16_open, fat16_close, fat16_read, fat16_stat}
use bimble_os.Fat16.Items.{
  fat16_clone_directory_item, fat16_find_item_in_directory, fat16_new_fat_item_for_directory_item,
}
use bimble_os.Fat16.Loading.{Loadable, load_file}
use bimble_os.Fat16.Names.{fat16_get_full_relative_filename, fat16_to_proper_string}
use bimble_os.Fat16.Opening.{HasFile, stat_of, fat16_open-close}
use bimble_os.Fat16.Read.{fat16_read_internal_lem, fat16_read_internal-across}
use bimble_os.Fat16.Reading.{fat16_read_lem}
use bimble_os.Fat16.Search.{
  NoneNamed, fat16_find_item_in_directory_lem, fat16_find_item_in_directory-none,
}
use bimble_os.Fat16.Table.{true_position, fat16_get_fat_entry-elsewhere}
use bimble_os.Fat16.Volume.{Fat, Volume, fat16_get_total_items_for_directory}

-- The entry of cluster 2 where the code looks for it, the clusters 2 and 5, and a directory.
abbrev image : ℕ → ℕ → ℕ
image lba i =
    if lba == 4
    then (if i == 0 then 5 else 0)
    else if lba == 10
    then 7
    else if lba == 13
    then 9
    else if lba == 20
    then (if i == 0 then b'a' else if i == 32 then 0xE5 else if i == 64 then b'b' else 0)
    else 0

abbrev header : FatH
header = record {
  primary_header = record {
    bytes_per_sector = 512;
    sectors_per_cluster = 1;
    reserved_sectors = 1;
    fat_copies = 1;
    root_dir_entries = 16;
    number_of_sectors = 100;
    media_type = 0xf8;
    sectors_per_fat = 8;
    sectors_per_track = 32;
    number_of_heads = 2;
    hidden_setors = 0;
    sectors_big = 0;
  };
  extended_header = record {
    drive_number = 0x80;
    win_nt_bit = 0;
    signature = 0x29;
    volume_id = 0xd105;
    volume_id_string = [];
    system_id_string = [];
  };
}

-- "A" with no extension, in the clusters 2 and 5; and "B.TXT".
abbrev file_a : DirectoryItem
file_a = record {
  filename = b'A' ∷ replicate 7 0x20;
  ext = replicate 3 0x20;
  attribute = 0x01;
  reserved = 0;
  creation_time_tenths_of_a_sec = 0;
  creation_time = 0;
  creation_date = 0;
  last_access = 0;
  high_16_bits_first_cluster = 0;
  last_mod_time = 0;
  last_mod_date = 0;
  low_16_bits_first_cluster = 2;
  filesize = 600;
}

abbrev file_b : DirectoryItem
file_b = record file_a { filename = b'B' ∷ replicate 7 0x20; ext = b'T' ∷ b'X' ∷ b'T' ∷ [] }

abbrev root : FatDirectory
root = record {
  item = held 0x0100_0000 (file_b ∷ file_a ∷ []);
  total = 2;
  sector_pos = 9;
  ending_sector_pos = 10;
}

file_a-IsWalk : IsWalk image header root 2 (5 ∷ [])
unfolding IsWalk is_end_mark
file_a-IsWalk = (omega arith, omega arith, omega arith, refl, refl, (omega arith, omega arith))

first_cluster : fat16_get_first_cluster file_a ≡ 2
unfolding fat16_get_first_cluster
first_cluster = refl

-- 600 bytes: the 512 of cluster 2 and 88 of cluster 5.
fat16_read_internal_example :
    (k : ℕ) × (f : ℕ) × (fat16_read_internal image
        (mounted header root 0 0 0)
        2
        (0 * cluster_size header)
        600
      ≡ some (
        (done, take 600 (contents image header root (drop 0 (2 ∷ 5 ∷ [])))),
        mounted header root k f 0,
      ))
fat16_read_internal_example =
    fat16_read_internal_lem image header root 1 600 0 2 (5 ∷ []) 0 0 0 file_a-IsWalk (omega arith)
      (omega arith) (omega arith) (omega arith)

-- 20 bytes from the 502nd on: 10 of cluster 2 and 10 of cluster 3, which is not the file's.
fat16_read_internal-across_example :
    (k : ℕ) × (f : ℕ) × (fat16_read_internal image
        (mounted header root 0 0 0)
        2
        (0 * cluster_size header + 502)
        20
      ≡ some (
        (done, disk_bytes image (cluster_position header root (get_or (2 ∷ 5 ∷ []) 0 0) + 502) 20),
        mounted header root k f 0,
      ))
fat16_read_internal-across_example =
    fat16_read_internal-across image header root 0 502 20 2 (5 ∷ []) 0 0 0 file_a-IsWalk
      (omega arith) (omega arith) (omega arith) (omega arith) (omega arith)

-- Disks that differ in the entry of cluster 2, which is at byte 4 of sector 1.
abbrev zeros : ℕ → ℕ → ℕ
zeros lba i = 0

abbrev one_entry : ℕ → ℕ → ℕ
one_entry lba i = if lba == 1 then (if i == 4 then 7 else 0) else 0

same_elsewhere :
    (p : ℕ)
    → p ≢ true_position header 2
    → p ≢ true_position header 2 + 1
    → disk_byte zeros p ≡ disk_byte one_entry p
unfolding disk_byte
same_elsewhere p low high = ground arith

fat_entry-elsewhere_example :
    fat16_get_fat_entry zeros (mounted header root 0 0 0) 2
    ≡ fat16_get_fat_entry one_entry (mounted header root 0 0 0) 2
fat_entry-elsewhere_example =
    fat16_get_fat_entry-elsewhere zeros one_entry header root 2 0 0 0 (omega arith) (omega arith)
      (omega arith) same_elsewhere

listing : List DirectoryItem
listing =
    directory_item_of (b'a' ∷ replicate 31 0)
    ∷ directory_item_of (0xE5 ∷ replicate 31 0)
    ∷ directory_item_of (b'b' ∷ replicate 31 0)
    ∷ []

listing-IsListing : IsListing image (20 * sector_size) listing
unfolding IsListing directory_item_of listing
listing-IsListing = (
  omega arith,
  refl,
  omega arith,
  (omega arith, refl, omega arith, (omega arith, refl, omega arith, (omega arith, refl))),
)

total_items_example :
    (d : ℕ) × (fat16_get_total_items_for_directory image (mounted header root 0 0 0) 20
      ≡ some (used_items listing, mounted header root 0 0 d))
total_items_example =
    fat16_get_total_items_for_directory_lem image header root 0 0 0 20 listing listing-IsListing

total_items_runs : used_items listing ≡ 2
unfolding listing directory_item_of
total_items_runs = refl

-- A heap of ten free blocks.
abbrev kernel : Kernel
kernel = record {
  heap = record {
    table = record { entries = replicate 10 0; total_entries = 10 };
    saddr = heap_address;
  };
  mem = λ a. 0;
}

kernel-HasRoom : HasRoom (kernel.heap) 3
unfolding HasRoom free_blocks
kernel-HasRoom = (
  frees 10,
  record { entries = refl; total = refl; start = omega arith; end = omega arith },
  omega arith,
)

abbrev mounted_disk : FatPrivate
mounted_disk = mounted header root 0 0 0

abbrev disk_state : Fat
disk_state = record {
  fat_kernel = kernel;
  fs_private = held 0x0200_0000 mounted_disk;
  open_files = λ a. none;
}

-- The file is asked for as "a".
abbrev a_name : List ℕ
a_name = b'a' ∷ []

file_b-other : NoneNamed a_name (file_b ∷ [])
unfolding NoneNamed fat16_get_full_relative_filename fat16_to_proper_string tolower
file_b-other = (
  (
    (
      omega arith,
      omega arith,
      (
        omega arith,
        omega arith,
        (omega arith, omega arith, (omega arith, omega arith, (omega arith, omega arith, tt))),
      ),
    ),
    omega arith,
  ),
  λ e. omega (arith, ap first_char e),
  tt,
)

a-HasFile : HasFile root a_name file_a
unfolding NoneNamed fat16_get_full_relative_filename fat16_to_proper_string tolower
a-HasFile = record {
  pre = file_b ∷ [];
  mid = [];
  post = [];
  text = (omega arith, omega arith, tt);
  items = refl;
  count = refl;
  small = omega arith;
  has_text = ((omega arith, omega arith, tt), omega arith);
  named = refl;
  before = file_b-other;
  behind = tt;
  is_file = refl;
}

fat16_open-close_example :
    (private : ℕ) × (s' : Fat) × (s'' : Fat) × (private ≢ 0)
    × (fat16_open image (a_name ∷ []) mode_read disk_state ≡ some (ok private, s'))
    × (fat16_stat private s' ≡ some (done, stat_of file_a))
    × (fat16_close private s' ≡ some (done, s''))
    × (s''.fat_kernel.heap ≡ kernel.heap)
    × (s''.open_files private ≡ none)
    × (s''.fs_private ≡ disk_state.fs_private)
fat16_open-close_example =
    fat16_open-close disk_state kernel-HasRoom image 0x0200_0000 mounted_disk a_name file_a refl
      a-HasFile

new_a :
    fat16_new_fat_item_for_directory_item image file_a
      (record { kernel = kernel; private = mounted_disk })
    ≡ some (
      held heap_address (file_item (held (heap_address + 4096) file_a)),
      record { kernel = (kzalloc 32 (kzalloc 8 kernel).1).1; private = mounted_disk },
    )
unfolding fat16_new_fat_item_for_directory_item fat16_clone_directory_item kzalloc heap_malloc
new_a = refl

abbrev volume : Volume
volume = record { kernel = kernel; private = mounted_disk }

find_example :
    fat16_find_item_in_directory image root a_name volume
    ≡ some (
      held heap_address (file_item (held (heap_address + 4096) file_a)),
      record { kernel = (kzalloc 32 (kzalloc 8 kernel).1).1; private = mounted_disk },
    )
unfolding a-HasFile
find_example =
    fat16_find_item_in_directory_lem image root (file_b ∷ []) [] [] file_a a_name volume
      (record { kernel = (kzalloc 32 (kzalloc 8 kernel).1).1; private = mounted_disk })
      (held heap_address (file_item (held (heap_address + 4096) file_a)))
      (omega arith, omega arith, tt) refl refl (omega arith) a-HasFile.has_text a-HasFile.named
      file_b-other a-HasFile.behind new_a

-- A deleted item before the file lowers the count, and the file is not found.
abbrev short_root : FatDirectory
short_root = record root { total = 1 }

find-none_example : fat16_find_item_in_directory image short_root a_name volume ≡ some (nil, volume)
find-none_example =
    fat16_find_item_in_directory-none image short_root (file_b ∷ []) (file_a ∷ []) a_name volume
      (omega arith, omega arith, tt) refl refl (omega arith) file_b-other

-- The file open under the address 77.
abbrev open_state : Fat
open_state = record disk_state {
  open_files = λ a.
      if a == 77
      then some
          (record { item = held 88 (file_item (held 99 file_a)); pos = 0 * cluster_size header })
      else none;
}

fat16_read_example :
    (s' : Fat) × (s'' : Fat) × (fat16_read image 77 600 1 open_state
      ≡ some (
        (
          ok 1,
          take 600 (contents image header root (drop 0 (fat16_get_first_cluster file_a ∷ 5 ∷ []))),
        ),
        s',
      ))
    × (fat16_read image 77 600 1 s'
        ≡ some (
          (
            ok 1,
            take 600
                (contents image header root (drop 0 (fat16_get_first_cluster file_a ∷ 5 ∷ []))),
          ),
          s'',
        ))
unfolding fat16_get_first_cluster
fat16_read_example =
    fat16_read_lem image header root open_state 77 file_a 1 600 0 0 0 0 (5 ∷ [])
      (record { at = 0x0200_0000; at_item = 88; at_copy = 99; on = refl; entry = refl })
      file_a-IsWalk (omega arith) (omega arith) (omega arith) (omega arith)

-- "0:/a", "r" and an empty table.
abbrev a_path : List ℕ
a_path = b'0' ∷ b':' ∷ b'/' ∷ b'a' ∷ []

abbrev r_mode : List ℕ
r_mode = b'r' ∷ []

abbrev files : Files (Option Fat) ℕ
files = record {
  heap = fat_heap;
  filesystems = some (fat16_fs image) ∷ replicate 11 none;
  file_descriptors = replicate 512 none;
  disk_filesystem = some (fat16_fs image);
  world = some disk_state;
}

-- The state behind the parse of the path: the root, the part's text and the part are allocated, and
-- what is allocated for the end of the path is freed.
abbrev parse_kernel : Kernel
parse_kernel =
    let k1 = (kzalloc path_root_size kernel).1 in
    let k2 = (kzalloc max_path k1).1 in
    let k3 = (kzalloc path_part_size k2).1 in
    let k4 = (kzalloc max_path k3).1 in kfree (heap_address + 12288) k4

abbrev parse_state : Fat
parse_state = record disk_state { fat_kernel = parse_kernel }

parse_state-HasRoom : HasRoom (parse_kernel.heap) 4
unfolding HasRoom free_blocks kzalloc heap_malloc kfree heap_free
parse_state-HasRoom = (
  taken 0 ∷ taken 0 ∷ taken 0 ∷ frees 7,
  record { entries = refl; total = refl; start = omega arith; end = omega arith },
  omega arith,
)

a-Loadable :
    Loadable image files a_path r_mode parse_state header root file_a
      (5 ∷ [])
      []
      (replicate 511 none)
unfolding file_get_mode_by_string strncmp pathparser_parse strlen strnlen is_digit to_numeric_digit
    pathparser_get_drive_by_path pathparser_path_valid_format parse_parts pathparser_parse_path_part
    pathparser_get_path_part kzalloc kfree heap_malloc heap_free fat16_get_first_cluster
a-Loadable = record {
  name = a_name;
  at = 0x0200_0000;
  cluster_pos = 0;
  fat_pos = 0;
  directory_pos = 0;
  parsed = refl;
  with_mode = refl;
  system = refl;
  heap = refl;
  on = refl;
  file = a-HasFile;
  room = parse_state-HasRoom;
  chain = file_a-IsWalk;
  clusters = omega arith;
  size = omega arith;
  int = omega arith;
  some_bytes = omega arith;
  table = refl;
  used = tt;
  space = omega arith;
}

load_file_example :
    (fd : ℕ) × (s1 : Files (Option Fat) ℕ) × (s2 : Files (Option Fat) ℕ) × (fat' : Fat) × (fopen
        a_path r_mode files
      ≡ (fd, s1))
    × (fstat fd s1 ≡ ((done, some (stat_of file_a)), s1))
    × (fread 600 1 fd s1 ≡ (
      (ok 1, take 600 (contents image header root (fat16_get_first_cluster file_a ∷ 5 ∷ []))),
      s2,
    ))
    × (fclose fd s2 ≡ (done, record files { world = some fat' }))
load_file_example = load_file a-Loadable
