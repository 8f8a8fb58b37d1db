-- ===== src/Elf/Disk.antt =====
-- elf_load of a file on the mounted FAT16 disk.
use bimble_os.Common.{
  ℕ, ◌+◌, ◌*◌, ◌<◌, ◌≡◌, ◌≢◌, refl, sym, ap, ◌∙◌, false, Option, none, some, List, ◌∷◌, ◌++◌, arith,
  length, take, ◌==◌, ==_ne,
}
use bimble_os.Common.Status.{done, ok}
use bimble_os.File.{Files, FdTable, fopen, fread, fclose}
use bimble_os.File.Descriptors.{with_table, got}
use bimble_os.Heap.Kernel.{Kernel, kzalloc}
use bimble_os.Memory.{Mem}
use bimble_os.Elf.{ElfFile, elf_process_loaded, elf_validate_loaded, e_phnum, pt_load}
use bimble_os.Elf.Bounds.{Covers, Fits, header_at, elf_process_loaded_lem}
use bimble_os.Elf.Load.{
  elf_load, read_image, load_image, fat_machine, empty_file, elf_file_size, read_mode, store_bytes,
}
use bimble_os.Fat16.{FatH, FatDirectory, DirectoryItem, FatPrivate, held}
use bimble_os.Fat16.Chain.{mounted, cluster_size, contents}
use bimble_os.Fat16.Clusters.{fat16_get_first_cluster}
use bimble_os.Fat16.Files.{fat16_fs}
use bimble_os.Fat16.Loading.{
  Loadable, fd_of, with_file, descriptor_alloc, described, fopen_file, stat_file, close_file,
}
use bimble_os.Fat16.Opening.{first_alloc, second_alloc, third_alloc, put_self}
use bimble_os.Fat16.Reading.{IsOpen, read_open}
use bimble_os.Fat16.Volume.{Fat}

-- The state of the disk once the image's memory is allocated, the address, and the memory once the
-- file is read into it.
abbrev pub image_alloc : Fat → DirectoryItem → ℕ × Kernel
image_alloc fat item = kzalloc item.filesize (described fat item).fat_kernel

abbrev pub allocated : Fat → DirectoryItem → Fat
allocated fat item = record (described fat item) { fat_kernel = (image_alloc fat item).1 }

module _ (sectors : ℕ → ℕ → ℕ) (fat : Fat) (h : FatH) (root : FatDirectory) (item : DirectoryItem)
    (cs : List ℕ) where
  abbrev pub file_bytes : List ℕ
  file_bytes = take (item.filesize) (contents sectors h root (fat16_get_first_cluster item ∷ cs))

  abbrev pub image_memory : Mem
  image_memory = store_bytes (image_alloc fat item).0 file_bytes ((image_alloc fat item).1.mem)

  -- The state behind the read.
  abbrev stored : ℕ → FatPrivate → Fat
  stored at private = record (allocated fat item) {
    fat_kernel = record (image_alloc fat item).1 { mem = image_memory };
    fs_private = held at private;
  }

module _ {sectors : ℕ → ℕ → ℕ} {s : Files (Option Fat) ℕ} {filename : List ℕ} {fat : Fat} {h : FatH}
    {root : FatDirectory} {item : DirectoryItem} {cs : List ℕ}
    {pre post : FdTable (Option Fat) ℕ} where
  file_read :
      (l : Loadable sectors s filename read_mode fat h root item cs pre post)
      → (private : FatPrivate) × (fread item.filesize 1
            (fd_of pre)
            (with_file sectors s fat pre post (some (allocated fat item)))
          ≡ (
            (ok 1, file_bytes sectors fat h root item cs),
            with_file sectors s fat pre post
                (some (record (allocated fat item) { fs_private = held (l.at) private })),
          ))
  unfolding fread fat16_fs
  file_read l =
      let zero_offset : 0 * cluster_size h ≡ 0 = omega arith in
      let o : IsOpen (allocated fat item) (first_alloc fat.fat_kernel).0 item (0 * cluster_size h)
          (mounted h root (l.cluster_pos) (l.fat_pos) (l.directory_pos)) =
        record {
          at = l.at;
          at_item = (second_alloc fat.fat_kernel).0;
          at_copy = (third_alloc fat.fat_kernel).0;
          on = l.on;
          entry = rw zero_offset (put_self fat item);
        } in
      let (k', f', e) =
        read_open sectors h root (allocated fat item) (first_alloc fat.fat_kernel).0 item
          (length cs) (item.filesize) 0 (l.cluster_pos) (l.fat_pos) (l.directory_pos) cs o l.chain
          l.clusters (omega arith) l.size (let i = l.int in omega arith) in
      let size : (item.filesize == 0) ≡ false = let p = l.some_bytes in ground arith in
      let live : (fd_of pre == 0) ≡ false = ground arith in
      (
        mounted h root k' f' (l.directory_pos),
        rw
            (
              fread,
              got (descriptor_alloc fat).0 pre post (fat16_fs sectors)
                  (first_alloc fat.fat_kernel).0 l.space,
              size,
              live,
              e,
            )
            refl,
      )

  file_closes :
      (l : Loadable sectors s filename read_mode fat h root item cs pre post) (private : FatPrivate)
      → (fat' : Fat) × (fclose (fd_of pre) (
            with_file sectors s fat pre post
              (some (stored sectors fat h root item cs (l.at) private)))
          ≡ (done, with_table s (pre ++ (none ∷ post)) (some fat')))
  unfolding fat16_fs
  file_closes l private =
      let o : IsOpen (stored sectors fat h root item cs (l.at) private)
          (first_alloc fat.fat_kernel).0 item 0 private =
        record {
          at = l.at;
          at_item = (second_alloc fat.fat_kernel).0;
          at_copy = (third_alloc fat.fat_kernel).0;
          on = refl;
          entry = put_self fat item;
        } in
      close_file l (stored sectors fat h root item cs (l.at) private) 0 private o

  -- Reading the image of an open file.
  image_read :
      (l : Loadable sectors s filename read_mode fat h root item cs pre post)
      → (private : FatPrivate) × (read_image fat_machine
            (fd_of pre)
            (with_file sectors s fat pre post (some (described fat item)))
          ≡ some (
            load_image fat_machine
                (image_alloc fat item).0
                (some (stored sectors fat h root item cs (l.at) private)),
            with_file sectors s fat pre post
                (some (stored sectors fat h root item cs (l.at) private)),
          ))
  unfolding read_image fat_machine
  image_read l =
      let (private, e) = file_read l in
      let st = stat_file l in (private, rw (read_image, st, st, st, e, st, e) refl)

load_image_valid :
    (ptr : ℕ) (w : Option Fat)
    → (elf_process_loaded (fat_machine.memory w) (record empty_file { elf_memory = ptr })).0 ≡ done
    → load_image fat_machine ptr w
      ≡ ok (elf_process_loaded (fat_machine.memory w) (record empty_file { elf_memory = ptr })).1
unfolding load_image
load_image_valid ptr w e = rw (load_image, e) refl

-- The way through `elf_load` where nothing fails.
load_steps :
    (s s1 s2 : Files (Option Fat) ℕ) (filename : List ℕ) (at fd : ℕ) (w : Option Fat)
    (file : ElfFile)
    → fat_machine.allocate elf_file_size s.world ≡ (at, w)
    → at ≢ 0
    → fopen filename read_mode (record s { world = w }) ≡ (fd, s1)
    → fd ≢ 0
    → read_image fat_machine fd s1 ≡ some (ok file, s2)
    → elf_load fat_machine filename s ≡ some (ok (at, file), (fclose fd s2).1)
unfolding elf_load
load_steps s s1 s2 filename at fd w file alloc set opens live reads =
    let some_file = ==_ne at 0 set in
    let some_fd = ==_ne fd 0 live in
    rw (elf_load, alloc, opens, some_fd, some_file, reads, alloc, opens) refl

-- Where the file's own memory can be allocated, and then the file of the path can be loaded from the
-- root directory of the mounted FAT16 disk, with four blocks of the kernel's heap free behind the
-- parse of the path: if its bytes at the image's address, those of the clusters that follow one
-- another as the code looks them up, pass the checks of `elf_validate_loaded`, and every segment to be
-- loaded starts behind address 0 and ends before 2 ^ 32, `elf_load` gives a file of which the bounds
-- hold each of these segments, and the table of descriptors is as before.
pub elf_load_lem :
    (sectors : ℕ → ℕ → ℕ) (s : Files (Option Fat) ℕ) (filename : List ℕ) (fat : Fat) (h : FatH)
    (root : FatDirectory) (item : DirectoryItem) (cs : List ℕ) (pre post : FdTable (Option Fat) ℕ)
    (at j : ℕ) (w : Option Fat)
    → fat_machine.allocate elf_file_size s.world ≡ (at, w)
    → at ≢ 0
    → Loadable sectors (record s { world = w }) filename read_mode fat h root item cs pre post
    → elf_validate_loaded (image_memory sectors fat h root item cs) (image_alloc fat item).0 ≡ done
    → ((i : ℕ)
        → i < e_phnum (image_memory sectors fat h root item cs) (image_alloc fat item).0
        → (header_at (image_memory sectors fat h root item cs) (image_alloc fat item).0 i).p_type
          ≡ pt_load
        → Fits (header_at (image_memory sectors fat h root item cs) (image_alloc fat item).0 i))
    → j < e_phnum (image_memory sectors fat h root item cs) (image_alloc fat item).0
    → (header_at (image_memory sectors fat h root item cs) (image_alloc fat item).0 j).p_type
      ≡ pt_load
    → (file : ElfFile) × (s' : Files (Option Fat) ℕ) × (elf_load fat_machine filename s
        ≡ some (ok (at, file), s'))
      × Covers file (header_at (image_memory sectors fat h root item cs) (image_alloc fat item).0 j)
      × (s'.file_descriptors ≡ s.file_descriptors)
unfolding fat_machine
elf_load_lem sectors s filename fat h root item cs pre post at j w alloc set l valid fits lt loads =
    let m = image_memory sectors fat h root item cs in
    let ptr = (image_alloc fat item).0 in
    let start : ElfFile = record empty_file { elf_memory = ptr } in
    let (loaded, covers) = elf_process_loaded_lem m start j valid fits lt loads in
    let (private, reads) = image_read l in
    let (fat', closes) = file_closes l private in
    let image =
      load_image_valid ptr (some (stored sectors fat h root item cs (l.at) private)) loaded in
    let opens = fopen_file l in
    let behind =
      with_file sectors (record s { world = w }) fat pre post
        (some (stored sectors fat h root item cs (l.at) private)) in
    let reads' = reads ∙ ap (λ r. some (r, behind)) image in
    let steps =
      load_steps s _ _ filename at (length pre + 1) w (elf_process_loaded m start).1 alloc set opens
        (λ e. omega (arith, e)) reads' in
    (
      (elf_process_loaded m start).1,
      with_table s (pre ++ (none ∷ post)) (some fat'),
      steps ∙ ap (λ c. some (ok (at, (elf_process_loaded m start).1), c.1)) closes,
      covers,
      sym l.table,
    )
