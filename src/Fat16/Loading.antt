-- ===== src/Fat16/Loading.antt =====
-- A file of the root directory through the kernel's functions of files: fopen, fstat, fread, fclose.
use bimble_os.Common.{
  ℕ, suc, ◌+◌, ◌*◌, ◌≤◌, ◌<◌, ◌≡◌, ◌≢◌, refl, sym, ap, ◌∙◌, false, Option, none, some, List, [],
  ◌∷◌, ◌++◌, arith, length, take, ◌==◌,
}
use mathlib.Core.Path.{subst}
use bimble_os.Common.Status.{done, ok}
use bimble_os.File.{
  Files, FdTable, FileMode, descriptor_size, mode_read, mode_invalid, file_get_mode_by_string,
  fopen, fstat, fread, fclose,
}
use bimble_os.File.Descriptors.{Opens, descriptor, with_table, fopen_live, got, closed}
use bimble_os.File.Slots.{AllUsed}
use bimble_os.Heap.Kernel.{Kernel, kzalloc, kfree}
use bimble_os.Heap.Small.{HasRoom, kzalloc-Fresh}
use bimble_os.PathParser.{pathparser_parse}
use bimble_os.Fat16.{FatH, FatDirectory, DirectoryItem, FatPrivate, held, int_limit, item_size}
use bimble_os.Fat16.Chain.{mounted, cluster_size, IsWalk, contents}
use bimble_os.Fat16.Clusters.{fat16_get_first_cluster}
use bimble_os.Fat16.Files.{fat_heap, fat16_fs, fat16_stat, file_of, is_directory}
use bimble_os.Fat16.Opening.{
  HasFile, first_alloc, second_alloc, third_alloc, opened, open_lem, put_self, stat_of,
}
use bimble_os.Fat16.Reading.{IsOpen, read_open, close_open}
use bimble_os.Fat16.Volume.{Fat}

abbrev NotInvalid : FileMode → Type 0
NotInvalid mode_invalid = ⊥
NotInvalid mode = Unit

-- The allocation of the descriptor, behind those of `fat16_open`, and the state behind it.
abbrev pub descriptor_alloc : Fat → ℕ × Kernel
descriptor_alloc fat = kzalloc descriptor_size (third_alloc fat.fat_kernel).1

abbrev pub described : Fat → DirectoryItem → Fat
described fat item = record (opened fat item) { fat_kernel = (descriptor_alloc fat).1 }

-- A file of the mounted disk that a path and a mode string name: the disk's state behind the parse of
-- the path, the private data, the file's name, its item, its clusters and the state of the table of
-- descriptors.
pub record Loadable (sectors : ℕ → ℕ → ℕ) (s : Files (Option Fat) ℕ) (filename mode_str : List ℕ)
    (fat : Fat) (h : FatH) (root : FatDirectory) (item : DirectoryItem) (cs : List ℕ)
    (pre post : FdTable (Option Fat) ℕ) : Type 0 where
  pub name : List ℕ
  pub at : ℕ
  pub cluster_pos : ℕ
  pub fat_pos : ℕ
  pub directory_pos : ℕ
  pub heap : s.heap ≡ fat_heap
  pub parsed :
      pathparser_parse s.heap filename s.world
      ≡ (some (record { drive_no = 0; first = name ∷ [] }), some fat)
  pub with_mode : file_get_mode_by_string mode_str ≡ mode_read
  pub system : s.disk_filesystem ≡ some (fat16_fs sectors)
  pub on : fat.fs_private ≡ held at (mounted h root cluster_pos fat_pos directory_pos)
  pub file : HasFile root name item
  pub room : HasRoom (fat.fat_kernel.heap) 4
  pub chain : IsWalk sectors h root (fat16_get_first_cluster item) cs
  pub clusters : 0 < cluster_size h
  pub size : item.filesize ≤ suc (length cs) * cluster_size h
  pub int : item.filesize < int_limit
  pub some_bytes : 0 < item.filesize
  pub table : s.file_descriptors ≡ pre ++ (none ∷ post)
  pub used : AllUsed pre
  pub space : length pre < 511

abbrev pub fd_of : FdTable (Option Fat) ℕ → ℕ
fd_of pre = length pre + 1

-- The files with the open file in its place, and the state of the file system.
abbrev pub with_file :
    (ℕ → ℕ → ℕ)
    → Files (Option Fat) ℕ
    → Fat
    → FdTable (Option Fat) ℕ
    → FdTable (Option Fat) ℕ
    → Option Fat
    → Files (Option Fat) ℕ
with_file sectors s fat pre post w =
    with_table s
      (pre
        ++ (some (
              descriptor (descriptor_alloc fat).0 (fd_of pre) (fat16_fs sectors)
                (first_alloc fat.fat_kernel).0)
            ∷ post))
      w

-- The state of the file system behind the read.
abbrev read_state : Fat → DirectoryItem → ℕ → FatPrivate → Fat
read_state fat item at private = record (described fat item) { fs_private = held at private }

-- Four free blocks are enough for the allocations.
four_blocks :
    (fat : Fat)
    → HasRoom (fat.fat_kernel.heap) 4
    → ((first_alloc fat.fat_kernel).0 ≢ 0)
      × ((second_alloc fat.fat_kernel).0 ≢ 0)
      × ((third_alloc fat.fat_kernel).0 ≢ 0)
      × ((descriptor_alloc fat).0 ≢ 0)
four_blocks fat room =
    let k = fat.fat_kernel in
    let a = kzalloc-Fresh k 8 3 (omega arith) (omega arith) room in
    let b = kzalloc-Fresh (first_alloc k).1 8 2 (omega arith) (omega arith) a.room in
    let c = kzalloc-Fresh (second_alloc k).1 item_size 1 (omega arith) (omega arith) b.room in
    let d = kzalloc-Fresh (third_alloc k).1 descriptor_size 0 (omega arith) (omega arith) c.room in
    (a.address, b.address, c.address, d.address)

module _ {sectors : ℕ → ℕ → ℕ} {s : Files (Option Fat) ℕ} {filename mode_str : List ℕ} {fat : Fat}
    {h : FatH} {root : FatDirectory} {item : DirectoryItem} {cs : List ℕ}
    {pre post : FdTable (Option Fat) ℕ} where
  pub fopen-Opens :
      (l : Loadable sectors s filename mode_str fat h root item cs pre post)
      → Opens s filename mode_str
          (fat16_fs sectors)
          (first_alloc fat.fat_kernel).0
          (some (opened fat item))
  unfolding fat16_fs
  fopen-Opens l = record {
    part = l.name;
    parts = [];
    mode = mode_read;
    parsed = l.parsed;
    on_disk = l.system;
    with_mode = l.with_mode;
    valid = λ e. subst NotInvalid e tt;
    opened =
        let (a, b, c, d) = four_blocks fat l.room in
        rw
          (open_lem sectors fat l.at (mounted h root (l.cluster_pos) (l.fat_pos) (l.directory_pos))
            (l.name) item l.on l.file a b c)
          refl;
    behind = some fat;
  }

  pub fopen_file :
      Loadable sectors s filename mode_str fat h root item cs pre post
      → fopen filename mode_str s
        ≡ (fd_of pre, with_file sectors s fat pre post (some (described fat item)))
  fopen_file l =
      let (a, b, c, d) = four_blocks fat l.room in
      let live : (s.heap.allocate descriptor_size (some (opened fat item))).0 ≢ 0 = rw l.heap d in
      fopen_live pre post (fopen-Opens l) l.table l.used live
      ∙ ap
          (λ heap. (
            fd_of pre,
            with_table s
                (pre
                  ++ (some (
                        descriptor (heap.allocate descriptor_size (some (opened fat item))).0
                          (fd_of pre) (fat16_fs sectors) (first_alloc fat.fat_kernel).0)
                      ∷ post))
                (heap.allocate descriptor_size (some (opened fat item))).1,
          ))
          l.heap

  -- `fclose`, in any state in which the file is open.
  pub close_file :
      (l : Loadable sectors s filename mode_str fat h root item cs pre post) (s' : Fat) (pos : ℕ)
      (private : FatPrivate)
      → IsOpen s' (first_alloc fat.fat_kernel).0 item pos private
      → (fat' : Fat) × (fclose (fd_of pre) (with_file sectors s fat pre post (some s'))
          ≡ (done, with_table s (pre ++ (none ∷ post)) (some fat')))
  unfolding fat16_fs
  close_file l s' pos private o =
      let (w, e) = close_open s' _ item pos private o in
      let address = (descriptor_alloc fat).0 in
      (
        record w { fat_kernel = kfree address (w.fat_kernel) },
        closed address s (fat16_fs sectors) pre post l.space (rw e refl)
            ∙ ap
                (λ heap.
                  (done, with_table s (pre ++ (none ∷ post)) (heap.release address (some w))))
                l.heap,
      )

  pub stat_file :
      Loadable sectors s filename mode_str fat h root item cs pre post
      → fstat (fd_of pre) (with_file sectors s fat pre post (some (described fat item))) ≡ (
        (done, some (stat_of item)),
        with_file sectors s fat pre post (some (described fat item)),
      )
  unfolding fstat fat16_fs fat16_stat file_of is_directory
  stat_file l =
      rw
        (
          fstat,
          got (descriptor_alloc fat).0 pre post (fat16_fs sectors) (first_alloc fat.fat_kernel).0
              l.space,
          fat16_stat,
          put_self fat item,
        )
        refl

  read_file :
      (l : Loadable sectors s filename mode_str fat h root item cs pre post)
      → (private : FatPrivate) × (fread item.filesize 1
            (fd_of pre)
            (with_file sectors s fat pre post (some (described fat item)))
          ≡ (
            (
              ok 1,
              take (item.filesize) (contents sectors h root (fat16_get_first_cluster item ∷ cs)),
            ),
            with_file sectors s fat pre post (some (read_state fat item (l.at) private)),
          ))
  unfolding fread fat16_fs
  read_file l =
      let zero_offset : 0 * cluster_size h ≡ 0 = omega arith in
      let o : IsOpen (described fat item) (first_alloc fat.fat_kernel).0 item (0 * cluster_size h)
          (mounted h root (l.cluster_pos) (l.fat_pos) (l.directory_pos)) =
        record {
          at = l.at;
          at_item = (second_alloc fat.fat_kernel).0;
          at_copy = (third_alloc fat.fat_kernel).0;
          on = l.on;
          entry = rw zero_offset (put_self fat item);
        } in
      let (k', f', e) =
        read_open sectors h root (described fat item) (first_alloc fat.fat_kernel).0 item
          (length cs) (item.filesize) 0 (l.cluster_pos) (l.fat_pos) (l.directory_pos) cs o l.chain
          l.clusters (omega arith) l.size (let i = l.int in omega arith) in
      let size : (item.filesize == 0) ≡ false = let p = l.some_bytes in ground arith in
      let live : (fd_of pre == 0) ≡ false = ground arith in
      (
        mounted h root k' f' (l.directory_pos),
        rw
            (
              fread,
              got (descriptor_alloc fat).0 pre post (fat16_fs sectors)
                  (first_alloc fat.fat_kernel).0 l.space,
              size,
              live,
              e,
            )
            refl,
      )

  -- For a file of the mounted disk's root directory, of at least one byte, fewer than 2 ^ 31, and at
  -- most as many as the clusters hold that follow one another as the code looks them up: where the
  -- path is parsed, four blocks of the kernel's heap are free behind the parse, and a place in the
  -- first 511 of the table of descriptors is free, `fopen` for reading gives a descriptor, `fstat` of
  -- it the file's size, and `fread` of one member of that size gives the first bytes of these
  -- clusters, as many as the size says; `fclose` then succeeds, with the table of descriptors as it
  -- was before.
  pub load_file :
      Loadable sectors s filename mode_str fat h root item cs pre post
      → (fd : ℕ) × (s1 : Files (Option Fat) ℕ) × (s2 : Files (Option Fat) ℕ) × (fat' : Fat) × (fopen
            filename mode_str s
          ≡ (fd, s1))
        × (fstat fd s1 ≡ ((done, some (stat_of item)), s1))
        × (fread item.filesize 1 fd s1 ≡ (
          (
            ok 1,
            take (item.filesize) (contents sectors h root (fat16_get_first_cluster item ∷ cs)),
          ),
          s2,
        ))
        × (fclose fd s2 ≡ (done, record s { world = some fat' }))
  load_file l =
      let (private, reads) = read_file l in
      let o : IsOpen (read_state fat item (l.at) private) (first_alloc fat.fat_kernel).0 item 0
          private =
        record {
          at = l.at;
          at_item = (second_alloc fat.fat_kernel).0;
          at_copy = (third_alloc fat.fat_kernel).0;
          on = refl;
          entry = put_self fat item;
        } in
      let (fat', closes) = close_file l (read_state fat item (l.at) private) 0 private o in
      (
        fd_of pre,
        with_file sectors s fat pre post (some (described fat item)),
        with_file sectors s fat pre post (some (read_state fat item (l.at) private)),
        fat',
        fopen_file l,
        stat_file l,
        reads,
        closes ∙ ap (λ t. (done, with_table s t (some fat'))) (sym l.table),
      )
