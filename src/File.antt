-- ===== src/File.antt =====
-- fs/file.c: the table of file descriptors over the file systems. A file system is the record of its
-- functions over the state `W` of the disks and its private data `P`. The kernel's heap is a part of
-- the state. Fields that are written through NULL are left out.
pub mod Slots
pub mod Descriptors
mod Tests
use bimble_os.Common.{
  ℕ, zero, suc, ◌+◌, ◌-◌, Bool, ◌||◌, Option, none, some, List, [], ◌∷◌, ◌==◌, leb, ltb,
  if◌then◌else◌, get_or, set, replicate,
}
use bimble_os.Common.Status.{Result, Status, ok, err, done, eio, einvarg, enomem}
use bimble_os.Disk.{DiskPtr, null, the_disk, disk_get}
use bimble_os.Heap.Allocator.{Allocator}
use bimble_os.PathParser.{PathRoot, pathparser_parse}
use bimble_os.Str.{strncmp}

abbrev pub max_file_descriptors : ℕ
max_file_descriptors = 512

abbrev pub max_filesystems : ℕ
max_filesystems = 12

-- `sizeof(struct FileDescriptor)`.
abbrev pub descriptor_size : ℕ
descriptor_size = 16

pub data FileMode : Type 0 where
  mode_read mode_write mode_append mode_invalid : FileMode

pub record FileStat : Type 0 where
  pub flags : ℕ
  pub filesize : ℕ

-- `fs_open` is the field `open`. `resolve` succeeds where the disk is of this file system. `read` gives
-- its `int` and the bytes at `out`.
pub record Filesystem (W P : Type 0) : Type 0 where
  pub resolve : DiskPtr → W → Status × W
  pub fs_open : DiskPtr → List (List ℕ) → FileMode → W → Result P × W
  pub read : DiskPtr → P → ℕ → ℕ → W → (Result ℕ × List ℕ) × W
  pub seek : P → ℕ → ℕ → W → Status × W
  pub close : P → W → Status × W
  pub stat : DiskPtr → P → W → (Status × FileStat) × W

pub record FileDescriptor (W P : Type 0) : Type 0 where
  pub address : ℕ
  pub index : ℕ
  pub filesystem : Filesystem W P
  pub private_data : P
  pub disk : DiskPtr

-- The functions of the kernel's heap, the globals of file.c, the file system of the disk (`disk.filesystem`), and the state of the disks.
pub record Files (W P : Type 0) : Type 0 where
  pub heap : Allocator W
  pub filesystems : List (Option (Filesystem W P))
  pub file_descriptors : List (Option (FileDescriptor W P))
  pub disk_filesystem : Option (Filesystem W P)
  pub world : W

-- "r", "w" and "a".
unfoldable pub file_get_mode_by_string : List ℕ → FileMode
file_get_mode_by_string str =
    if strncmp str (b'r' ∷ []) 1 == 0
    then mode_read
    else if strncmp str (b'w' ∷ []) 1 == 0
    then mode_write
    else if strncmp str (b'a' ∷ []) 1 == 0
    then mode_append
    else mode_invalid

-- The loops over a table of pointers: the first place, from `i` on, that holds NULL.
abbrev pub first_free {ℓ} : {A : Type ℓ} → List (Option A) → ℕ → Option ℕ
first_free [] i = none
first_free (none ∷ xs) i = some i
first_free (some x ∷ xs) i = first_free xs (i + 1)

abbrev pub FsTable : Type 0 → Type 0 → Type 0
FsTable W P = List (Option (Filesystem W P))

abbrev pub FdTable : Type 0 → Type 0 → Type 0
FdTable W P = List (Option (FileDescriptor W P))

module _ {W P : Type 0} where
  unfoldable pub fs_get_free_filesystem : FsTable W P → Option ℕ
  fs_get_free_filesystem filesystems = first_free filesystems 0

  -- `none` is the endless loop.
  unfoldable pub fs_insert_filesystem : Filesystem W P → Files W P → Option (Files W P)
  unfolding fs_get_free_filesystem
  fs_insert_filesystem fs s = elim (fs_get_free_filesystem s.filesystems) [
    | none ↦ none
    | some i ↦ some (record s { filesystems = set s.filesystems i (some fs) })
  ]

  -- The argument is what `fat16_init` returns.
  unfoldable pub fs_load : Filesystem W P → Files W P → Option (Files W P)
  unfolding fs_insert_filesystem
  fs_load fat16 s =
      fs_insert_filesystem fat16 (record s { filesystems = replicate max_filesystems none })

  unfoldable pub fs_init : Filesystem W P → Files W P → Option (Files W P)
  unfolding fs_load
  fs_init fat16 s =
      fs_load fat16 (record s { file_descriptors = replicate max_file_descriptors none })

  unfoldable pub fs_resolve : DiskPtr → FsTable W P → W → Option (Filesystem W P) × W
  fs_resolve disk [] w = (none, w)
  fs_resolve disk (none ∷ filesystems) w = fs_resolve disk filesystems w
  fs_resolve disk (some fs ∷ filesystems) w =
      let (res, w') = fs.resolve disk w in
      elim res [ ok _ ↦ (some fs, w') | err e ↦ fs_resolve disk filesystems w' ]

  -- disk/disk.c: the file system of the one disk.
  unfoldable pub disk_search_and_init : Files W P → Files W P
  unfolding fs_resolve
  disk_search_and_init s =
      let (filesystem, w) = fs_resolve the_disk s.filesystems s.world in
      record s { disk_filesystem = filesystem; world = w }

  -- The descriptor has the fields that `fopen` gives it after the call. Where it has no memory, its place
  -- stays NULL.
  unfoldable pub file_new_descriptor :
      Allocator W → Filesystem W P → P → DiskPtr → FdTable W P → W → Result (ℕ × FdTable W P) × W
  file_new_descriptor heap fs private_data disk descriptors w = elim (first_free descriptors 0) [
    | none ↦ (err enomem, w)
    | some i ↦
        let (address, w') = heap.allocate descriptor_size w in
        let desc : FileDescriptor W P = record {
          address = address;
          index = i + 1;
          filesystem = fs;
          private_data = private_data;
          disk = disk;
        } in
        let slot = if address == 0 then none else some desc in
        (ok (i + 1, set descriptors i slot), w')
  ]

  unfoldable pub file_get_descriptor : ℕ → FdTable W P → Option (FileDescriptor W P)
  file_get_descriptor fd descriptors =
      if fd == 0 || leb max_file_descriptors fd then none else get_or descriptors (fd - 1) none

  -- The part of `fopen` from the file system's `open` on.
  unfoldable pub open_file :
      Filesystem W P → DiskPtr → List (List ℕ) → FileMode → Files W P → Result ℕ × Files W P
  unfolding file_new_descriptor
  open_file fs disk path mode s =
      let (opened, world') = fs.fs_open disk path mode s.world in
      elim opened [
        | err e ↦ (err e, record s { world = world' })
        | ok private_data ↦
            let (made, w) =
              file_new_descriptor s.heap fs private_data disk s.file_descriptors world' in
            elim made [
              | err e ↦ (err e, record s { world = w })
              | ok (index, descriptors) ↦
                  (ok index, record s { file_descriptors = descriptors; world = w })
            ]
      ]

  -- The part from the mode on.
  unfoldable pub open_mode :
      Filesystem W P → DiskPtr → List (List ℕ) → FileMode → Files W P → Result ℕ × Files W P
  unfolding open_file
  open_mode fs disk path mode_invalid s = (err einvarg, s)
  open_mode fs disk path mode_read s = open_file fs disk path mode_read s
  open_mode fs disk path mode_write s = open_file fs disk path mode_write s
  open_mode fs disk path mode_append s = open_file fs disk path mode_append s

  -- The part behind the parser.
  unfoldable pub open_root : PathRoot → List ℕ → Files W P → Result ℕ × Files W P
  unfolding open_mode file_get_mode_by_string
  open_root root mode_str s = elim (root.first) [
    | [] ↦ (err einvarg, s)
    | p ∷ ps ↦ elim (disk_get (root.drive_no)) [
      | null ↦ (err eio, s)
      | the_disk ↦ elim (s.disk_filesystem) [
        | none ↦ (err eio, s)
        | some fs ↦ open_mode fs the_disk (p ∷ ps) (file_get_mode_by_string mode_str) s
      ]
    ]
  ]

  -- An error is returned as 0.
  unfoldable pub fopen : List ℕ → List ℕ → Files W P → ℕ × Files W P
  unfolding open_root
  fopen filename mode_str s =
      let (root_path, w) = pathparser_parse s.heap filename s.world in
      let parsed : Files W P = record s { world = w } in
      elim root_path [
        | none ↦ (0, parsed)
        | some root ↦
            let (res, s') = open_root root mode_str parsed in
            elim res [ ok fd ↦ (fd, s') | err e ↦ (0, s') ]
      ]

  unfoldable pub fstat : ℕ → Files W P → (Status × Option FileStat) × Files W P
  unfolding file_get_descriptor
  fstat fd s = elim (file_get_descriptor fd s.file_descriptors) [
    | none ↦ ((err eio, none), s)
    | some desc ↦
        let (res, world') = desc.filesystem.stat (desc.disk) (desc.private_data) s.world in
        ((res.0, some (res.1)), record s { world = world' })
  ]

  unfoldable pub fseek : ℕ → ℕ → ℕ → Files W P → Status × Files W P
  unfolding file_get_descriptor
  fseek fd offset whence s = elim (file_get_descriptor fd s.file_descriptors) [
    | none ↦ (err eio, s)
    | some desc ↦
        let (res, world') = desc.filesystem.seek (desc.private_data) offset whence s.world in
        (res, record s { world = world' })
  ]

  unfoldable pub fread : ℕ → ℕ → ℕ → Files W P → (Result ℕ × List ℕ) × Files W P
  unfolding file_get_descriptor
  fread size nmemb fd s =
      let read : (Result ℕ × List ℕ) × Files W P =
        elim (file_get_descriptor fd s.file_descriptors) [
          | none ↦ ((err einvarg, []), s)
          | some desc ↦
              let (res, world') =
                desc.filesystem.read (desc.disk) (desc.private_data) size nmemb s.world in
              (res, record s { world = world' })
        ] in
      if size == 0 || nmemb == 0 || fd == 0 then ((err einvarg, []), s) else read

  unfoldable pub file_free_descriptor :
      Allocator W → FileDescriptor W P → FdTable W P → W → FdTable W P × W
  file_free_descriptor heap desc descriptors w =
      (set descriptors (desc.index - 1) none, heap.release (desc.address) w)

  unfoldable pub fclose : ℕ → Files W P → Status × Files W P
  unfolding file_get_descriptor file_free_descriptor
  fclose fd s = elim (file_get_descriptor fd s.file_descriptors) [
    | none ↦ (err eio, s)
    | some desc ↦
        let (res, world') = desc.filesystem.close (desc.private_data) s.world in
        elim res [
          | err e ↦ (err e, record s { world = world' })
          | ok _ ↦
              let (descriptors, w) = file_free_descriptor s.heap desc s.file_descriptors world' in
              (done, record s { world = w; file_descriptors = descriptors })
        ]
  ]
