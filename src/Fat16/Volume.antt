-- ===== src/Fat16/Volume.antt =====
-- fs/fat/fat16.c: the mounted file system. `fat16_resolve` reads the header and the root directory, and
-- `fat16_get_total_items_for_directory` counts a directory's items.
use bimble_os.Common.{
  ℕ, zero, suc, ◌+◌, ◌*◌, ◌/◌, Option, none, some, List, [], ◌∷◌, ◌==◌, if◌then◌else◌, take, drop,
}
use mathlib.Core.Bool.{not}
use bimble_os.Common.Status.{Status, done, ok, err, eio, enomem, efsnotus}
use bimble_os.Common.Word.{mul32}
use bimble_os.Disk.{
  DiskPtr, null, the_disk, DiskStream, sector_size, diskstreamer_new, diskstreamer_seek,
}
use bimble_os.Heap.Kernel.{Kernel, kzalloc, kfree}
use bimble_os.Str.{first_char}
use bimble_os.Fat16.{
  FatPrivate, FatDirectory, DirectoryItem, FatFileDescriptor, Pointer, nil, freed, held,
  directory_item_of, fat_header, fat_signature, header_size, item_size,
}
use bimble_os.Fat16.Clusters.{minus_eio, stream_next, stream_read, fat16_sector_to_absolute}

-- The kernel's memory, and the private data of the disk's file system.
pub record Volume : Type 0 where
  pub kernel : Kernel
  pub private : FatPrivate

-- The kernel's memory, `disk.fs_private`, and the file descriptors by their addresses.
pub record Fat : Type 0 where
  pub fat_kernel : Kernel
  pub fs_private : Pointer FatPrivate
  pub open_files : ℕ → Option FatFileDescriptor

-- `sizeof(struct FAT_Private)`.
abbrev pub private_size : ℕ
private_size = 92

abbrev pub address_of : {A : Type 0} → Pointer A → ℕ
address_of nil = 0
address_of (freed a) = a
address_of (held a x) = a

-- More items than lie in the 2 ^ 31 bytes that a stream's position reaches.
unfoldable pub max_rounds : ℕ
max_rounds = 0x400_0001

-- The items of an array of bytes.
unfoldable pub items_of : ℕ → List ℕ → List DirectoryItem
items_of zero bytes = []
items_of (suc n) bytes =
    directory_item_of (take item_size bytes) ∷ items_of n (drop item_size bytes)

-- `fat16_init_private` on the private data that `fat16_resolve` has allocated, which is all 0.
unfoldable pub fat16_init_private : FatPrivate
fat16_init_private = record {
  header = fat_header [];
  root_directory = record { item = nil; total = 0; sector_pos = 0; ending_sector_pos = 0 };
  cluster_read_stream = diskstreamer_new 0;
  fat_read_stream = diskstreamer_new 0;
  directory_stream = diskstreamer_new 0;
}

module _ (sectors : ℕ → ℕ → ℕ) where
  -- The loop, with fuel, from the count `i` on.
  unfoldable pub count_items : ℕ → Option DiskStream → ℕ → Option (ℕ × Option DiskStream)
  count_items zero stream i = none
  count_items (suc fuel) stream i = elim (stream_next sectors stream item_size) [
    | none ↦ none
    | some (read, stream') ↦ elim (read.0) [
      | err e ↦ some (minus_eio, stream')
      | ok _ ↦
          let c = first_char (directory_item_of (read.1)).filename in
          let skipped = count_items fuel stream' i in
          let counted = count_items fuel stream' (i + 1) in
          if c == 0x00 then some (i, stream') else if c == 0xE5 then skipped else counted
    ]
  ]

  unfoldable pub fat16_get_total_items_for_directory : FatPrivate → ℕ → Option (ℕ × FatPrivate)
  fat16_get_total_items_for_directory private directory_start_sector =
      let directory_start_pos = mul32 directory_start_sector sector_size in
      elim (private.directory_stream) [
        | none ↦ none
        | some stream ↦
            let (sought, stream') = diskstreamer_seek stream directory_start_pos in
            elim sought [
              | err e ↦ some (minus_eio, record private { directory_stream = some stream' })
              | ok _ ↦ elim (count_items max_rounds (some stream') 0) [
                | none ↦ none
                | some (total, last) ↦ some (total, record private { directory_stream = last })
              ]
            ]
      ]

  -- The two failures behind the allocation.
  abbrev pub root_failed : ℕ → Volume → Option (Status × Volume)
  root_failed dir v = some (err eio, record v { kernel = kfree dir (v.kernel) })

  unfoldable pub fat16_get_root_directory : Volume → Option (Status × Volume)
  fat16_get_root_directory v =
      let primary_header = v.private.header.primary_header in
      let root_dir_sector_pos =
        primary_header.fat_copies * primary_header.sectors_per_fat
        + primary_header.reserved_sectors in
      let root_dir_entries = primary_header.root_dir_entries in
      let root_dir_size = root_dir_entries * item_size in
      elim (fat16_get_total_items_for_directory (v.private) root_dir_sector_pos) [
        | none ↦ none
        | some (total_items, counted) ↦
            let (dir, kernel') = kzalloc root_dir_size (v.kernel) in
            let v' : Volume = record { kernel = kernel'; private = counted } in
            let position = fat16_sector_to_absolute root_dir_sector_pos in
            let loaded : Option (Status × Volume) =
              elim (stream_read sectors (counted.directory_stream) position root_dir_size) [
                | none ↦ none
                | some (read, stream') ↦
                    let private' : FatPrivate = record counted { directory_stream = stream' } in
                    let directory : FatDirectory = record {
                      item = held dir (items_of root_dir_entries (read.1));
                      total = total_items;
                      sector_pos = root_dir_sector_pos;
                      ending_sector_pos = root_dir_sector_pos + root_dir_size / sector_size;
                    } in
                    elim (read.0) [
                      | err e ↦ root_failed dir (record v' { private = private' })
                      | ok _ ↦ some (
                        done,
                        record v' { private = record private' { root_directory = directory } },
                      )
                    ]
              ] in
            if dir == 0 then some (err enomem, v') else loaded
      ]

  -- The part of `fat16_resolve` from the header's signature on.
  unfoldable pub resolve_root : Volume → Option (Status × Volume)
  resolve_root v =
      let root : Option (Status × Volume) = elim (fat16_get_root_directory v) [
        | none ↦ none
        | some (res, v') ↦ elim res [ err e ↦ some (err eio, v') | ok _ ↦ some (done, v') ]
      ] in
      if not (v.private.header.extended_header.signature == fat_signature)
      then some (err efsnotus, v)
      else root

  -- The part of `fat16_resolve` behind the two allocations.
  unfoldable pub resolve_header : Volume → Option (Status × Volume)
  resolve_header v = elim (diskstreamer_new 0) [
    | none ↦ some (err enomem, v)
    | some stream ↦ elim (stream_next sectors (some stream) header_size) [
      | none ↦ none
      | some (read, stream') ↦ elim (read.0) [
        | err e ↦ some (err eio, v)
        | ok _ ↦
            resolve_root
              (record v { private = record (v.private) { header = fat_header (read.1) } })
      ]
    ]
  ]

  -- The private data's allocation is not checked: at NULL, `none`. `disk.filesystem` stays with the
  -- caller, who sets it from the result.
  unfoldable pub fat16_resolve : DiskPtr → Fat → Option (Status × Fat)
  fat16_resolve null s = none
  fat16_resolve the_disk s =
      let (ptr, kernel') = kzalloc private_size s.fat_kernel in
      let resolved : Option (Status × Fat) =
        elim (resolve_header (record { kernel = kernel'; private = fat16_init_private })) [
          | none ↦ none
          | some (res, v) ↦ elim res [
            | err e ↦ some (err e, record s { fat_kernel = kfree ptr (v.kernel); fs_private = nil })
            | ok _ ↦
                some (done, record s { fat_kernel = v.kernel; fs_private = held ptr (v.private) })
          ]
        ] in
      if ptr == 0 then none else resolved
