-- ===== src/Fat16/Items.antt =====
-- fs/fat/fat16.c: the items of directories: what the heap holds of them, finding one by its name, and
-- following a path.
use bimble_os.Common.{
  ℕ, zero, suc, Option, none, some, List, [], ◌∷◌, leb, ltb, ◌==◌, bit_and, if◌then◌else◌,
}
use bimble_os.Common.Status.{ok, err}
use bimble_os.Common.Word.{mul32}
use bimble_os.Heap.Kernel.{kzalloc, kfree}
use bimble_os.PathParser.{max_path}
use bimble_os.Str.{istrncmp}
use bimble_os.Fat16.{
  FatDirectory, DirectoryItem, FatItem, directory_item, file_item, Pointer, nil, freed, held,
  item_size, int_limit,
}
use bimble_os.Fat16.Clusters.{fat16_read_internal, fat16_get_first_cluster, fat16_cluster_to_sector}
use bimble_os.Fat16.Names.{fat16_get_full_relative_filename}
use bimble_os.Fat16.Volume.{Volume, address_of, items_of, fat16_get_total_items_for_directory}

-- FAT_FILE_SUBDIRECTORY.
abbrev pub subdirectory : ℕ
subdirectory = 0x10

-- `sizeof` of the structs FAT_Directory and FAT_Item.
abbrev pub directory_struct_size : ℕ
directory_struct_size = 16

abbrev pub item_struct_size : ℕ
item_struct_size = 8

abbrev pub free_at : ℕ → Volume → Volume
free_at ptr v = record v { kernel = kfree ptr (v.kernel) }

-- `kzalloc`.
abbrev pub zalloc : ℕ → Volume → ℕ × Volume
zalloc size v = let (ptr, k) = kzalloc size (v.kernel) in (ptr, record v { kernel = k })

-- The items that a loop over a directory goes through, and how many there are.
abbrev pub array_of : Pointer (List DirectoryItem) → List DirectoryItem
array_of nil = []
array_of (freed a) = []
array_of (held a items) = items

abbrev pub rounds : ℕ → ℕ
rounds total = if leb int_limit total then 0 else total

unfoldable pub fat16_clone_directory_item :
    DirectoryItem → ℕ → Volume → Pointer DirectoryItem × Volume
fat16_clone_directory_item item size v =
    let (item_copy, v') = zalloc size v in
    if ltb size item_size
    then (nil, v)
    else if item_copy == 0
    then (nil, v')
    else (held item_copy item, v')

unfoldable pub fat16_free_directory : Pointer FatDirectory → Volume → Option Volume
fat16_free_directory nil v = some v
fat16_free_directory (freed a) v = none
fat16_free_directory (held a directory) v = elim (directory.item) [
  | nil ↦ some (free_at a v)
  | freed b ↦ some (free_at a (free_at b v))
  | held b items ↦ some (free_at a (free_at b v))
]

unfoldable pub fat16_fat_item_free : Pointer FatItem → Volume → Option Volume
unfolding fat16_free_directory
fat16_fat_item_free nil v = none
fat16_fat_item_free (freed a) v = none
fat16_fat_item_free (held a item) v = elim item [
  | directory_item directory ↦ elim (fat16_free_directory directory v) [
    | none ↦ none
    | some v' ↦ some (free_at a v')
  ]
  | file_item copy ↦ some (free_at a (free_at (address_of copy) v))
]

module _ (sectors : ℕ → ℕ → ℕ) where
  -- The part of `fat16_load_fat_directory` behind the directory's allocation, at `directory`. Where
  -- it fails the directory is freed, and its address is returned all the same.
  unfoldable pub load_items : ℕ → DirectoryItem → Volume → Option (Pointer FatDirectory × Volume)
  load_items directory item v =
      let cluster = fat16_get_first_cluster item in
      elim (fat16_get_total_items_for_directory sectors (v.private)
        (fat16_cluster_to_sector (v.private) cluster)) [
          | none ↦ none
          | some (total, counted) ↦
              let directory_size = mul32 total item_size in
              let (items, v') = zalloc directory_size (record v { private = counted }) in
              let loaded : Option (Pointer FatDirectory × Volume) =
                elim (fat16_read_internal sectors (v'.private) cluster 0x00 directory_size) [
                  | none ↦ none
                  | some (read, private') ↦
                      let v'' : Volume = record v' { private = private' } in
                      elim (read.0) [
                        | err e ↦ some (freed directory, free_at directory (free_at items v''))
                        | ok _ ↦ some (
                          held directory (record {
                            item = held items (items_of (rounds total) (read.1));
                            total = total;
                            sector_pos = 0;
                            ending_sector_pos = 0;
                          }),
                          v'',
                        )
                      ]
                ] in
              if items == 0
              then some (freed directory, free_at directory v')
              else if leb int_limit directory_size
              then none
              else loaded
        ]

  unfoldable pub fat16_load_fat_directory :
      DirectoryItem → Volume → Option (Pointer FatDirectory × Volume)
  fat16_load_fat_directory item v =
      let (directory, v') = zalloc directory_struct_size v in
      let loaded = load_items directory item v' in
      if bit_and item.attribute subdirectory == 0
      then some (nil, v)
      else if directory == 0
      then some (nil, v')
      else loaded

  unfoldable pub fat16_new_fat_item_for_directory_item :
      DirectoryItem → Volume → Option (Pointer FatItem × Volume)
  fat16_new_fat_item_for_directory_item item v =
      let (f_item, v') = zalloc item_struct_size v in
      let directory : Option (Pointer FatItem × Volume) = elim (fat16_load_fat_directory item v') [
        | none ↦ none
        | some (d, v'') ↦ some (held f_item (directory_item d), v'')
      ] in
      let (copy, copied) = fat16_clone_directory_item item item_size v' in
      if f_item == 0
      then some (nil, v')
      else if bit_and item.attribute subdirectory == 0
      then some (held f_item (file_item copy), copied)
      else directory

  -- The loop, with the rounds left, the items from the index on and the item found so far: a later
  -- item of the name takes the place of an earlier one, which is not freed.
  unfoldable pub find_items :
      ℕ → List DirectoryItem → List ℕ → Pointer FatItem → Volume → Option (Pointer FatItem × Volume)
  find_items zero items name f_item v = some (f_item, v)
  find_items (suc n) [] name f_item v = none
  find_items (suc n) (item ∷ items) name f_item v =
      let rest = find_items n items name f_item v in
      let found : Option (Pointer FatItem × Volume) =
        elim (fat16_new_fat_item_for_directory_item item v) [
          | none ↦ none
          | some (new, v') ↦ find_items n items name new v'
        ] in
      if istrncmp (fat16_get_full_relative_filename item) name max_path == 0 then found else rest

  unfoldable pub fat16_find_item_in_directory :
      FatDirectory → List ℕ → Volume → Option (Pointer FatItem × Volume)
  fat16_find_item_in_directory directory name v =
      find_items (rounds (directory.total)) (array_of (directory.item)) name nil v

  -- One round of the loop over the parts of a path.
  unfoldable pub enter_directory :
      Pointer FatItem → Pointer FatDirectory → List ℕ → Volume → Option (Pointer FatItem × Volume)
  enter_directory current nil part v = none
  enter_directory current (freed a) part v = none
  enter_directory current (held a directory) part v =
      elim (fat16_find_item_in_directory directory part v) [
        | none ↦ none
        | some (tmp_item, v') ↦ elim (fat16_fat_item_free current v') [
          | none ↦ none
          | some v'' ↦ some (tmp_item, v'')
        ]
      ]

  -- The loop. An item that is a file and has parts behind it is not freed; NULL is not tested for.
  unfoldable pub follow_path :
      List (List ℕ) → Pointer FatItem → Volume → Option (Pointer FatItem × Volume)
  follow_path [] current v = some (current, v)
  follow_path (part ∷ parts) current v = elim current [
    | nil ↦ none
    | freed a ↦ none
    | held a item ↦ elim item [
      | file_item copy ↦ some (nil, v)
      | directory_item directory ↦
          elim (enter_directory (held a (directory_item directory)) directory part v) [
            | none ↦ none
            | some (next, v') ↦ follow_path parts next v'
          ]
    ]
  ]

  -- A path has a first part.
  unfoldable pub fat16_get_directory_entry :
      List (List ℕ) → Volume → Option (Pointer FatItem × Volume)
  fat16_get_directory_entry [] v = none
  fat16_get_directory_entry (part ∷ parts) v =
      elim (fat16_find_item_in_directory (v.private.root_directory) part v) [
        | none ↦ none
        | some (root_item, v') ↦ elim root_item [
          | nil ↦ some (nil, v')
          | freed a ↦ follow_path parts (freed a) v'
          | held a item ↦ follow_path parts (held a item) v'
        ]
      ]
