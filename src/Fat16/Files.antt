-- ===== src/Fat16/Files.antt =====
-- fs/fat/fat16.c: open, read, seek, stat and close of a file, and the record of these functions that
-- the kernel's files are over.
use bimble_os.Common.{
  ℕ, zero, suc, Bool, Option, none, some, List, [], ◌++◌, leb, ◌==◌, bit_and, if◌then◌else◌,
}
use bimble_os.Common.Status.{Result, Status, done, ok, err, eio, einvarg, enomem, erdonly, eunimp}
use bimble_os.Common.Word.{add32}
use bimble_os.File.{
  Filesystem, FileMode, mode_read, mode_write, mode_append, mode_invalid, FileStat,
}
use bimble_os.Heap.Allocator.{Allocator}
use bimble_os.Heap.Kernel.{kzalloc, kfree}
use bimble_os.Fat16.{
  FatItem, DirectoryItem, FatFileDescriptor, FatPrivate, directory_item, file_item, Pointer, nil,
  freed, held,
}
use bimble_os.Fat16.Clusters.{fat16_read_internal, fat16_get_first_cluster}
use bimble_os.Fat16.Volume.{Volume, Fat, fat16_resolve}
use bimble_os.Fat16.Items.{fat16_get_directory_entry, fat16_fat_item_free}

-- FAT_FILE_READ_ONLY and FILE_STAT_READ_ONLY.
abbrev pub read_only : ℕ
read_only = 0x01

-- `sizeof(struct FAT_FileDescriptor)`.
abbrev pub descriptor_struct_size : ℕ
descriptor_struct_size = 8

-- The table with an entry replaced.
abbrev pub put :
    (ℕ → Option FatFileDescriptor) → ℕ → Option FatFileDescriptor → ℕ → Option FatFileDescriptor
put files private desc a = if a == private then desc else files a

-- The private data with the kernel's memory.
abbrev pub volume_of : FatPrivate → Fat → Volume
volume_of private s = record { kernel = s.fat_kernel; private = private }

abbrev pub on_volume : ℕ → FatPrivate → Volume → Fat → Fat
on_volume ptr private v s = record s { fat_kernel = v.kernel; fs_private = held ptr (v.private) }

-- The directory item of a file: `none` where a directory's memory would be read as one.
unfoldable pub file_of : Pointer FatItem → Option DirectoryItem
file_of nil = none
file_of (freed a) = none
file_of (held a item) = elim item [
  | directory_item directory ↦ none
  | file_item copy ↦ elim copy [ nil ↦ none | freed b ↦ none | held b ritem ↦ some ritem ]
]

-- `item->type != FAT_ITEM_TYPE_FILE`; `none` is a bad pointer.
unfoldable pub is_directory : Pointer FatItem → Option Bool
is_directory nil = none
is_directory (freed a) = none
is_directory (held a item) = elim item [
  | directory_item d ↦ some Bool.true
  | file_item c ↦ some Bool.false
]

unfoldable pub fat16_stat : ℕ → Fat → Option (Status × FileStat)
fat16_stat private s = elim (s.open_files private) [
  | none ↦ none
  | some descriptor ↦
      let stat : Option (Status × FileStat) = elim (file_of (descriptor.item)) [
        | none ↦ none
        | some ritem ↦ some (
          done,
          record {
            flags = if bit_and ritem.attribute read_only == 0 then 0x00 else read_only;
            filesize = ritem.filesize;
          },
        )
      ] in
      elim (is_directory (descriptor.item)) [
        | none ↦ none
        | some directory ↦
            if directory then some (err einvarg, record { flags = 0; filesize = 0 }) else stat
      ]
]

-- FILE_SEEK_MODE's numbers are 0, 1 and 2.
unfoldable pub fat16_seek : ℕ → ℕ → ℕ → Fat → Option (Status × Fat)
fat16_seek private offset seek_mode s = elim (s.open_files private) [
  | none ↦ none
  | some desc ↦
      let moved : ℕ → Fat = λ pos. record s {
        open_files = put s.open_files private (some (record desc { pos = pos }));
      } in
      let sought : Status × Fat =
        if seek_mode == 0
        then (done, moved offset)
        else if seek_mode == 2
        then (err eunimp, s)
        else if seek_mode == 1
        then (done, moved (add32 (desc.pos) offset))
        else (err einvarg, s) in
      let file : Option (Status × Fat) = elim (file_of (desc.item)) [
        | none ↦ none
        | some ritem ↦ if leb ritem.filesize offset then some (err eio, s) else some sought
      ] in
      elim (is_directory (desc.item)) [
        | none ↦ none
        | some directory ↦ if directory then some (err einvarg, s) else file
      ]
]

module _ (sectors : ℕ → ℕ → ℕ) where
  -- The loop over the `n` members left.
  unfoldable pub read_members : ℕ → ℕ → ℕ → ℕ → FatPrivate → Option ((Status × List ℕ) × FatPrivate)
  read_members zero cluster offset size private = some ((done, []), private)
  read_members (suc n) cluster offset size private =
      elim (fat16_read_internal sectors private cluster offset size) [
        | none ↦ none
        | some (read, private') ↦ elim (read.0) [
          | err e ↦ some ((err e, read.1), private')
          | ok _ ↦ elim (read_members n cluster (add32 offset size) size private') [
            | none ↦ none
            | some (more, last) ↦ some ((more.0, read.1 ++ more.1), last)
          ]
        ]
      ]

  unfoldable pub fat16_read : ℕ → ℕ → ℕ → Fat → Option ((Result ℕ × List ℕ) × Fat)
  fat16_read private size nmemb s = elim (s.open_files private) [
    | none ↦ none
    | some fat_desc ↦ elim (file_of (fat_desc.item)) [
      | none ↦ none
      | some item ↦ elim (s.fs_private) [
        | nil ↦ none
        | freed a ↦ none
        | held a fs ↦
            elim (read_members nmemb (fat16_get_first_cluster item) (fat_desc.pos) size fs) [
              | none ↦ none
              | some (read, fs') ↦
                  let s' : Fat = record s { fs_private = held a fs' } in
                  elim (read.0) [
                    | err e ↦ some ((err e, read.1), s')
                    | ok _ ↦ some ((ok nmemb, read.1), s')
                  ]
            ]
      ]
    ]
  ]

  -- The part of `fat16_open` behind the descriptor's allocation.
  unfoldable pub open_entry : ℕ → List (List ℕ) → Fat → Option (Result ℕ × Fat)
  open_entry descriptor path_part s = elim (s.fs_private) [
    | nil ↦ none
    | freed a ↦ none
    | held a fs ↦ elim (fat16_get_directory_entry sectors path_part (volume_of fs s)) [
      | none ↦ none
      | some (item, v) ↦
          let s' : Fat = on_volume a fs v s in
          let missing : Fat = record s' { fat_kernel = kfree descriptor (v.kernel) } in
          let desc : FatFileDescriptor = record { item = item; pos = 0 } in
          let opened : Fat = record s' { open_files = put s.open_files descriptor (some desc) } in
          elim item [
            | nil ↦ some (err eio, missing)
            | freed b ↦ some (ok descriptor, opened)
            | held b i ↦ some (ok descriptor, opened)
          ]
    ]
  ]

  unfoldable pub fat16_open : List (List ℕ) → FileMode → Fat → Option (Result ℕ × Fat)
  fat16_open path_part mode_write s = some (err erdonly, s)
  fat16_open path_part mode_append s = some (err erdonly, s)
  fat16_open path_part mode_invalid s = some (err erdonly, s)
  fat16_open path_part mode_read s =
      let (descriptor, k) = kzalloc descriptor_struct_size s.fat_kernel in
      let s' : Fat = record s { fat_kernel = k } in
      let opened = open_entry descriptor path_part s' in
      if descriptor == 0 then some (err enomem, s') else opened

-- The item is freed with the private data of the mounted disk beside it, which stays as it is.
unfoldable pub fat16_free_file_descriptor : ℕ → FatFileDescriptor → Fat → Option Fat
fat16_free_file_descriptor private desc s = elim (s.fs_private) [
  | nil ↦ none
  | freed a ↦ none
  | held a fs ↦ elim (fat16_fat_item_free (desc.item) (volume_of fs s)) [
    | none ↦ none
    | some v ↦
        let s' : Fat = on_volume a fs v s in
        some (record s' {
          fat_kernel = kfree private (v.kernel);
          open_files = put s.open_files private none;
        })
  ]
]

unfoldable pub fat16_close : ℕ → Fat → Option (Status × Fat)
fat16_close private s = elim (s.open_files private) [
  | none ↦ none
  | some desc ↦ elim (fat16_free_file_descriptor private desc s) [
    | none ↦ none
    | some s' ↦ some (done, s')
  ]
]

-- A result and the state that the code leaves; where it leaves none, the state is `none` for good and
-- the result stands for nothing.
abbrev pub settled : {A : Type 0} → A → Option (A × Fat) → A × Option Fat
settled nothing none = (nothing, none)
settled nothing (some (a, s)) = (a, some s)

abbrev pub run : {A : Type 0} → A → Option Fat → (Fat → Option (A × Fat)) → A × Option Fat
run nothing none f = (nothing, none)
run nothing (some s) f = settled nothing (f s)

abbrev pub no_stat : Status × FileStat
no_stat = (err eio, record { flags = 0; filesize = 0 })

abbrev pub kept : {A : Type 0} → Fat → Option A → Option (A × Fat)
kept s none = none
kept s (some a) = some (a, s)

-- The kernel's heap in the state of the mounted disk.
abbrev pub fat_heap : Allocator (Option Fat)
fat_heap = record {
  allocate = λ size s. elim s [
    | none ↦ (0, none)
    | some fat ↦
        let (ptr, k) = kzalloc size (fat.fat_kernel) in (ptr, some (record fat { fat_kernel = k }))
  ];
  release = λ ptr s. elim s [
    | none ↦ none
    | some fat ↦ some (record fat { fat_kernel = kfree ptr (fat.fat_kernel) })
  ];
}

-- `fat16_fs`, and `fat16_init` that returns it: private data is the address of a descriptor.
unfoldable pub fat16_fs : (ℕ → ℕ → ℕ) → Filesystem (Option Fat) ℕ
fat16_fs sectors = record {
  resolve = λ disk s. run (err eio) s (fat16_resolve sectors disk);
  fs_open = λ disk path mode s. run (err eio) s (fat16_open sectors path mode);
  read = λ disk private size nmemb s. run (err eio, []) s (fat16_read sectors private size nmemb);
  seek = λ private offset whence s. run (err eio) s (fat16_seek private offset whence);
  close = λ private s. run (err eio) s (fat16_close private);
  stat = λ disk private s. run no_stat s (λ fat. kept fat (fat16_stat private fat));
}
