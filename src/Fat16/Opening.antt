-- ===== src/Fat16/Opening.antt =====
-- A file of the root directory from fat16_open to fat16_close.
use bimble_os.Common.{
  ℕ, suc, ◌+◌, ◌<◌, ◌≡◌, ◌≢◌, refl, ap, ◌∙◌, none, some, List, [], ◌∷◌, ◌++◌, arith, length, ◌==◌,
  ==_ne, ==_self, bit_and, if◌then◌else◌,
}
use bimble_os.Common.Status.{done, ok}
use bimble_os.File.{mode_read, FileStat}
use bimble_os.Heap.{heap_free}
use bimble_os.Heap.Kernel.{Kernel, kzalloc, kfree}
use bimble_os.Heap.Small.{HasRoom, Fresh, kzalloc-Fresh}
use bimble_os.Str.Compare.{IsText}
use bimble_os.Fat16.{
  FatDirectory, DirectoryItem, FatItem, FatPrivate, Pointer, held, file_item, int_limit, item_size,
}
use bimble_os.Fat16.Files.{
  fat16_open, open_entry, fat16_close, fat16_free_file_descriptor, fat16_stat, file_of,
  is_directory, put, read_only,
}
use bimble_os.Fat16.Items.{
  array_of, subdirectory, fat16_new_fat_item_for_directory_item, fat16_clone_directory_item,
  fat16_get_directory_entry, follow_path, fat16_fat_item_free,
}
use bimble_os.Fat16.Search.{NoneNamed, HasText, Named, fat16_find_item_in_directory_lem}
use bimble_os.Fat16.Volume.{Fat}

-- The item is a file, and the only one of its name among the items that a directory's `total` covers.
pub record HasFile (directory : FatDirectory) (name : List ℕ) (item : DirectoryItem) : Type 0 where
  pub pre : List DirectoryItem
  pub mid : List DirectoryItem
  pub post : List DirectoryItem
  pub text : IsText name
  pub items : array_of (directory.item) ≡ pre ++ (item ∷ (mid ++ post))
  pub count : directory.total ≡ length pre + suc (length mid)
  pub small : directory.total < int_limit
  pub has_text : HasText item
  pub named : Named name item
  pub before : NoneNamed name pre
  pub behind : NoneNamed name mid
  pub is_file : bit_and item.attribute subdirectory ≡ 0

-- The memory after one, two and three allocations: a descriptor, an item and a directory item.
abbrev pub first_alloc : Kernel → ℕ × Kernel
first_alloc k = kzalloc 8 k

abbrev pub second_alloc : Kernel → ℕ × Kernel
second_alloc k = kzalloc 8 (first_alloc k).1

abbrev pub third_alloc : Kernel → ℕ × Kernel
third_alloc k = kzalloc item_size (second_alloc k).1

abbrev pub opened_item : Kernel → DirectoryItem → Pointer FatItem
opened_item k item = held (second_alloc k).0 (file_item (held (third_alloc k).0 item))

-- The state once the file is open.
abbrev pub opened : Fat → DirectoryItem → Fat
opened s item = record s {
  fat_kernel = (third_alloc s.fat_kernel).1;
  open_files =
      put s.open_files (first_alloc s.fat_kernel).0
        (some (record { item = opened_item s.fat_kernel item; pos = 0 }));
}

new_item :
    (sectors : ℕ → ℕ → ℕ) (k : Kernel) (fs : FatPrivate) (item : DirectoryItem)
    → (second_alloc k).0 ≢ 0
    → (third_alloc k).0 ≢ 0
    → bit_and item.attribute subdirectory ≡ 0
    → fat16_new_fat_item_for_directory_item sectors item
        (record { kernel = (first_alloc k).1; private = fs })
      ≡ some (opened_item k item, record { kernel = (third_alloc k).1; private = fs })
unfolding fat16_new_fat_item_for_directory_item fat16_clone_directory_item
new_item sectors k fs item set set' file =
    rw
      (
        ==_ne (second_alloc k).0 0 set,
        file,
        fat16_clone_directory_item,
        ==_ne (third_alloc k).0 0 set',
      )
      refl

module _ (sectors : ℕ → ℕ → ℕ) where
  pub open_lem :
      (s : Fat) (a : ℕ) (fs : FatPrivate) (name : List ℕ) (item : DirectoryItem)
      → s.fs_private ≡ held a fs
      → HasFile (fs.root_directory) name item
      → (first_alloc s.fat_kernel).0 ≢ 0
      → (second_alloc s.fat_kernel).0 ≢ 0
      → (third_alloc s.fat_kernel).0 ≢ 0
      → fat16_open sectors (name ∷ []) mode_read s
        ≡ some (ok (first_alloc s.fat_kernel).0, opened s item)
  unfolding fat16_open open_entry fat16_get_directory_entry follow_path
  open_lem s a fs name item at h set set' set'' =
      let found =
        fat16_find_item_in_directory_lem sectors (fs.root_directory) (h.pre) (h.mid) (h.post) item
          name (record { kernel = (first_alloc s.fat_kernel).1; private = fs })
          (record { kernel = (third_alloc s.fat_kernel).1; private = fs })
          (opened_item s.fat_kernel item) h.text h.items h.count h.small h.has_text h.named h.before
          h.behind (new_item sectors s.fat_kernel fs item set' set'' h.is_file) in
      rw
        (
          fat16_open,
          ==_ne (first_alloc s.fat_kernel).0 0 set,
          open_entry,
          at,
          fat16_get_directory_entry,
          found,
        )
        refl

pub put_self :
    (s : Fat) (item : DirectoryItem)
    → (opened s item).open_files (first_alloc s.fat_kernel).0
      ≡ some (record { item = opened_item s.fat_kernel item; pos = 0 })
put_self s item = rw (==_self (first_alloc s.fat_kernel).0) refl

-- The state once the file is closed.
abbrev pub closed_state : Fat → DirectoryItem → Fat
closed_state s item = record (opened s item) {
  fat_kernel = kfree (first_alloc s.fat_kernel).0 (
      kfree (second_alloc s.fat_kernel).0
        (kfree (third_alloc s.fat_kernel).0 (third_alloc s.fat_kernel).1));
  open_files = put (opened s item).open_files (first_alloc s.fat_kernel).0 none;
}

pub close_lem :
    (s : Fat) (a : ℕ) (fs : FatPrivate) (item : DirectoryItem)
    → s.fs_private ≡ held a fs
    → fat16_close (first_alloc s.fat_kernel).0 (opened s item) ≡ some (done, closed_state s item)
unfolding fat16_close fat16_free_file_descriptor fat16_fat_item_free
close_lem s a fs item at = rw (fat16_close, put_self s item, fat16_free_file_descriptor, at) refl

-- What `fat16_stat` gives of a file.
abbrev pub stat_of : DirectoryItem → FileStat
stat_of item = record {
  flags = if bit_and item.attribute read_only == 0 then 0 else read_only;
  filesize = item.filesize;
}

pub stat_lem :
    (s : Fat) (item : DirectoryItem)
    → fat16_stat (first_alloc s.fat_kernel).0 (opened s item) ≡ some (done, stat_of item)
unfolding fat16_stat file_of is_directory
stat_lem s item = rw (fat16_stat, put_self s item) refl

module _ (s : Fat) (room : HasRoom (s.fat_kernel.heap) 3) where
  pub first_alloc-Fresh :
      Fresh (s.fat_kernel.heap) 2 (first_alloc s.fat_kernel).0 (first_alloc s.fat_kernel).1.heap
  first_alloc-Fresh = kzalloc-Fresh s.fat_kernel 8 2 (omega arith) (omega arith) room

  pub second_alloc-Fresh :
      Fresh
        (first_alloc s.fat_kernel).1.heap
        1
        (second_alloc s.fat_kernel).0
        (second_alloc s.fat_kernel).1.heap
  second_alloc-Fresh =
      kzalloc-Fresh (first_alloc s.fat_kernel).1 8 1 (omega arith) (omega arith)
        first_alloc-Fresh.room

  pub third_alloc-Fresh :
      Fresh
        (second_alloc s.fat_kernel).1.heap
        0
        (third_alloc s.fat_kernel).0
        (third_alloc s.fat_kernel).1.heap
  third_alloc-Fresh =
      kzalloc-Fresh (second_alloc s.fat_kernel).1 item_size 0 (omega arith) (omega arith)
        second_alloc-Fresh.room

  pub heap_back : (item : DirectoryItem) → (closed_state s item).fat_kernel.heap ≡ s.fat_kernel.heap
  unfolding kfree
  heap_back item =
      ap (λ h. heap_free (heap_free h (second_alloc s.fat_kernel).0) (first_alloc s.fat_kernel).0)
        third_alloc-Fresh.undo
      ∙ ap (λ h. heap_free h (first_alloc s.fat_kernel).0) second_alloc-Fresh.undo
      ∙ first_alloc-Fresh.undo

  -- On a mounted file system, with three free blocks in the kernel's heap, `fat16_open` of a file of
  -- the root directory for reading gives a descriptor that is not NULL, `fat16_stat` of it succeeds
  -- with the size and the read-only flag of the directory's item, and `fat16_close` of it succeeds
  -- and gives back the heap as it was before, the descriptor's place and the mounted disk included.
  pub fat16_open-close :
      (sectors : ℕ → ℕ → ℕ) (a : ℕ) (fs : FatPrivate) (name : List ℕ) (item : DirectoryItem)
      → s.fs_private ≡ held a fs
      → HasFile (fs.root_directory) name item
      → (private : ℕ) × (s' : Fat) × (s'' : Fat) × (private ≢ 0)
        × (fat16_open sectors (name ∷ []) mode_read s ≡ some (ok private, s'))
        × (fat16_stat private s' ≡ some (done, stat_of item))
        × (fat16_close private s' ≡ some (done, s''))
        × (s''.fat_kernel.heap ≡ s.fat_kernel.heap)
        × (s''.open_files private ≡ none)
        × (s''.fs_private ≡ s.fs_private)
  fat16_open-close sectors a fs name item at h = (
    (first_alloc s.fat_kernel).0,
    opened s item,
    closed_state s item,
    first_alloc-Fresh.address,
    open_lem sectors s a fs name item at h first_alloc-Fresh.address second_alloc-Fresh.address
        third_alloc-Fresh.address,
    stat_lem s item,
    close_lem s a fs item at,
    heap_back item,
    rw (==_self (first_alloc s.fat_kernel).0) refl,
    refl,
  )
