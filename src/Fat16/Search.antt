-- ===== src/Fat16/Search.antt =====
-- fat16_find_item_in_directory compares the names of the first items of a directory.
use bimble_os.Common.{
  ℕ, suc, ◌+◌, ◌<◌, ◌≡◌, ◌≢◌, refl, true, false, some, List, [], ◌∷◌, ◌++◌, arith, length, leb,
  ◌==◌, map,
}
use bimble_os.PathParser.{max_path}
use bimble_os.Str.{istrncmp, tolower}
use bimble_os.Str.Compare.{IsText, istrncmp_lem}
use bimble_os.Fat16.{FatDirectory, DirectoryItem, FatItem, Pointer, nil, int_limit}
use bimble_os.Fat16.Items.{
  array_of, find_items, fat16_find_item_in_directory, fat16_new_fat_item_for_directory_item,
}
use bimble_os.Fat16.Names.{fat16_get_full_relative_filename}
use bimble_os.Fat16.Volume.{Volume}

-- The item has the name, up to the case of its letters.
abbrev pub Named : List ℕ → DirectoryItem → Type 0
Named name item = map tolower (fat16_get_full_relative_filename item) ≡ map tolower name

-- The item's name is a string shorter than a path may be.
abbrev pub HasText : DirectoryItem → Type 0
HasText item =
    IsText (fat16_get_full_relative_filename item)
    × (length (fat16_get_full_relative_filename item) < max_path)

unfoldable pub NoneNamed : List ℕ → List DirectoryItem → Type 0
NoneNamed name [] = Unit
NoneNamed name (item ∷ items) = HasText item × (Named name item → ⊥) × NoneNamed name items

module _ (sectors : ℕ → ℕ → ℕ) where
  Named-test :
      (name : List ℕ) (item : DirectoryItem)
      → IsText name
      → HasText item
      → Named name item
      → (istrncmp (fat16_get_full_relative_filename item) name max_path == 0) ≡ true
  Named-test name item t has e =
      let same = (istrncmp_lem _ name max_path has.0 t has.1).1 e in ground (arith, same)

  other_name-test :
      (name : List ℕ) (item : DirectoryItem)
      → IsText name
      → HasText item
      → (Named name item → ⊥)
      → (istrncmp (fat16_get_full_relative_filename item) name max_path == 0) ≡ false
  other_name-test name item t has other =
      let differ : istrncmp (fat16_get_full_relative_filename item) name max_path ≢ 0 =
        λ e. other ((istrncmp_lem _ name max_path has.0 t has.1).0 e) in
      ground (arith, differ)

  -- Items of other names are passed over.
  skip_items :
      (pre post : List DirectoryItem) (n : ℕ) (name : List ℕ) (found : Pointer FatItem) (v : Volume)
      → IsText name
      → NoneNamed name pre
      → find_items sectors (length pre + n) (pre ++ post) name found v
        ≡ find_items sectors n post name found v
  unfolding find_items NoneNamed
  skip_items [] post n name found v t others = let e : 0 + n ≡ n = omega arith in rw e refl
  skip_items (item ∷ pre) post n name found v t others =
      let e : suc (length pre) + n ≡ suc (length pre + n) = omega arith in
      rw (e, find_items, other_name-test name item t others.0 others.1)
        (skip_items pre post n name found v t others.2)

  -- Where none of the first items of a directory, as many as its `total`, has the name up to the case
  -- of the letters, nothing is found and nothing changes, whatever items follow them.
  pub fat16_find_item_in_directory-none :
      (directory : FatDirectory) (pre post : List DirectoryItem) (name : List ℕ) (v : Volume)
      → IsText name
      → array_of (directory.item) ≡ pre ++ post
      → directory.total ≡ length pre
      → directory.total < int_limit
      → NoneNamed name pre
      → fat16_find_item_in_directory sectors directory name v ≡ some (nil, v)
  unfolding fat16_find_item_in_directory find_items
  fat16_find_item_in_directory-none directory pre post name v t items total small others =
      let kept : leb int_limit (directory.total) ≡ false = ground arith in
      let count : directory.total ≡ length pre + 0 = omega arith in
      rw
        (
          fat16_find_item_in_directory,
          items,
          kept,
          count,
          skip_items pre post 0 name nil v t others,
        )
        refl

  -- Where one of the first items of a directory, as many as its `total`, has the name up to the case
  -- of the letters, and no other of them has, that item is found: an item of the file system is
  -- made for it.
  pub fat16_find_item_in_directory_lem :
      (directory : FatDirectory) (pre mid post : List DirectoryItem) (item : DirectoryItem)
      (name : List ℕ) (v v' : Volume) (new : Pointer FatItem)
      → IsText name
      → array_of (directory.item) ≡ pre ++ (item ∷ (mid ++ post))
      → directory.total ≡ length pre + suc (length mid)
      → directory.total < int_limit
      → HasText item
      → Named name item
      → NoneNamed name pre
      → NoneNamed name mid
      → fat16_new_fat_item_for_directory_item sectors item v ≡ some (new, v')
      → fat16_find_item_in_directory sectors directory name v ≡ some (new, v')
  unfolding fat16_find_item_in_directory find_items
  fat16_find_item_in_directory_lem directory pre mid post item name v v' new t items total small has
        named others others' made =
      let kept : leb int_limit (directory.total) ≡ false = ground arith in
      let rest : length mid ≡ length mid + 0 = omega arith in
      rw
        (
          fat16_find_item_in_directory,
          items,
          kept,
          total,
          skip_items pre (item ∷ (mid ++ post)) (suc (length mid)) name nil v t others,
          find_items,
          Named-test name item t has named,
          made,
          rest,
          skip_items mid post 0 name new v' t others',
        )
        refl
