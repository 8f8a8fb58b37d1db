-- ===== src/File/Tests.antt =====
-- The theorems about file.c over a file system of one file.
use bimble_os.Common.{
  ℕ, zero, suc, ◌+◌, ◌-◌, ◌≡◌, refl, Option, none, some, List, [], ◌∷◌, ◌++◌, arith, replicate,
  length-replicate,
}
use bimble_os.Common.Status.{ok, err, done, eio}
use bimble_os.Heap.Allocator.{Allocator}
use bimble_os.Str.{strncmp, strlen, strnlen, is_digit, to_numeric_digit}
use bimble_os.File.{
  FileDescriptor, Files, Filesystem, FileMode, file_get_descriptor, file_get_mode_by_string,
  mode_read, mode_invalid, fopen, fclose,
}
use bimble_os.File.Slots.{AllUsed}
use bimble_os.File.Descriptors.{Opens, descriptor, fopen_lem, fopen_last}
use bimble_os.PathParser.{
  pathparser_parse, pathparser_get_drive_by_path, pathparser_path_valid_format, parse_parts,
  pathparser_parse_path_part, pathparser_get_path_part,
}
use mathlib.Core.Path.{subst}

-- The state counts the open files, and the private data is the position.
abbrev counter : Filesystem ℕ ℕ
counter = record {
  resolve = λ disk opened. (done, opened);
  fs_open = λ disk path mode opened. (ok 0, opened + 1);
  read = λ disk pos size nmemb opened. ((ok nmemb, []), opened);
  seek = λ pos offset whence opened. (done, opened);
  close = λ pos opened. (done, opened - 1);
  stat = λ disk pos opened. ((done, record { flags = 0; filesize = 0 }), opened);
}

-- "0:/a" and "r".
abbrev a_path : List ℕ
a_path = b'0' ∷ b':' ∷ b'/' ∷ b'a' ∷ []

abbrev r_mode : List ℕ
r_mode = b'r' ∷ []

-- A heap that has a block for every allocation.
abbrev counting : Allocator ℕ
counting = record {
  allocate = λ size opened. (0x0100_0000, opened);
  release = λ ptr opened. opened;
}

abbrev mounted : List (Option (FileDescriptor ℕ ℕ)) → Files ℕ ℕ
mounted table = record {
  heap = counting;
  filesystems = some counter ∷ replicate 11 none;
  file_descriptors = table;
  disk_filesystem = some counter;
  world = 0;
}

abbrev in_use : ℕ → List (Option (FileDescriptor ℕ ℕ))
in_use n = replicate n (some (descriptor 0x0100_0000 1 counter 0))

in_use-AllUsed : (n : ℕ) → AllUsed (in_use n)
in_use-AllUsed zero = tt
in_use-AllUsed (suc n) = in_use-AllUsed n

IsRead : FileMode → Type 0
IsRead mode_invalid = ⊥
IsRead mode = Unit

counter-Opens :
    (table : List (Option (FileDescriptor ℕ ℕ))) → Opens (mounted table) a_path r_mode counter 0 1
unfolding IsRead file_get_mode_by_string strncmp pathparser_parse strlen strnlen is_digit
    to_numeric_digit pathparser_get_drive_by_path pathparser_path_valid_format parse_parts
    pathparser_parse_path_part pathparser_get_path_part
counter-Opens table = record {
  part = b'a' ∷ [];
  parts = [];
  behind = 0;
  mode = mode_read;
  parsed = refl;
  on_disk = refl;
  with_mode = refl;
  valid = λ e. subst IsRead e tt;
  opened = refl;
}

fopen_example :
    ((fopen a_path r_mode (mounted (none ∷ replicate 511 none))).0 ≡ 1)
    × (file_get_descriptor 1
          (fopen a_path r_mode (mounted (none ∷ replicate 511 none))).1.file_descriptors
        ≡ some (descriptor 0x0100_0000 1 counter 0))
    × (fclose 1 (fopen a_path r_mode (mounted (none ∷ replicate 511 none))).1
        ≡ (done, mounted (none ∷ replicate 511 none)))
fopen_example =
    fopen_lem [] (replicate 511 none) (counter-Opens (none ∷ replicate 511 none)) refl tt
      (omega arith) (λ e. omega (arith, e)) refl

fopen_last_example :
    ((fopen a_path r_mode (mounted (in_use 511 ++ (none ∷ [])))).0 ≡ 512)
    × (fclose 512 (fopen a_path r_mode (mounted (in_use 511 ++ (none ∷ [])))).1
        ≡ (err eio, (fopen a_path r_mode (mounted (in_use 511 ++ (none ∷ [])))).1))
fopen_last_example =
    fopen_last (in_use 511) (counter-Opens (in_use 511 ++ (none ∷ []))) refl (in_use-AllUsed 511)
      (length-replicate 511 (some (descriptor 0x0100_0000 1 counter 0)))
