-- ===== src/PathParser.antt =====
-- fs/pparser.c: the parser of paths such as 0:/bin/shell.elf. A path is a C string, the linked list of
-- `struct PathPart` is the list of its strings, and NULL is `none`. A state `W` has the kernel's heap; a
-- write through a pointer that is NULL, which no part of the code reads again, is left out.
pub mod RoundTrip
mod Tests
use bimble_os.Common.{
  ℕ, zero, suc, ◌-◌, Bool, ◌&&◌, ◌||◌, Option, none, some, List, [], ◌∷◌, ◌==◌, leb, ltb,
  if◌then◌else◌, length,
}
use mathlib.Core.Bool.{not}
use bimble_os.Common.Status.{Result, ok, err, ebadpath}
use bimble_os.Heap.Allocator.{Allocator}
use bimble_os.Str.{first_char, next_chars, strlen, strnlen, is_digit, to_numeric_digit}

abbrev pub max_path : ℕ
max_path = 108

pub record PathRoot : Type 0 where
  pub drive_no : ℕ
  pub first : List (List ℕ)

-- `memcmp(&filename[1], ":/", 2) == 0`.
unfoldable pub pathparser_path_valid_format : List ℕ → Bool
pathparser_path_valid_format filename =
    leb 3 (strnlen filename max_path)
    && is_digit (first_char filename)
    && (first_char (next_chars filename) == b':'
        && first_char (next_chars (next_chars filename)) == b'/')

-- The drive, and the path behind its first three characters.
unfoldable pub pathparser_get_drive_by_path : List ℕ → Result (ℕ × List ℕ)
pathparser_get_drive_by_path path =
    if not (pathparser_path_valid_format path)
    then err ebadpath
    else ok (to_numeric_digit (first_char path), next_chars (next_chars (next_chars path)))

-- The loop over the characters of a part: the part, and the path from the one that ends it.
unfoldable pub part_chars : List ℕ → List ℕ × List ℕ
part_chars [] = ([], [])
part_chars (c ∷ path) =
    let rest = part_chars path in
    if not (c == b'/') && not (c == 0) then (c ∷ rest.0, rest.1) else ([], c ∷ path)

-- `sizeof` of `struct PathRoot` and `struct PathPart`.
abbrev pub path_root_size : ℕ
path_root_size = 8

abbrev pub path_part_size : ℕ
path_part_size = 8

module _ {W : Type 0} (heap : Allocator W) where
  -- The part and the path behind it; `none` is an empty part, of which the memory is freed, and one for
  -- which there is no memory.
  unfoldable pub pathparser_get_path_part : List ℕ → W → (Option (List ℕ) × List ℕ) × W
  unfolding part_chars
  pathparser_get_path_part path w =
      let (result_path_part, w') = heap.allocate max_path w in
      let (part, rest) = part_chars path in
      let rest' = if first_char rest == b'/' then next_chars rest else rest in
      elim part [
        | [] ↦ ((none, rest'), heap.release result_path_part w')
        | c ∷ cs ↦ ((if result_path_part == 0 then none else some (c ∷ cs), rest'), w')
      ]

  unfoldable pub pathparser_parse_path_part : List ℕ → W → (Option (List ℕ) × List ℕ) × W
  unfolding pathparser_get_path_part
  pathparser_parse_path_part path w =
      let ((path_part_str, rest), w') = pathparser_get_path_part path w in
      elim path_part_str [
        | none ↦ ((none, rest), w')
        | some p ↦
            let (part, w'') = heap.allocate path_part_size w' in
            ((if part == 0 then none else some p, rest), w'')
      ]

  -- The loop that appends a part after another, with fuel.
  unfoldable pub parse_parts : ℕ → List ℕ → W → List (List ℕ) × W
  unfolding pathparser_parse_path_part
  parse_parts zero path w = ([], w)
  parse_parts (suc fuel) path w =
      let ((part, rest), w') = pathparser_parse_path_part path w in
      let more = parse_parts fuel rest w' in
      elim part [ none ↦ ([], w') | some p ↦ (p ∷ more.0, more.1) ]

  -- Nothing is freed where the root or a part has no memory.
  unfoldable pub pathparser_parse : List ℕ → W → Option PathRoot × W
  unfolding parse_parts
  pathparser_parse path w =
      let parsed : Option PathRoot × W = elim (pathparser_get_drive_by_path path) [
        | err e ↦ (none, w)
        | ok (drive_no, rest) ↦
            let (root, w') = heap.allocate path_root_size w in
            let (first, w'') = parse_parts (suc (length rest)) rest w' in
            if root == 0
            then (none, w')
            else (some (record { drive_no = drive_no; first = first }), w'')
      ] in
      if ltb max_path (strlen path) then (none, w) else parsed
