-- ===== src/Fat16/Names.antt =====
-- fs/fat/fat16.c: the name of a directory's item, 8 characters and 3 behind a dot.
use bimble_os.Common.{
  ℕ, zero, suc, ◌-◌, ◌≤◌, ◌≡◌, ◌≢◌, refl, ap, false, ◌&&◌, List, [], ◌∷◌, ◌++◌, arith, ◌==◌,
  if◌then◌else◌, length, replicate,
}
use mathlib.Core.Bool.{not}
use bimble_os.Fat16.{DirectoryItem}
use bimble_os.Str.{first_char, next_chars}

-- The characters written to `out`. The array is read at most `size` times, and `size` is not 0.
unfoldable pub fat16_to_proper_string : List ℕ → ℕ → List ℕ
fat16_to_proper_string input zero = []
fat16_to_proper_string input (suc size) =
    let rest = fat16_to_proper_string (next_chars input) size in
    if not (first_char input == 0x00) && not (first_char input == 0x20)
    then first_char input ∷ rest
    else []

-- The text in the buffer, which has room for it.
unfoldable pub fat16_get_full_relative_filename : DirectoryItem → List ℕ
fat16_get_full_relative_filename item =
    let name = fat16_to_proper_string item.filename 8 in
    let with_ext = name ++ (b'.' ∷ fat16_to_proper_string item.ext 3) in
    if not (first_char item.ext == 0x00) && not (first_char item.ext == 0x20)
    then with_ext
    else name

-- The characters of a name: neither 0 nor a space.
abbrev pub IsName : List ℕ → Type 0
IsName [] = Unit
IsName (c ∷ s) = (c ≢ 0x00) × (c ≢ 0x20) × IsName s

-- A name as the disk holds it, filled up with spaces.
abbrev pub padded : ℕ → List ℕ → List ℕ
padded size s = s ++ replicate (size - length s) 0x20

-- The name that people write.
abbrev pub dotted : List ℕ → List ℕ → List ℕ
dotted name [] = name
dotted name (c ∷ ext) = name ++ (b'.' ∷ c ∷ ext)

to_proper_string-padded :
    (size : ℕ) (s : List ℕ)
    → IsName s
    → length s ≤ size
    → fat16_to_proper_string (padded size s) size ≡ s
unfolding fat16_to_proper_string
to_proper_string-padded zero [] n le = refl
to_proper_string-padded (suc size) [] n le =
    let e : suc size - 0 ≡ suc size = omega arith in rw e refl
to_proper_string-padded zero (c ∷ s) n le = absurd (omega arith)
to_proper_string-padded (suc size) (c ∷ s) n le =
    let nul : (c == 0x00) ≡ false = let h = n.0 in ground arith in
    let space : (c == 0x20) ≡ false = let h = n.1 in ground arith in
    let step : suc size - suc (length s) ≡ size - length s = omega arith in
    rw (step, nul, space) (ap (λ l. c ∷ l) (to_proper_string-padded size s n.2 (omega arith)))

-- A name of at most 8 characters and an extension of at most 3, neither with a zero or a space in it,
-- that the disk holds filled up with spaces, are read as the name, with a dot and the extension
-- behind it where there is one.
pub fat16_get_full_relative_filename_lem :
    (item : DirectoryItem) (name ext : List ℕ)
    → IsName name
    → IsName ext
    → length name ≤ 8
    → length ext ≤ 3
    → item.filename ≡ padded 8 name
    → item.ext ≡ padded 3 ext
    → fat16_get_full_relative_filename item ≡ dotted name ext
unfolding fat16_get_full_relative_filename
fat16_get_full_relative_filename_lem item name [] n x le le' at_name at_ext =
    rw (at_ext, at_name, to_proper_string-padded 8 name n le) refl
fat16_get_full_relative_filename_lem item name (c ∷ ext) n x le le' at_name at_ext =
    let nul : (c == 0x00) ≡ false = let h = x.0 in ground arith in
    let space : (c == 0x20) ≡ false = let h = x.1 in ground arith in
    rw
      (
        at_ext,
        nul,
        space,
        at_name,
        to_proper_string-padded 8 name n le,
        to_proper_string-padded 3 (c ∷ ext) x le',
      )
      refl
