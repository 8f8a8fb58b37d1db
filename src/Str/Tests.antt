-- ===== src/Str/Tests.antt =====
-- Runs of the string functions, and the theorems about them at concrete strings.
use bimble_os.Common.{ℕ, ◌≡◌, refl, List, [], ◌∷◌}
use bimble_os.Str.{tolower, strncmp, istrncmp, strncpy}

-- "ELF", "elf" and "elm".
abbrev upper_elf : List ℕ
upper_elf = b'E' ∷ b'L' ∷ b'F' ∷ []

abbrev elf : List ℕ
elf = b'e' ∷ b'l' ∷ b'f' ∷ []

abbrev elm : List ℕ
elm = b'e' ∷ b'l' ∷ b'm' ∷ []

compare_runs : (istrncmp upper_elf elf 108 ≡ 0) × (strncmp elf elm 108 ≡ 0xffff_fff9)
unfolding istrncmp strncmp tolower
compare_runs = (refl, refl)

copy_runs : strncpy (1 ∷ 2 ∷ 3 ∷ 4 ∷ []) elf 3 ≡ b'e' ∷ b'l' ∷ 0 ∷ 4 ∷ []
unfolding strncpy
copy_runs = refl
