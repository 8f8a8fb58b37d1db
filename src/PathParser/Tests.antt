-- ===== src/PathParser/Tests.antt =====
-- Runs of the parser, and its theorems at a concrete path.
use bimble_os.Common.{ℕ, ◌+◌, ◌≡◌, refl, none, some, List, [], ◌∷◌, arith}
use bimble_os.Heap.Allocator.{Allocator, kernel_allocator, kernel-HasBlocks}
use bimble_os.Heap.Kernel.{Kernel}
use bimble_os.Heap.Sample.{roomy, roomy-HasRoom}
use bimble_os.Str.{strlen, strnlen, is_digit, to_numeric_digit}
use bimble_os.PathParser.{
  PathRoot, pathparser_path_valid_format, pathparser_get_drive_by_path, pathparser_get_path_part,
  pathparser_parse_path_part, parse_parts, pathparser_parse,
}
use bimble_os.PathParser.RoundTrip.{print_path, pathparser_parse-print_path}

abbrev bin : List ℕ
bin = b'b' ∷ b'i' ∷ b'n' ∷ []

abbrev sh : List ℕ
sh = b's' ∷ b'h' ∷ []

abbrev root : PathRoot
root = record { drive_no = 0; first = bin ∷ sh ∷ [] }

-- A heap that counts its allocations.
abbrev counter : Allocator ℕ
counter = record { allocate = λ size n. (n + 1, n + 1); release = λ ptr n. n }

parse_runs : pathparser_parse counter (print_path 0 (bin ∷ sh ∷ [])) 0 ≡ (some root, 6)
unfolding pathparser_parse pathparser_get_drive_by_path pathparser_path_valid_format parse_parts
    pathparser_parse_path_part pathparser_get_path_part strlen strnlen is_digit to_numeric_digit
parse_runs = refl

-- A path with no drive.
parse_rejects : pathparser_parse counter bin 0 ≡ (none, 0)
unfolding pathparser_parse pathparser_get_drive_by_path pathparser_path_valid_format strlen strnlen
    is_digit
parse_rejects = refl

round_trip_example :
    (k : Kernel) × (pathparser_parse kernel_allocator (print_path 0 (bin ∷ sh ∷ [])) roomy
      ≡ (some root, k))
round_trip_example =
    pathparser_parse-print_path kernel-HasBlocks 0 (bin ∷ sh ∷ []) roomy (omega arith)
      ((λ e. cc, omega arith), ((λ e. cc, omega arith), tt)) (omega arith)
      (roomy-HasRoom 5 (omega arith))
