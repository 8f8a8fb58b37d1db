-- ===== src/PathParser/RoundTrip.antt =====
-- Parsing a path that is written out gives back its drive and its parts.
use bimble_os.Common.{
  ℕ, zero, suc, ◌+◌, ◌-◌, ◌%◌, ◌≤◌, ◌<◌, ◌≡◌, ◌≢◌, refl, ap, ◌∙◌, true, false, some, List, [], ◌∷◌,
  ◌++◌, arith, length, length-append, ◌==◌, ==_ne, ltb, ◌*◌, Option, none, if◌then◌else◌,
}
use bimble_os.Common.Status.{ok}
use mathlib.Core.Path.{subst}
use bimble_os.Heap.Allocator.{Allocator, HasBlocks}
use bimble_os.Str.{first_char, next_chars, strlen, strnlen, is_digit, to_numeric_digit}
use bimble_os.PathParser.{
  max_path, pathparser_path_valid_format, pathparser_get_drive_by_path, part_chars,
  pathparser_get_path_part, pathparser_parse_path_part, parse_parts, pathparser_parse,
  path_root_size, path_part_size,
}

-- The characters of a part: neither a slash nor a 0.
abbrev pub IsPlain : List ℕ → Type 0
IsPlain [] = Unit
IsPlain (c ∷ cs) = (c ≢ b'/') × (c ≢ 0) × IsPlain cs

-- A part that a path can name.
abbrev pub IsPart : List ℕ → Type 0
IsPart p = (p ≢ []) × IsPlain p

abbrev pub AreParts : List (List ℕ) → Type 0
AreParts [] = Unit
AreParts (p ∷ ps) = IsPart p × AreParts ps

-- The text of the parts, a slash between two of them.
abbrev pub print_parts : List (List ℕ) → List ℕ
print_parts [] = []
print_parts (p ∷ []) = p
print_parts (p ∷ q ∷ ps) = p ++ (b'/' ∷ print_parts (q ∷ ps))

abbrev pub print_path : ℕ → List (List ℕ) → List ℕ
print_path drive ps = (b'0' + drive) ∷ b':' ∷ b'/' ∷ print_parts ps

plain_step :
    (c : ℕ) (path : List ℕ)
    → c ≢ b'/'
    → c ≢ 0
    → part_chars (c ∷ path) ≡ (c ∷ (part_chars path).0, (part_chars path).1)
unfolding part_chars
plain_step c path slash nul =
    let e : (c == b'/') ≡ false = ground arith in
    let f : (c == 0) ≡ false = ground arith in rw (e, f)

part_chars-end : (p : List ℕ) → IsPlain p → part_chars p ≡ (p, [])
part_chars-end [] plain = unfold part_chars in refl
part_chars-end (c ∷ cs) plain =
    plain_step c cs plain.0 plain.1 ∙ ap (λ r. (c ∷ r.0, r.1)) (part_chars-end cs plain.2)

part_chars-slash :
    (p rest : List ℕ) → IsPlain p → part_chars (p ++ (b'/' ∷ rest)) ≡ (p, b'/' ∷ rest)
part_chars-slash [] rest plain = unfold part_chars in refl
part_chars-slash (c ∷ cs) rest plain =
    plain_step c (cs ++ (b'/' ∷ rest)) plain.0 plain.1
    ∙ ap (λ r. (c ∷ r.0, r.1)) (part_chars-slash cs rest plain.2)

module _ {W : Type 0} {heap : Allocator W} (blocks : HasBlocks heap) where
  open blocks use {Room}

  -- A part, from the text of which the code reads `p` and goes on behind `rest`.
  path_part :
      (path p rest behind : List ℕ) (n : ℕ) (w : W)
      → p ≢ []
      → part_chars path ≡ (p, rest)
      → (if first_char rest == b'/' then next_chars rest else rest) ≡ behind
      → Room (suc (suc n)) w
      → (w' : W) × (pathparser_parse_path_part heap path w ≡ ((some p, behind), w')) × Room n w'
  unfolding pathparser_parse_path_part pathparser_get_path_part
  path_part path [] rest behind n w some_char chars next room = absurd (some_char refl)
  path_part path (c ∷ cs) rest behind n w some_char chars next room =
      let (string, room') = blocks.block max_path (suc n) w (omega arith) (omega arith) room in
      let w1 = (heap.allocate max_path w).1 in
      let (part, room'') = blocks.block path_part_size n w1 (omega arith) (omega arith) room' in
      let a = ==_ne (heap.allocate max_path w).0 0 string in
      let b = ==_ne (heap.allocate path_part_size w1).0 0 part in
      let ptr = (heap.allocate max_path w).0 in
      let Piece : Type 0 = (Option (List ℕ) × List ℕ) × W in
      let taken : List ℕ × List ℕ → Piece = λ r.
        let left = if first_char r.1 == b'/' then next_chars r.1 else r.1 in
        elim r.0 [
          | [] ↦ ((none, left), heap.release ptr w1)
          | d ∷ ds ↦ ((if ptr == 0 then none else some (d ∷ ds), left), w1)
        ] in
      let linked : Piece → Piece = λ r. elim r.0.0 [
        | none ↦ ((none, r.0.1), r.1)
        | some q ↦
            let x = heap.allocate path_part_size r.1 in
            ((if x.0 == 0 then none else some q, r.0.1), x.1)
      ] in
      let w2 = (heap.allocate path_part_size w1).1 in
      let string_eq : ((if ptr == 0 then none else some (c ∷ cs), behind), w1)
          ≡ ((some (c ∷ cs), behind), w1) =
        rw a refl in
      let part_eq : (
        (if (heap.allocate path_part_size w1).0 == 0 then none else some (c ∷ cs), behind),
        w2,
      )
          ≡ ((some (c ∷ cs), behind), w2) =
        rw b refl in
      (
        w2,
        ap linked (
              ap taken chars
              ∙ ap (λ l. ((if ptr == 0 then none else some (c ∷ cs), l), w1)) next
              ∙ string_eq)
            ∙ part_eq,
        room'',
      )

  -- The end of a path has no part.
  no_part : (w : W) → (w' : W) × (pathparser_parse_path_part heap [] w ≡ ((none, []), w'))
  unfolding pathparser_parse_path_part pathparser_get_path_part part_chars first_char
  no_part w = (heap.release (heap.allocate max_path w).0 (heap.allocate max_path w).1, refl)

  -- What the loop does behind a part.
  abbrev then_parts : ℕ → (Option (List ℕ) × List ℕ) × W → List (List ℕ) × W
  then_parts fuel r =
      let more = parse_parts heap fuel r.0.1 r.1 in
      elim r.0.0 [ none ↦ ([], r.1) | some p ↦ (p ∷ more.0, more.1) ]

  part_step :
      (fuel : ℕ) (path rest p : List ℕ) (w w' : W)
      → pathparser_parse_path_part heap path w ≡ ((some p, rest), w')
      → parse_parts heap (suc fuel) path w
        ≡ (p ∷ (parse_parts heap fuel rest w').0, (parse_parts heap fuel rest w').1)
  unfolding parse_parts
  part_step fuel path rest p w w' e = ap (then_parts fuel) e

  parse_parts-print :
      (fuel : ℕ) (ps : List (List ℕ)) (w : W)
      → AreParts ps
      → length ps < fuel
      → Room (2 * length ps) w
      → (w' : W) × (parse_parts heap fuel (print_parts ps) w ≡ (ps, w'))
  unfolding parse_parts
  parse_parts-print zero ps w parts lt room = absurd (omega arith)
  parse_parts-print (suc fuel) [] w parts lt room =
      let (w', e) = no_part w in (w', ap (then_parts fuel) e)
  parse_parts-print (suc zero) (p ∷ ps) w parts lt room = absurd (omega arith)
  parse_parts-print (suc (suc fuel)) (p ∷ []) w parts lt room =
      let (w', e, _) =
        path_part p p [] [] 0 w parts.0.0 (part_chars-end p parts.0.1) (unfold first_char in refl)
          room in
      let (w'', e') = no_part w' in
      (
        w'',
        part_step (suc fuel) p [] p w w' e
            ∙ ap (λ r. (p ∷ (then_parts fuel r).0, (then_parts fuel r).1)) e',
      )
  parse_parts-print (suc fuel) (p ∷ q ∷ ps) w parts lt room =
      let text = print_parts (q ∷ ps) in
      let count : 2 * length (p ∷ q ∷ ps) ≡ suc (suc (2 * length (q ∷ ps))) = omega arith in
      let (w', e, room') =
        path_part (p ++ (b'/' ∷ text)) p (b'/' ∷ text) text (2 * length (q ∷ ps)) w parts.0.0
          (part_chars-slash p text parts.0.1) (unfold first_char next_chars in refl)
          (subst (λ n. Room n w) count room) in
      let (w'', e') = parse_parts-print fuel (q ∷ ps) w' parts.1 (omega arith) room' in
      (w'', part_step fuel (p ++ (b'/' ∷ text)) text p w w' e ∙ ap (λ r. (p ∷ r.0, r.1)) e')

length-print_parts : (ps : List (List ℕ)) → AreParts ps → length ps ≤ length (print_parts ps)
length-print_parts [] parts = omega arith
length-print_parts ([] ∷ ps) parts = absurd (parts.0.0 refl)
length-print_parts ((c ∷ cs) ∷ []) parts = omega arith
length-print_parts ((c ∷ cs) ∷ q ∷ ps) parts = omega (
  arith,
  length-print_parts (q ∷ ps) parts.1,
  length-append (c ∷ cs) (b'/' ∷ print_parts (q ∷ ps)),
)

strnlen-ge_three :
    (a b c : ℕ) (rest : List ℕ) (max : ℕ)
    → 0 < a
    → 0 < b
    → 0 < c
    → 3 ≤ strnlen (a ∷ b ∷ c ∷ rest) (suc (suc (suc max)))
unfolding strnlen
strnlen-ge_three a b c rest max ha hb hc = ground arith

valid_of_print :
    (drive : ℕ) (rest : List ℕ)
    → drive < 10
    → pathparser_path_valid_format ((b'0' + drive) ∷ b':' ∷ b'/' ∷ rest) ≡ true
unfolding pathparser_path_valid_format is_digit
valid_of_print drive rest h = ground (
  arith,
  strnlen-ge_three (b'0' + drive) b':' b'/' rest 105 (omega arith) (omega arith) (omega arith),
)

drive_of_print :
    (drive : ℕ) (rest : List ℕ)
    → drive < 10
    → pathparser_get_drive_by_path ((b'0' + drive) ∷ b':' ∷ b'/' ∷ rest) ≡ ok (drive, rest)
unfolding pathparser_get_drive_by_path to_numeric_digit
drive_of_print drive rest h =
    let digit : (48 + drive + 4294967296 - 48) % 4294967296 ≡ drive = omega arith in
    rw (valid_of_print drive rest h, digit, pathparser_get_drive_by_path)

-- With a free block of the kernel's heap for the root and two for each part, the path of a drive below 10 and
-- of parts that are not empty and hold neither a slash nor a 0, if it has at most 108 characters, is
-- parsed to that drive and these parts.
pub pathparser_parse-print_path :
    {W : Type 0} {heap : Allocator W} (blocks : HasBlocks heap) (drive : ℕ) (ps : List (List ℕ))
    (w : W)
    → drive < 10
    → AreParts ps
    → length (print_path drive ps) ≤ max_path
    → blocks.Room (suc (2 * length ps)) w
    → (w' : W) × (pathparser_parse heap (print_path drive ps) w
        ≡ (some (record { drive_no = drive; first = ps }), w'))
unfolding pathparser_parse strlen
pathparser_parse-print_path {heap = heap} blocks drive ps w h parts short room =
    let fits : ltb max_path (length (print_path drive ps)) ≡ false = ground arith in
    let (root, room') =
      blocks.block path_root_size (2 * length ps) w (omega arith) (omega arith) room in
    let a = ==_ne (heap.allocate path_root_size w).0 0 root in
    let (w', e) =
      parse_parts-print blocks (suc (length (print_parts ps))) ps (heap.allocate path_root_size w).1
        parts (omega (arith, length-print_parts ps parts)) room' in
    (w', rw (fits, drive_of_print drive (print_parts ps) h, a, e) refl)
