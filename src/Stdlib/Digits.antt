-- ===== src/Stdlib/Digits.antt =====
-- itoa writes the decimal digits of every `int`.
use bimble_os.Common.{
  ℕ, zero, suc, ◌+◌, ◌-◌, ◌*◌, ◌/◌, ◌%◌, ◌^◌, ◌≤◌, ◌<◌, ◌≡◌, ◌≢◌, refl, ap, ◌∙◌, true, false, List,
  [], ◌∷◌, inl, inr, ◌⊎◌, arith, length, leb, ◌==◌, Bool-cases,
}
use bimble_os.Common.Word.{word_size}
use bimble_os.Str.{first_char}
use bimble_os.Stdlib.{itoa, write_digits, text_size}

-- The number that digits stand for, behind those of `n`.
pub number : ℕ → List ℕ → ℕ
number n [] = n
number n (c ∷ s) = number (n * 10 + (c - 48)) s

abbrev pub AreDigits : List ℕ → Type 0
AreDigits [] = Unit
AreDigits (c ∷ s) = (b'0' ≤ c) × (c ≤ b'9') × AreDigits s

-- The decimal digits of a number, with no 0 in front.
pub record IsDecimal (m : ℕ) (s : List ℕ) : Type 0 where
  pub value : number 0 s ≡ m
  pub digits : AreDigits s
  pub leading : (s ≡ b'0' ∷ []) ⊎ (b'0' < first_char s)

-- The text of an `int`: digits, behind a minus sign where it is negative, and only there.
abbrev pub IntText : ℕ → List ℕ → Type 0
IntText i t =
    ((i < 0x8000_0000) × IsDecimal i t)
    ⊎ ((0x8000_0000 ≤ i) × (s : List ℕ) × (t ≡ b'-' ∷ s) × IsDecimal (word_size - i) s)

ten : (k : ℕ) → 10 ^ suc k ≡ 10 * 10 ^ k
ten k = omega arith

number-write_digits :
    (fuel m loc : ℕ) (s : List ℕ)
    → m < 10 ^ fuel
    → number 0 (write_digits fuel m (loc, s)).1 ≡ number m s
unfolding write_digits number
number-write_digits zero m loc s lt = let e : m ≡ 0 = omega arith in rw e refl
number-write_digits (suc fuel) m loc s lt = elim (Bool-cases (m == 0)) [
  | inl e ↦ let z : m ≡ 0 = ground arith in rw (e, z) refl
  | inr e ↦
      let step : m / 10 * 10 + (48 + m % 10 - 48) ≡ m = omega arith in
      rw e (
        number-write_digits fuel (m / 10) (loc - 1) ((48 + m % 10) ∷ s) (omega (arith, ten fuel))
        ∙ ap (λ n. number n s) step)
]

-- No character is written before the first of the text: as many are written as the index goes down.
room-write_digits :
    (k fuel m loc : ℕ) (s : List ℕ)
    → m < 10 ^ k
    → k ≤ fuel
    → k ≤ loc
    → ((write_digits fuel m (loc, s)).0 + length (write_digits fuel m (loc, s)).1 ≡ loc + length s)
      × (loc ≤ (write_digits fuel m (loc, s)).0 + k)
unfolding write_digits
room-write_digits zero zero m loc s lt le room = (refl, omega arith)
room-write_digits zero (suc fuel) m loc s lt le room =
    let e : (m == 0) ≡ true = ground arith in rw e (refl, omega arith)
room-write_digits (suc k) zero m loc s lt le room = absurd (omega arith)
room-write_digits (suc k) (suc fuel) m loc s lt le room = elim (Bool-cases (m == 0)) [
  | inl e ↦ rw e (refl, omega arith)
  | inr e ↦
      let rest =
        room-write_digits k fuel (m / 10) (loc - 1) ((48 + m % 10) ∷ s) (omega (arith, ten k))
          (omega arith) (omega arith) in
      rw e (omega (arith, rest.0), omega (arith, rest.1))
]

AreDigits-write_digits :
    (fuel m loc : ℕ) (s : List ℕ) → AreDigits s → AreDigits (write_digits fuel m (loc, s)).1
unfolding write_digits
AreDigits-write_digits zero m loc s h = h
AreDigits-write_digits (suc fuel) m loc s h = elim (Bool-cases (m == 0)) [
  | inl e ↦ rw e h
  | inr e ↦ rw e (
      AreDigits-write_digits fuel (m / 10) (loc - 1) ((48 + m % 10) ∷ s)
        (omega arith, omega arith, h))
]

nothing_left : (fuel loc : ℕ) (s : List ℕ) → write_digits fuel 0 (loc, s) ≡ (loc, s)
unfolding write_digits
nothing_left zero loc s = refl
nothing_left (suc fuel) loc s = refl

-- The first digit is not 0.
leading_digit :
    (fuel m loc : ℕ) (s : List ℕ)
    → m < 10 ^ fuel
    → m ≢ 0
    → 48 < first_char (write_digits fuel m (loc, s)).1
unfolding write_digits
leading_digit zero m loc s lt set = absurd (omega (arith, set, lt))
leading_digit (suc fuel) m loc s lt set =
    let e : (m == 0) ≡ false = ground (arith, set) in
    elim (Bool-cases (m / 10 == 0)) [
      | inr more ↦
          let left : m / 10 ≢ 0 = ground (arith, more) in
          rw e (
            leading_digit fuel (m / 10) (loc - 1) ((48 + m % 10) ∷ s) (omega (arith, lt, ten fuel))
              left)
      | inl last ↦
          let z : m / 10 ≡ 0 = ground (arith, last) in
          rw (e, z, nothing_left fuel (loc - 1) ((48 + m % 10) ∷ s)) (omega (arith, z, set))
    ]

not_empty : (s : List ℕ) → 48 ≤ first_char s → 1 ≤ length s
not_empty [] h = absurd (omega arith)
not_empty (c ∷ s) h = omega arith

-- What the loop leaves of a number that is not 0.
record IsWritten (m : ℕ) (w : ℕ × List ℕ) : Type 0 where
  place : w.0 + length (w.1) ≡ 11
  room : 1 ≤ w.0
  decimal : IsDecimal m (w.1)
  moved : (w.0 == 11) ≡ false

write_digits-IsWritten :
    (m : ℕ) → m ≢ 0 → m ≤ 0x8000_0000 → IsWritten m (write_digits text_size m (11, []))
unfolding write_digits number
write_digits-IsWritten m set le =
    let e : (m == 0) ≡ false = ground arith in
    let bounds = room-write_digits 10 12 m 11 [] (omega arith) (omega arith) (omega arith) in
    let first = leading_digit 12 m 11 [] (omega arith) set in
    let some_digit = not_empty (write_digits 12 m (11, [])).1 (omega (arith, first)) in
    record {
      decimal = record {
        value = number-write_digits 12 m 11 [] (omega arith);
        digits = AreDigits-write_digits 12 m 11 [] tt;
        leading = inr first;
      };
      place = bounds.0;
      room = omega (arith, bounds.1);
      moved = ground (arith, bounds.0, some_digit);
    }

itoa_zero : IntText 0 (itoa 0).1 × ((itoa 0).0 + length (itoa 0).1 ≡ 11)
unfolding itoa write_digits number
itoa_zero = (
  inl (
    omega arith,
    record { value = refl; digits = (omega arith, omega arith, tt); leading = inl refl },
  ),
  refl,
)

itoa_positive :
    (i : ℕ) → i ≢ 0 → i < 0x8000_0000 → IntText i (itoa i).1 × ((itoa i).0 + length (itoa i).1 ≡ 11)
unfolding itoa
itoa_positive i set lt =
    let w = write_digits-IsWritten i set (omega arith) in
    let sign : leb 0x8000_0000 i ≡ false = ground arith in
    rw (sign, w.moved) (inl (lt, w.decimal), w.place)

itoa_negative :
    (i : ℕ)
    → 0x8000_0000 ≤ i
    → i < word_size
    → IntText i (itoa i).1 × ((itoa i).0 + length (itoa i).1 ≡ 11)
unfolding itoa
itoa_negative i le lt =
    let w = write_digits-IsWritten (word_size - i) (omega arith) (omega arith) in
    let sign : leb 0x8000_0000 i ≡ true = ground arith in
    rw (sign, w.moved)
      (
        inr (le, (write_digits text_size (word_size - i) (11, [])).1, refl, w.decimal),
        omega (arith, w.place, w.room),
      )

-- For every `int` the text of `itoa` is its decimal digits, with no 0 in front, behind a minus sign where the
-- `int` is negative and only there, -2147483648 included. The text begins inside the buffer of 12
-- characters and ends at the 0 that is its last.
pub itoa_lem :
    (i : ℕ) → i < word_size → IntText i (itoa i).1 × ((itoa i).0 + length (itoa i).1 ≡ 11)
itoa_lem i lt = elim (Bool-cases (i == 0)) [
  | inl e ↦ let z : i ≡ 0 = ground arith in rw z itoa_zero
  | inr e ↦ elim (Bool-cases (leb 0x8000_0000 i)) [
    | inl neg ↦ itoa_negative i (ground arith) lt
    | inr pos ↦ itoa_positive i (ground arith) (ground arith)
  ]
]
