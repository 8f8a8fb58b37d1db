-- ===== src/Common/Lists.antt =====
-- C arrays as lists measured and indexed by native numbers, under the library's names.
use Prim.Native.Nat.{ℕ, zero, suc, ◌+◌, ◌<◌}
use mathlib.Core.Path.{◌≡◌, refl, ap}
use mathlib.Core.Logic.{◌≢◌}
use mathlib.Core.List.{List, [], ◌∷◌, ◌++◌}
use native.Mathlib.Omega.{arith}

module _ {ℓ} {A : Type ℓ} where
  abbrev pub length : List A → ℕ
  length [] = 0
  length (x ∷ xs) = suc (length xs)

  abbrev pub get_or : List A → ℕ → A → A
  get_or [] i d = d
  get_or (x ∷ xs) zero d = x
  get_or (x ∷ xs) (suc i) d = get_or xs i d

  -- A write out of bounds changes nothing.
  abbrev pub set : List A → ℕ → A → List A
  set [] i v = []
  set (x ∷ xs) zero v = v ∷ xs
  set (x ∷ xs) (suc i) v = x ∷ set xs i v

  abbrev pub take : ℕ → List A → List A
  take zero xs = []
  take (suc n) [] = []
  take (suc n) (x ∷ xs) = x ∷ take n xs

  abbrev pub drop : ℕ → List A → List A
  drop zero xs = xs
  drop (suc n) [] = []
  drop (suc n) (x ∷ xs) = drop n xs

  abbrev pub replicate : ℕ → A → List A
  replicate zero a = []
  replicate (suc n) a = a ∷ replicate n a

module _ {ℓ} {A : Type ℓ} where
  pub length-append : (xs ys : List A) → length (xs ++ ys) ≡ length xs + length ys
  length-append [] ys = omega arith
  length-append (x ∷ xs) ys = omega (arith, length-append xs ys)

  pub length-set : (xs : List A) (i : ℕ) (v : A) → length (set xs i v) ≡ length xs
  length-set [] i v = refl
  length-set (x ∷ xs) zero v = refl
  length-set (x ∷ xs) (suc i) v = ap suc (length-set xs i v)

  pub length-replicate : (n : ℕ) (a : A) → length (replicate n a) ≡ n
  length-replicate zero a = refl
  length-replicate (suc n) a = ap suc (length-replicate n a)

  pub get_or-set_self :
      (xs : List A) (i : ℕ) (v d : A) → i < length xs → get_or (set xs i v) i d ≡ v
  get_or-set_self [] i v d h = absurd (omega arith)
  get_or-set_self (x ∷ xs) zero v d h = refl
  get_or-set_self (x ∷ xs) (suc i) v d h = get_or-set_self xs i v d (omega arith)

  pub get_or-set_ne :
      (xs : List A) (i j : ℕ) (v d : A) → i ≢ j → get_or (set xs i v) j d ≡ get_or xs j d
  get_or-set_ne [] i j v d h = refl
  get_or-set_ne (x ∷ xs) zero zero v d h = absurd (h refl)
  get_or-set_ne (x ∷ xs) zero (suc j) v d h = refl
  get_or-set_ne (x ∷ xs) (suc i) zero v d h = refl
  get_or-set_ne (x ∷ xs) (suc i) (suc j) v d h = get_or-set_ne xs i j v d (λ e. h (ap suc e))

  -- Access at the first element behind a prefix.
  pub get_or-append :
      (xs : List A) (x : A) (ys : List A) (i : ℕ) (d : A)
      → i ≡ length xs
      → get_or (xs ++ (x ∷ ys)) i d ≡ x
  get_or-append [] x ys zero d h = refl
  get_or-append [] x ys (suc i) d h = absurd (omega arith)
  get_or-append (z ∷ xs) x ys zero d h = absurd (omega arith)
  get_or-append (z ∷ xs) x ys (suc i) d h = get_or-append xs x ys i d (omega arith)

  pub set-append :
      (xs : List A) (x : A) (ys : List A) (i : ℕ) (v : A)
      → i ≡ length xs
      → set (xs ++ (x ∷ ys)) i v ≡ xs ++ (v ∷ ys)
  set-append [] x ys zero v h = refl
  set-append [] x ys (suc i) v h = absurd (omega arith)
  set-append (z ∷ xs) x ys zero v h = absurd (omega arith)
  set-append (z ∷ xs) x ys (suc i) v h = ap (λ l. z ∷ l) (set-append xs x ys i v (omega arith))

  -- A copy at either end of a run of copies.
  pub replicate_snoc :
      (n : ℕ) (a : A) (ys : List A) → replicate n a ++ (a ∷ ys) ≡ a ∷ (replicate n a ++ ys)
  replicate_snoc zero a ys = refl
  replicate_snoc (suc n) a ys = ap (λ l. a ∷ l) (replicate_snoc n a ys)
