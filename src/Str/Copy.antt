-- ===== src/Str/Copy.antt =====
-- strcpy and strncpy: what the buffer holds afterwards.
use mathlib.Core.List.{append_assoc}
use bimble_os.Common.{
  ℕ, zero, suc, ◌+◌, ◌-◌, ◌≤◌, ◌<◌, ◌≡◌, refl, sym, ap, ◌∙◌, List, [], ◌∷◌, ◌++◌, arith, length,
  take, drop, ◌==◌, false, set-append, length-append,
}
use bimble_os.Str.{strcpy_from, strcpy, strncpy_from, strncpy}
use bimble_os.Str.Compare.{IsText}

-- The buffer after `n` bytes.
drop_cons : (n : ℕ) (xs : List ℕ) → n < length xs → (x : ℕ) × (drop n xs ≡ x ∷ drop (suc n) xs)
drop_cons n [] lt = absurd (omega arith)
drop_cons zero (x ∷ xs) lt = (x, refl)
drop_cons (suc n) (x ∷ xs) lt = drop_cons n xs (omega arith)

snoc : (pre : List ℕ) (c : ℕ) (ys : List ℕ) → pre ++ (c ∷ ys) ≡ (pre ++ (c ∷ [])) ++ ys
snoc pre c ys = sym (append_assoc pre (c ∷ []) ys)

strcpy_from_lem :
    (src pre ys : List ℕ) (i : ℕ)
    → i ≡ length pre
    → length src < length ys
    → strcpy_from (pre ++ ys) i src ≡ pre ++ (src ++ (0 ∷ drop (suc (length src)) ys))
unfolding strcpy_from
strcpy_from_lem src pre [] i e room = absurd (omega arith)
strcpy_from_lem [] pre (y ∷ ys) i e room = set-append pre y ys i 0 e
strcpy_from_lem (c ∷ src) pre (y ∷ ys) i e room = rw (set-append pre y ys i c e) (
    ap (λ l. strcpy_from l (i + 1) src) (snoc pre c ys)
    ∙ strcpy_from_lem src (pre ++ (c ∷ [])) ys (i + 1) (omega (arith, length-append pre (c ∷ [])))
        (omega arith)
    ∙ append_assoc pre (c ∷ []) (src ++ (0 ∷ drop (suc (length src)) ys)))

-- `strcpy` of a string into a buffer that has room for it and its 0 writes these, and leaves the rest
-- of the buffer as it is.
pub strcpy_lem :
    (dest src : List ℕ)
    → length src < length dest
    → strcpy dest src ≡ src ++ (0 ∷ drop (suc (length src)) dest)
unfolding strcpy
strcpy_lem dest src room = strcpy_from_lem src [] dest 0 refl room

strncpy_from_lem :
    (n : ℕ) (src pre ys : List ℕ) (i : ℕ)
    → IsText src
    → i ≡ length pre
    → n < length ys
    → strncpy_from n (pre ++ ys) i src
      ≡ pre ++ (take n src ++ (0 ∷ drop (suc (length (take n src))) ys))
unfolding strncpy_from
strncpy_from_lem n src pre [] i t e room = absurd (omega arith)
strncpy_from_lem zero src pre (y ∷ ys) i t e room = set-append pre y ys i 0 e
strncpy_from_lem (suc n) [] pre (y ∷ ys) i t e room = set-append pre y ys i 0 e
strncpy_from_lem (suc n) (c ∷ src) pre (y ∷ ys) i t e room =
    let some : (c == 0) ≡ false = ground (arith, t.0) in
    rw (some, set-append pre y ys i c e)
      (ap (λ l. strncpy_from n l (i + 1) src) (snoc pre c ys)
        ∙ strncpy_from_lem n src (pre ++ (c ∷ [])) ys (i + 1) t.2
            (omega (arith, length-append pre (c ∷ []))) (omega arith)
        ∙ append_assoc pre (c ∷ []) (take n src ++ (0 ∷ drop (suc (length (take n src))) ys)))

-- `strncpy` into a buffer of at least `count` bytes writes the string, cut to `count - 1` bytes, and a
-- 0 behind it, and leaves the rest of the buffer as it is.
pub strncpy_lem :
    (dest src : List ℕ) (count : ℕ)
    → IsText src
    → 0 < count
    → count ≤ length dest
    → strncpy dest src count
      ≡ take (count - 1) src ++ (0 ∷ drop (suc (length (take (count - 1) src))) dest)
unfolding strncpy
strncpy_lem dest src count t pos room =
    strncpy_from_lem (count - 1) src [] dest 0 t refl (omega arith)
