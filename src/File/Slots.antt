-- ===== src/File/Slots.antt =====
-- The search of a table of pointers for a place that holds NULL.
use bimble_os.Common.{
  ℕ, ◌+◌, ◌≡◌, refl, ap, ◌∙◌, Option, none, some, List, [], ◌∷◌, ◌++◌, arith, length,
}
use bimble_os.File.{first_free}

-- Every place of the table is in use.
abbrev pub AllUsed {ℓ} : {A : Type ℓ} → List (Option A) → Type 0
AllUsed [] = Unit
AllUsed (none ∷ xs) = ⊥
AllUsed (some x ∷ xs) = AllUsed xs

-- The first place behind those that are in use.
pub first_free_lem {ℓ} :
    {A : Type ℓ} (pre post : List (Option A)) (i : ℕ)
    → AllUsed pre
    → first_free (pre ++ (none ∷ post)) i ≡ some (i + length pre)
first_free_lem [] post i used = ap some (omega arith)
first_free_lem (none ∷ pre) post i used = absurd used
first_free_lem (some x ∷ pre) post i used =
    first_free_lem pre post (i + 1) used ∙ ap some (omega arith)

pub first_free-AllUsed {ℓ} :
    {A : Type ℓ} (xs : List (Option A)) (i : ℕ) → AllUsed xs → first_free xs i ≡ none
first_free-AllUsed [] i used = refl
first_free-AllUsed (none ∷ xs) i used = absurd used
first_free-AllUsed (some x ∷ xs) i used = first_free-AllUsed xs (i + 1) used
