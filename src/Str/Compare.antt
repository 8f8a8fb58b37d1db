-- ===== src/Str/Compare.antt =====
-- strncmp and istrncmp decide equality, and equality up to case, of strings that the count covers.
use bimble_os.Common.{ℕ, zero, suc, ◌<◌, ◌≡◌, ◌↔◌, refl, List, [], ◌∷◌, arith, length, map, min}
use mathlib.Core.Path.{ap₂}
use bimble_os.Common.Word.{sub32}
use bimble_os.Str.{tolower, strlen, strnlen, strncmp, istrncmp}

-- The bytes of a C string: none is 0.
abbrev pub IsText : List ℕ → Type 0
IsText [] = Unit
IsText (c ∷ s) = (0 < c) × (c < 256) × IsText s

-- `strnlen` is the length of the string, or the bound where that is smaller.
pub strnlen-min : (s : List ℕ) (max : ℕ) → IsText s → strnlen s max ≡ min (strlen s) max
unfolding strnlen strlen
strnlen-min s zero t = omega arith
strnlen-min [] (suc max) t = omega arith
strnlen-min (c ∷ s) (suc max) t = ground (arith, strnlen-min s max t.2)

sub32_zero : (a b : ℕ) → a < 256 → b < 256 → sub32 a b ≡ 0 → a ≡ b
sub32_zero a b ha hb e = omega arith

strncmp-there :
    (s1 s2 : List ℕ) (n : ℕ) → IsText s1 → IsText s2 → length s1 < n → strncmp s1 s2 n ≡ 0 → s1 ≡ s2
unfolding strncmp
strncmp-there s1 s2 zero t1 t2 lt e = absurd (omega arith)
strncmp-there [] [] (suc n) t1 t2 lt e = refl
strncmp-there [] (d ∷ s2) (suc n) t1 t2 lt e = ground arith
strncmp-there (c ∷ s1) [] (suc n) t1 t2 lt e = ground arith
strncmp-there (c ∷ s1) (d ∷ s2) (suc n) t1 t2 lt e = ground (arith, strncmp-there s1 s2 n t1.2 t2.2)

strncmp_same : (s : List ℕ) (n : ℕ) → strncmp s s n ≡ 0
unfolding strncmp
strncmp_same s zero = refl
strncmp_same [] (suc n) = refl
strncmp_same (c ∷ s) (suc n) = ground (arith, strncmp_same s n)

-- `strncmp` with a count above the length of the first string returns 0 exactly when the two strings
-- are equal.
pub strncmp_lem :
    (s1 s2 : List ℕ) (n : ℕ)
    → IsText s1
    → IsText s2
    → length s1 < n
    → (strncmp s1 s2 n ≡ 0) ↔ (s1 ≡ s2)
strncmp_lem s1 s2 n t1 t2 lt = (strncmp-there s1 s2 n t1 t2 lt, λ e. rw e (strncmp_same s2 n))

tolower_pos : (c : ℕ) → 0 < c → 0 < tolower c
unfolding tolower
tolower_pos c h = ground arith

tolower_nul : tolower 0 ≡ 0
unfolding tolower
tolower_nul = refl

-- One round at two characters.
istrncmp-suc :
    (c d : ℕ) (s1 s2 : List ℕ) (n : ℕ)
    → 0 < c
    → c < 256
    → d < 256
    → (istrncmp (c ∷ s1) (d ∷ s2) (suc n) ≡ 0) ↔ ((tolower c ≡ tolower d) × (istrncmp s1 s2 n ≡ 0))
unfolding istrncmp
istrncmp-suc c d s1 s2 n pos hc hd = (ground arith, ground arith)

istrncmp-there :
    (s1 s2 : List ℕ) (n : ℕ)
    → IsText s1
    → IsText s2
    → length s1 < n
    → istrncmp s1 s2 n ≡ 0
    → map tolower s1 ≡ map tolower s2
unfolding istrncmp
istrncmp-there s1 s2 zero t1 t2 lt e = absurd (omega arith)
istrncmp-there [] [] (suc n) t1 t2 lt e = refl
istrncmp-there [] (d ∷ s2) (suc n) t1 t2 lt e = ground (arith, tolower_pos d, tolower_nul)
istrncmp-there (c ∷ s1) [] (suc n) t1 t2 lt e = ground (arith, tolower_pos c, tolower_nul)
istrncmp-there (c ∷ s1) (d ∷ s2) (suc n) t1 t2 lt e =
    let step = (istrncmp-suc c d s1 s2 n t1.0 t1.1 t2.1).0 e in
    ap₂ ◌∷◌ step.0 (istrncmp-there s1 s2 n t1.2 t2.2 (omega arith) step.1)

istrncmp-back :
    (s1 s2 : List ℕ) (n : ℕ)
    → IsText s1
    → IsText s2
    → length s1 < n
    → map tolower s1 ≡ map tolower s2
    → istrncmp s1 s2 n ≡ 0
unfolding istrncmp
istrncmp-back s1 s2 zero t1 t2 lt e = refl
istrncmp-back [] [] (suc n) t1 t2 lt e = refl
istrncmp-back [] (d ∷ s2) (suc n) t1 t2 lt e = cc
istrncmp-back (c ∷ s1) [] (suc n) t1 t2 lt e = cc
istrncmp-back (c ∷ s1) (d ∷ s2) (suc n) t1 t2 lt e =
    let head : tolower c ≡ tolower d = cc in
    let tail : map tolower s1 ≡ map tolower s2 = cc in
    (istrncmp-suc c d s1 s2 n t1.0 t1.1 t2.1).1
      (head, istrncmp-back s1 s2 n t1.2 t2.2 (omega arith) tail)

-- `istrncmp` with a count above the length of the first string returns 0 exactly when the two strings
-- are equal once their capital letters are made small.
pub istrncmp_lem :
    (s1 s2 : List ℕ) (n : ℕ)
    → IsText s1
    → IsText s2
    → length s1 < n
    → (istrncmp s1 s2 n ≡ 0) ↔ (map tolower s1 ≡ map tolower s2)
istrncmp_lem s1 s2 n t1 t2 lt = (istrncmp-there s1 s2 n t1 t2 lt, istrncmp-back s1 s2 n t1 t2 lt)
