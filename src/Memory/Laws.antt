-- ===== src/Memory/Laws.antt =====
-- What `memset`, `memcpy` and `memcmp` do, for ranges that do not run round the address space.
use bimble_os.Common.{
  ℕ, zero, suc, ◌+◌, ◌-◌, ◌%◌, ◌≤◌, ◌<◌, ◌≡◌, refl, ◌∙◌, ◌↔◌, ◌⊎◌, arith, ap, Bool, ◌&&◌, leb, ltb,
  if◌then◌else◌,
}
use bimble_os.Common.Word.{word_size, add32}
use native.Mathlib.Nat.{add-zero}
use bimble_os.Memory.{Mem, store8, memset_loop, memset, memcmp, memcpy}

-- Is the address among the `n` from `p` on?
abbrev pub within : ℕ → ℕ → ℕ → Bool
within p n a = leb p a && ltb a (p + n)

memset_loop_lem :
    (n i ptr c : ℕ) (m : Mem) (a : ℕ)
    → ptr + i + n ≤ word_size
    → memset_loop n i ptr c m a ≡ (if within (ptr + i) n a then c % 256 else m a)
unfolding memset_loop
memset_loop_lem zero i ptr c m a h = ground arith
memset_loop_lem (suc n) i ptr c m a h =
    ground (arith, memset_loop_lem n (i + 1) ptr c (store8 m (add32 ptr i) c) a)

-- `memset` writes the low byte of `c` at each of the `size` addresses from `ptr` on, and changes no
-- other byte, if the range ends within the address space.
pub memset_lem :
    (ptr c size : ℕ) (m : Mem) (a : ℕ)
    → ptr + size ≤ word_size
    → memset ptr c size m a ≡ (if within ptr size a then c % 256 else m a)
unfolding memset
memset_lem ptr c size m a h = ground (arith, memset_loop_lem size 0 ptr c m a)

-- The two ranges share no address.
abbrev pub Apart : ℕ → ℕ → ℕ → Type 0
Apart p q n = (p + n ≤ q) ⊎ (q + n ≤ p)

-- One round: the range that is left, and the byte written.
memcpy_step :
    (dest src len : ℕ) (m m' : Mem) (a : ℕ)
    → ((b : ℕ) → m b < 256)
    → dest + suc len ≤ word_size
    → src + suc len ≤ word_size
    → Apart dest src (suc len)
    → m' ≡ store8 m dest (m src)
    → (if within (add32 dest 1) len a then m' (add32 src 1 + (a - add32 dest 1)) else m' a)
      ≡ (if within dest (suc len) a then m (src + (a - dest)) else m a)
memcpy_step dest src len m m' a bytes hd hs apart e = rw e (
    ground (
      arith,
      bytes src,
      at (add32 src 1 + (a - add32 dest 1)) (src + (a - dest)),
      at src (src + (a - dest)),
    ))
  where
    at : (x y : ℕ) → x ≡ y → m x ≡ m y
    at x y q = ap m q

-- `memcpy` puts the `len` bytes at `src` at `dest`, and changes no other byte, if the two ranges are
-- apart and end within the address space, and memory holds bytes.
pub memcpy_lem :
    (dest src len : ℕ) (m : Mem) (a : ℕ)
    → ((b : ℕ) → m b < 256)
    → dest + len ≤ word_size
    → src + len ≤ word_size
    → Apart dest src len
    → memcpy dest src len m a ≡ (if within dest len a then m (src + (a - dest)) else m a)
unfolding memcpy
memcpy_lem dest src zero m a bytes hd hs apart = ground arith
memcpy_lem dest src (suc len) m a bytes hd hs apart =
    memcpy_lem (add32 dest 1) (add32 src 1) len (store8 m dest (m src)) a
      (λ b. ground (arith, bytes b)) (omega arith) (omega arith) (ground arith)
    ∙ memcpy_step dest src len m _ a bytes hd hs apart refl

memcmp-suc :
    (s1 s2 count : ℕ) (m : Mem)
    → s1 + suc count ≤ word_size
    → s2 + suc count ≤ word_size
    → (memcmp s1 s2 (suc count) m ≡ 0)
      ↔ ((m s1 ≡ m s2) × (memcmp (add32 s1 1) (add32 s2 1) count m ≡ 0))
unfolding memcmp
memcmp-suc s1 s2 count m h1 h2 = (ground arith, ground arith)

-- Equality of two ranges by their first bytes and the rest.
Same : Mem → ℕ → ℕ → ℕ → Type 0
Same m s1 s2 n = (i : ℕ) → i < n → m (s1 + i) ≡ m (s2 + i)

Same-cons :
    (m : Mem) (s1 s2 n : ℕ)
    → s1 + suc n ≤ word_size
    → s2 + suc n ≤ word_size
    → m s1 ≡ m s2
    → Same m (add32 s1 1) (add32 s2 1) n
    → Same m s1 s2 (suc n)
unfolding Same
Same-cons m s1 s2 n h1 h2 e rest zero hi = rw (add-zero, add-zero) e
Same-cons m s1 s2 n h1 h2 e rest (suc i) hi =
    let l : s1 + suc i ≡ add32 s1 1 + i = omega arith in
    let r : s2 + suc i ≡ add32 s2 1 + i = omega arith in rw (l, r) (rest i (omega arith))

Same-tail :
    (m : Mem) (s1 s2 n : ℕ)
    → s1 + suc n ≤ word_size
    → s2 + suc n ≤ word_size
    → Same m s1 s2 (suc n)
    → Same m (add32 s1 1) (add32 s2 1) n
unfolding Same
Same-tail m s1 s2 n h1 h2 all i hi =
    let l : add32 s1 1 + i ≡ s1 + suc i = omega arith in
    let r : add32 s2 1 + i ≡ s2 + suc i = omega arith in rw (l, r) (all (suc i) (omega arith))

Same-head : (m : Mem) (s1 s2 n : ℕ) → Same m s1 s2 (suc n) → m s1 ≡ m s2
unfolding Same
Same-head m s1 s2 n all = rw (add-zero, add-zero) at (all 0 (omega arith))

memcmp-Same :
    (s1 s2 count : ℕ) (m : Mem)
    → s1 + count ≤ word_size
    → s2 + count ≤ word_size
    → (memcmp s1 s2 count m ≡ 0) ↔ Same m s1 s2 count
unfolding memcmp Same
memcmp-Same s1 s2 zero m h1 h2 = (λ e i hi. absurd (omega arith), λ all. refl)
memcmp-Same s1 s2 (suc count) m h1 h2 =
    let step = memcmp-suc s1 s2 count m h1 h2 in
    let ih = memcmp-Same (add32 s1 1) (add32 s2 1) count m (omega arith) (omega arith) in
    (
      λ e. let parts = step.0 e in Same-cons m s1 s2 count h1 h2 parts.0 (ih.0 parts.1),
      λ all. step.1 (Same-head m s1 s2 count all, ih.1 (Same-tail m s1 s2 count h1 h2 all)),
    )

-- `memcmp` returns 0 exactly when the `count` bytes at `s1` and at `s2` are equal, if both ranges end
-- within the address space.
pub memcmp_lem :
    (s1 s2 count : ℕ) (m : Mem)
    → s1 + count ≤ word_size
    → s2 + count ≤ word_size
    → (memcmp s1 s2 count m ≡ 0) ↔ ((i : ℕ) → i < count → m (s1 + i) ≡ m (s2 + i))
unfolding Same
memcmp_lem s1 s2 count m h1 h2 = memcmp-Same s1 s2 count m h1 h2
