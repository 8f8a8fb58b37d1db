-- ===== src/Heap/Chunks.antt =====
-- The abstract view of the block table: a sequence of free blocks and of allocations.
use mathlib.Core.List.{append_assoc}
use bimble_os.Common.{
  ℕ, zero, suc, ◌+◌, ◌-◌, ◌≤◌, ◌<◌, ◌≡◌, refl, sym, ap, ◌∙◌, List, [], ◌∷◌, ◌++◌, arith, length,
  get_or, bit_and, ltb, Bool-cases, inl, inr, replicate, length-append, length-replicate,
}
use bimble_os.Heap.{heap_get_entry_type}
use bimble_os.Heap.Search.{IsFree, FreeRun}

-- `taken k` is an allocation of k + 1 blocks.
pub data Chunk : Type 0 where
  free : Chunk
  taken : ℕ → Chunk

-- The entries of an allocation: its first block is marked, each but the last has a next one.
abbrev pub entries_of : Chunk → List ℕ
entries_of free = 0x00 ∷ []
entries_of (taken zero) = 0x41 ∷ []
entries_of (taken (suc k)) = 0xc1 ∷ (replicate k 0x81 ++ (0x01 ∷ []))

abbrev pub encode : List Chunk → List ℕ
encode [] = []
encode (c ∷ cs) = entries_of c ++ encode cs

abbrev pub frees : ℕ → List Chunk
frees n = replicate n free

pub encode-append : (xs ys : List Chunk) → encode (xs ++ ys) ≡ encode xs ++ encode ys
encode-append [] ys = refl
encode-append (x ∷ xs) ys =
    ap (λ l. entries_of x ++ l) (encode-append xs ys)
    ∙ sym (append_assoc (entries_of x) (encode xs) (encode ys))

pub encode-frees : (n : ℕ) → encode (frees n) ≡ replicate n 0
encode-frees zero = refl
encode-frees (suc n) = ap (λ l. 0 ∷ l) (encode-frees n)

pub length-entries_of : (k : ℕ) → length (entries_of (taken k)) ≡ suc k
length-entries_of zero = refl
length-entries_of (suc k) =
    omega
      (arith, length-append (replicate {A = ℕ} k 0x81) (0x01 ∷ []), length-replicate {A = ℕ} k 0x81)

-- Access behind a prefix.
pub get_or-skip : (xs ys : List ℕ) (i : ℕ) → get_or (xs ++ ys) (length xs + i) 0 ≡ get_or ys i 0
get_or-skip [] ys i = ap (λ j. get_or ys j 0) (omega arith)
get_or-skip (x ∷ xs) ys i =
    let e : suc (length xs) + i ≡ suc (length xs + i) = omega arith in rw e (get_or-skip xs ys i)

tail_busy :
    (k i : ℕ) (ys : List ℕ)
    → i < suc k
    → heap_get_entry_type (get_or ((replicate k 0x81 ++ (0x01 ∷ [])) ++ ys) i 0) ≡ 1
unfolding heap_get_entry_type
tail_busy zero zero ys h = refl
tail_busy zero (suc i) ys h = absurd (omega arith)
tail_busy (suc k) zero ys h = refl
tail_busy (suc k) (suc i) ys h = tail_busy k i ys (omega arith)

-- No entry of an allocation is free.
taken_busy : (k i : ℕ) (ys : List ℕ) → i < suc k → IsFree (entries_of (taken k) ++ ys) i → ⊥
unfolding heap_get_entry_type
taken_busy zero zero ys h f = omega arith
taken_busy zero (suc i) ys h f = omega arith
taken_busy (suc k) zero ys h f = omega arith
taken_busy (suc k) (suc i) ys h f =
    let busy : (bit_and (get_or ((replicate k 0x81 ++ (0x01 ∷ [])) ++ ys) i 0) 0x0f) ≡ 1 =
      tail_busy k i ys (omega arith) in
    omega arith

-- Free entries at the start of a table are free chunks.
split_front :
    (n : ℕ) (cs : List Chunk)
    → FreeRun (encode cs) 0 n
    → n ≤ length (encode cs)
    → (post : List Chunk) × (cs ≡ frees n ++ post)
split_front zero cs run h = (cs, refl)
split_front (suc n) [] run h = absurd (omega arith)
split_front (suc n) (free ∷ cs) run h =
    let (post, e) =
      split_front n cs (λ i lo hi. run (suc i) (omega arith) (omega arith)) (omega arith) in
    (post, ap (λ l. free ∷ l) e)
split_front (suc n) (taken k ∷ cs) run h =
    absurd (taken_busy k 0 (encode cs) (omega arith) (run 0 (omega arith) (omega arith)))

-- A run of free entries of the table is a run of free chunks.
pub record Split (cs : List Chunk) (s n : ℕ) : Type 0 where
  pub pre : List Chunk
  pub post : List Chunk
  pub shape : cs ≡ pre ++ (frees n ++ post)
  pub place : length (encode pre) ≡ s

pub FreeRun-Split :
    (cs : List Chunk) (s n : ℕ)
    → 0 < n
    → FreeRun (encode cs) s (s + n)
    → s + n ≤ length (encode cs)
    → Split cs s n
FreeRun-Split [] s n pos run h = absurd (omega arith)
FreeRun-Split (free ∷ cs) zero n pos run h =
    let (post, e) = split_front n (free ∷ cs) (λ i lo hi. run i lo (omega arith)) (omega arith) in
    record { pre = []; post = post; shape = e; place = refl }
FreeRun-Split (free ∷ cs) (suc s) n pos run h =
    let r =
      FreeRun-Split cs s n pos (λ i lo hi. run (suc i) (omega arith) (omega arith)) (omega arith) in
    record {
      pre = free ∷ r.pre;
      post = r.post;
      shape = ap (λ l. free ∷ l) r.shape;
      place = ap suc r.place;
    }
FreeRun-Split (taken k ∷ cs) s n pos run h = elim (Bool-cases (ltb s (suc k))) [
  | inl inside ↦
      absurd (taken_busy k s (encode cs) (ground arith) (run s (omega arith) (omega arith)))
  | inr beyond ↦
      let size = length-entries_of k in
      let total = length-append (entries_of (taken k)) (encode cs) in
      let gap : suc k ≤ s = ground arith in
      let r =
        FreeRun-Split cs (s - suc k) n pos
          (λ i lo hi. later i (run (suc k + i) (omega arith) (omega arith))) (omega arith) in
      record {
        pre = taken k ∷ r.pre;
        post = r.post;
        shape = ap (λ l. taken k ∷ l) r.shape;
        place = omega (arith, r.place, size, length-append (entries_of (taken k)) (encode (r.pre)));
      }
]
  where
    later : (i : ℕ) → IsFree (entries_of (taken k) ++ encode cs) (suc k + i) → IsFree (encode cs) i
    later i f =
        let at : length (entries_of (taken k)) + i ≡ suc k + i =
          omega (arith, length-entries_of k) in
        rw (← at, get_or-skip (entries_of (taken k)) (encode cs) i) at f
