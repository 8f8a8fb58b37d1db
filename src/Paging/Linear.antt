-- ===== src/Paging/Linear.antt =====
-- The words of pages under the writes of paging_new.
use bimble_os.Common.{
  ℕ, zero, suc, ◌+◌, ◌*◌, ◌≤◌, ◌<◌, ◌≡◌, ◌≢◌, refl, ap, ◌∙◌, false, Bool-cases, inl, inr, bit_or,
  arith, ◌==◌, leb, ltb, ◌&&◌, if◌then◌else◌,
}
use bimble_os.Common.Word.{add32, word_size}
use bimble_os.Memory.{Mem, load32, store32}
use bimble_os.Memory.Laws.{within}
use bimble_os.Memory.Load.{load32-store32, load32-store32_apart}
use bimble_os.Paging.{page_size, word_at}
use bimble_os.Paging.Create.{fill_table}
use bimble_os.Paging.Entries.{IsPage, words_apart, word_at_lem}
use bimble_os.Paging.Map.{bit_or-flags}

abbrev pub Bytes : Mem → Type 0
Bytes m = (a : ℕ) → m a < 256

-- The 1024 words of a page are the same.
abbrev pub SamePage : Mem → Mem → ℕ → Type 0
SamePage m m' t = (x : ℕ) → x < 1024 → load32 m' (word_at t x) ≡ load32 m (word_at t x)

pub store32-Bytes : (m : Mem) (p v : ℕ) → Bytes m → Bytes (store32 m p v)
store32-Bytes m p v h a = ground (arith, h a)

-- A write to a word of another page.
pub store32-SamePage :
    (m : Mem) (t t' i v : ℕ)
    → IsPage t
    → IsPage t'
    → i < 1024
    → t ≢ t'
    → SamePage m (store32 m (word_at t i) v) t'
store32-SamePage m t t' i v p p' hi ne x hx =
    load32-store32_apart m (word_at t i) (word_at t' x) v (words_apart t t' i x p p' hi hx (inl ne))

-- A write to a word of a page, and its words.
pub store32_word :
    (m : Mem) (t i v x : ℕ)
    → IsPage t
    → i < 1024
    → x < 1024
    → v < word_size
    → load32 (store32 m (word_at t i) v) (word_at t x)
      ≡ (if x == i then v else load32 m (word_at t x))
store32_word m t i v x p hi hx small = elim (Bool-cases (x == i)) [
  | inl same ↦
      let e : x ≡ i = ground (arith, same) in rw (same, e) (load32-store32 m (word_at t i) v small)
  | inr other ↦
      let ne : i ≢ x = ground (arith, other) in
      rw other (
        load32-store32_apart m (word_at t i) (word_at t x) v
          (words_apart t t i x p p hi hx (inr ne)))
]

-- The page of an allocation that was made in between, and another one.
pub outside-SamePage :
    (m m' : Mem) (e size t : ℕ)
    → ((a : ℕ) → m' a ≡ (if within e size a then 0 else m a))
    → size ≤ page_size
    → IsPage e
    → IsPage t
    → e ≢ t
    → SamePage m m' t
outside-SamePage m m' e size t h small pe pt ne x hx =
    let w = word_at_lem x pt hx in
    let far : (k : ℕ) → k < 4 → m' (word_at t x + k) ≡ m (word_at t x + k) = λ k hk.
      let away : within e size (word_at t x + k) ≡ false =
        rw w (ground (arith, pe.aligned, pt.aligned, ne)) in
      h (word_at t x + k) ∙ rw away refl in
    let zero_th : m' (word_at t x) ≡ m (word_at t x) =
      ap m' (omega arith) ∙ far 0 (omega arith) ∙ ap m (omega arith) in
    rw (zero_th, far 1 (omega arith), far 2 (omega arith), far 3 (omega arith)) refl

module _ (entry offset flags : ℕ) (p : IsPage entry) (low : flags < page_size)
    (room : offset + 0x40_0000 ≤ word_size) where
  -- The value of an entry.
  entry_value :
      (j : ℕ)
      → j < 1024
      → add32 offset (bit_or (j * page_size) flags) ≡ offset + j * page_size + flags
  entry_value j h =
      let e = bit_or-flags (j * page_size) flags (omega arith) low in rw e (omega arith)

  pub fill_table-Bytes : (n j : ℕ) (m : Mem) → Bytes m → Bytes (fill_table n j entry offset flags m)
  unfolding fill_table
  fill_table-Bytes zero j m h = h
  fill_table-Bytes (suc n) j m h =
      fill_table-Bytes n (j + 1) _
        (store32-Bytes m (word_at entry j) (add32 offset (bit_or (j * page_size) flags)) h)

  pub fill_table-SamePage :
      (n j t : ℕ) (m : Mem)
      → j + n ≤ 1024
      → IsPage t
      → entry ≢ t
      → SamePage m (fill_table n j entry offset flags m) t
  unfolding fill_table
  fill_table-SamePage zero j t m h pt ne x hx = refl
  fill_table-SamePage (suc n) j t m h pt ne x hx =
      let v = add32 offset (bit_or (j * page_size) flags) in
      fill_table-SamePage n (j + 1) t (store32 m (word_at entry j) v) (omega arith) pt ne x hx
      ∙ store32-SamePage m entry t j v p pt (omega arith) ne x hx

  -- Each word that the loop writes is the address of its page in the table's range, with the flags.
  pub fill_table_lem :
      (n j x : ℕ) (m : Mem)
      → j + n ≤ 1024
      → x < 1024
      → load32 (fill_table n j entry offset flags m) (word_at entry x) ≡ (
          if leb j x && ltb x (j + n)
          then offset + x * page_size + flags
          else load32 m (word_at entry x))
  unfolding fill_table
  fill_table_lem zero j x m h hx = ground arith
  fill_table_lem (suc n) j x m h hx =
      let v = add32 offset (bit_or (j * page_size) flags) in
      let rest = fill_table_lem n (j + 1) x (store32 m (word_at entry j) v) (omega arith) hx in
      let here = store32_word m entry j v x p (omega arith) hx (omega arith) in
      let value = entry_value j (omega arith) in
      rest
      ∙ rw here (elim (Bool-cases (x == j)) [
        | inl same ↦ let e : x ≡ j = ground (arith, same) in rw (e, value) (ground arith)
        | inr other ↦ ground (arith, other)
      ])
