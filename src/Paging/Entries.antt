-- ===== src/Paging/Entries.antt =====
-- paging_set and paging_get: the entry of a virtual page, for a directory whose tables are apart.
use bimble_os.Common.{
  ℕ, ◌+◌, ◌-◌, ◌*◌, ◌/◌, ◌%◌, ◌≤◌, ◌<◌, ◌≡◌, ◌≢◌, ◌⊎◌, ap, inl, inr, bit_and, arith, leb, ◌==◌,
  if◌then◌else◌, Bool-cases,
}
use bimble_os.Common.Bits.{bit_and-shl-ones}
use bimble_os.Common.Status.{done}
use bimble_os.Common.Word.{word_size}
use bimble_os.Memory.{Mem, load32, store32}
use bimble_os.Memory.Load.{load32-store32, load32-store32_apart}
use bimble_os.Paging.{page_size, page_mask, word_at, paging_set, paging_get}

-- The mask keeps the page of a word.
pub bit_and-page_mask : (x : ℕ) → x < word_size → bit_and x page_mask ≡ x - x % page_size
bit_and-page_mask x h = omega (
  arith,
  bit_and-shl-ones 12 20 x (x / page_size) (x % page_size) (omega arith) (omega arith)
      (omega arith),
)

-- The address of the table that serves a directory index.
abbrev pub table_of : Mem → ℕ → ℕ → ℕ
table_of m directory i = bit_and (load32 m (word_at directory i)) page_mask

-- A page directory: it and its 1024 tables are pages that are apart, in a memory of bytes.
pub record IsDirectory (m : Mem) (directory : ℕ) : Type 0 where
  pub bytes : (a : ℕ) → m a < 256
  pub aligned : directory % page_size ≡ 0
  pub inside : directory < word_size
  pub distinct :
      (i j : ℕ) → i < 1024 → j < 1024 → i ≢ j → table_of m directory i ≢ table_of m directory j
  pub apart : (i : ℕ) → i < 1024 → table_of m directory i ≢ directory

load32-lt : (m : Mem) (p : ℕ) → ((a : ℕ) → m a < 256) → load32 m p < word_size
load32-lt m p bytes = omega (arith, bytes p, bytes (p + 1), bytes (p + 2), bytes (p + 3))

-- A table is a page.
pub record IsPage (t : ℕ) : Type 0 where
  pub aligned : t % page_size ≡ 0
  pub inside : t < word_size

pub table_of-IsPage :
    {m : Mem} {directory : ℕ} (i : ℕ) → IsDirectory m directory → IsPage (table_of m directory i)
table_of-IsPage {m} {directory} i d =
    let w = load32 m (word_at directory i) in
    let small = load32-lt m (word_at directory i) d.bytes in
    let mask = bit_and-page_mask w small in record { aligned = omega arith; inside = omega arith }

-- Words of a page, and of two pages.
pub word_at_lem : {t : ℕ} (i : ℕ) → IsPage t → i < 1024 → word_at t i ≡ t + 4 * i
word_at_lem i p h = omega (arith, p.aligned, p.inside)

plain_apart :
    (t t' i j : ℕ)
    → IsPage t
    → IsPage t'
    → i < 1024
    → j < 1024
    → (t ≢ t') ⊎ (i ≢ j)
    → (t + 4 * i + 4 ≤ t' + 4 * j) ⊎ (t' + 4 * j + 4 ≤ t + 4 * i)
plain_apart t t' i j p p' hi hj ne = elim (Bool-cases (leb (t + 4 * i + 4) (t' + 4 * j))) [
  | inl below ↦ inl (ground arith)
  | inr above ↦
      let above' : t' + 4 * j < t + 4 * i + 4 = ground arith in
      inr (elim ne [
        | inl tables ↦ omega (arith, p.aligned, p'.aligned)
        | inr indexes ↦ omega (arith, p.aligned, p'.aligned)
      ])
]

pub words_apart :
    (t t' i j : ℕ)
    → IsPage t
    → IsPage t'
    → i < 1024
    → j < 1024
    → (t ≢ t') ⊎ (i ≢ j)
    → (word_at t i + 4 ≤ word_at t' j) ⊎ (word_at t' j + 4 ≤ word_at t i)
words_apart t t' i j p p' hi hj ne =
    rw (word_at_lem i p hi, word_at_lem j p' hj) (plain_apart t t' i j p p' hi hj ne)

-- The two indices of a virtual address.
abbrev pub directory_index : ℕ → ℕ
directory_index v = v / 0x40_0000

abbrev pub table_index : ℕ → ℕ
table_index v = v % 0x40_0000 / 0x1000

-- The address of the entry for a virtual page.
abbrev pub entry_at : Mem → ℕ → ℕ → ℕ
entry_at m directory v = word_at (table_of m directory (directory_index v)) (table_index v)

-- The virtual address of a page.
pub record IsVirtual (v : ℕ) : Type 0 where
  pub aligned : v % page_size ≡ 0
  pub inside : v < word_size

pub paging_set_eq :
    (directory v val : ℕ) (m : Mem)
    → v % page_size ≡ 0
    → paging_set directory v val m ≡ (done, store32 m (entry_at m directory v) val)
unfolding paging_set
paging_set_eq directory v val m h = rw h

pub paging_get_eq :
    (directory v : ℕ) (m : Mem)
    → v % page_size ≡ 0
    → paging_get directory v m ≡ load32 m (entry_at m directory v)
unfolding paging_get
paging_get_eq directory v m h = rw h

module _ {m : Mem} {directory : ℕ} (d : IsDirectory m directory) where
  entries_apart :
      (v v' : ℕ)
      → IsVirtual v
      → IsVirtual v'
      → v ≢ v'
      → (entry_at m directory v + 4 ≤ entry_at m directory v')
        ⊎ (entry_at m directory v' + 4 ≤ entry_at m directory v)
  entries_apart v v' p p' ne =
      words_apart _ _ (table_index v) (table_index v') (table_of-IsPage (directory_index v) d)
        (table_of-IsPage (directory_index v') d) (omega arith) (omega arith)
        (elim (Bool-cases (directory_index v == directory_index v')) [
          | inl same ↦
              let same' : directory_index v ≡ directory_index v' = ground arith in
              inr (λ e. ne (omega (arith, p.aligned, p'.aligned)))
          | inr differ ↦ inl (
              d.distinct (directory_index v) (directory_index v') (omega (arith, p.inside))
                (omega (arith, p'.inside)) (ground arith))
        ])

  -- A write to an entry leaves the directory's words alone.
  directory_word :
      (v val i : ℕ)
      → IsVirtual v
      → i < 1024
      → load32 (store32 m (entry_at m directory v) val) (word_at directory i)
        ≡ load32 m (word_at directory i)
  directory_word v val i p hi =
      load32-store32_apart m (entry_at m directory v) (word_at directory i) val (
        words_apart _ directory (table_index v) i (table_of-IsPage (directory_index v) d)
          (record { aligned = d.aligned; inside = d.inside }) (omega arith) hi
          (inl (d.apart (directory_index v) (omega (arith, p.inside)))))

  table_of-set :
      (v val i : ℕ)
      → IsVirtual v
      → i < 1024
      → table_of (store32 m (entry_at m directory v) val) directory i ≡ table_of m directory i
  table_of-set v val i p hi = ap (λ w. bit_and w page_mask) (directory_word v val i p hi)

  -- `paging_set` keeps the directory's shape.
  pub paging_set-IsDirectory :
      (v val : ℕ) → IsVirtual v → IsDirectory (paging_set directory v val m).1 directory
  paging_set-IsDirectory v val p = rw (paging_set_eq directory v val m p.aligned) (record {
    bytes = λ a. ground (arith, d.bytes a);
    aligned = d.aligned;
    inside = d.inside;
    distinct = λ i j hi hj ne.
        rw (table_of-set v val i p hi, table_of-set v val j p hj) (d.distinct i j hi hj ne);
    apart = λ i hi. rw (table_of-set v val i p hi) (d.apart i hi);
  })

  get-set_same :
      (v val : ℕ)
      → IsVirtual v
      → val < word_size
      → load32
          (store32 m (entry_at m directory v) val)
          (entry_at (store32 m (entry_at m directory v) val) directory v)
        ≡ val
  get-set_same v val p small =
      rw (table_of-set v val (directory_index v) p (omega (arith, p.inside)))
        (load32-store32 m (entry_at m directory v) val small)

  get-set_other :
      (v v' val : ℕ)
      → IsVirtual v
      → IsVirtual v'
      → v ≢ v'
      → load32
          (store32 m (entry_at m directory v) val)
          (entry_at (store32 m (entry_at m directory v) val) directory v')
        ≡ load32 m (entry_at m directory v')
  get-set_other v v' val p p' ne =
      rw (table_of-set v val (directory_index v') p (omega (arith, p'.inside))) (
        load32-store32_apart m (entry_at m directory v) (entry_at m directory v') val
          (entries_apart v v' p p' ne))

  -- After `paging_set` of a page the entry of that page is the value, and the entry of every other
  -- page is as before, if the tables of the directory are apart.
  pub paging_get-paging_set :
      (v v' val : ℕ)
      → IsVirtual v
      → IsVirtual v'
      → val < word_size
      → paging_get directory v' (paging_set directory v val m).1
        ≡ (if v == v' then val else paging_get directory v' m)
  paging_get-paging_set v v' val p p' small =
      rw
        (
          paging_set_eq directory v val m p.aligned,
          paging_get_eq directory v' (store32 m (entry_at m directory v) val) p'.aligned,
          paging_get_eq directory v' m p'.aligned,
        )
        (elim (Bool-cases (v == v')) [
          | inl same ↦
              let same' : v ≡ v' = ground arith in rw (same, ← same') (get-set_same v val p small)
          | inr other ↦ rw other (get-set_other v v' val p p' (ground arith))
        ])
