-- ===== src/Paging/Tables.antt =====
-- What the loop of paging_new has made after each round.
use bimble_os.Common.{
  ℕ, suc, ◌+◌, ◌*◌, ◌/◌, ◌%◌, ◌≤◌, ◌<◌, ◌≡◌, ◌≢◌, refl, sym, ap, ◌∙◌, true, false, Bool-cases, inl,
  inr, bit_or, arith, ◌==◌, if◌then◌else◌,
}
use bimble_os.Common.Bits.{bit_or-low}
use bimble_os.Common.Word.{word_size}
use bimble_os.Heap.Blocks.{NewBlock, entry_of}
use bimble_os.Heap.Kernel.{Kernel, kzalloc}
use bimble_os.Heap.Small.{HasRoom}
use bimble_os.Memory.{Mem, load32, store32}
use bimble_os.Paging.{page_size, word_at}
use bimble_os.Paging.Create.{fill_table, new_table}
use bimble_os.Paging.Entries.{IsPage}
use bimble_os.Paging.Linear.{
  Bytes, SamePage, store32-Bytes, store32-SamePage, store32_word, outside-SamePage,
  fill_table-Bytes, fill_table-SamePage, fill_table_lem,
}
use bimble_os.Paging.Map.{bit_or-flags}

-- The page of a block of a heap that starts at `base`.
abbrev pub page_of : ℕ → ℕ → ℕ
page_of base b = base + b * 4096

-- The flags of an entry of the directory.
abbrev pub directory_flags : ℕ → ℕ
directory_flags flags = bit_or flags 0x02

-- The first `i` tables of a directory: they are pages of their own, the directory points to them, and
-- each maps its 4 MB to themselves.
pub record Tables (k : Kernel) (base directory flags i : ℕ) : Type 0 where
  pub block : ℕ → ℕ
  pub own : ℕ
  pub start : k.heap.saddr ≡ base
  pub aligned : base % page_size ≡ 0
  pub bytes : Bytes (k.mem)
  pub at : directory ≡ page_of base own
  pub inside : directory + page_size ≤ 0x8000_0000
  pub held : entry_of (k.heap) own ≢ 0
  pub used : (j : ℕ) → j < i → entry_of (k.heap) (block j) ≢ 0
  pub other : (j : ℕ) → j < i → block j ≢ own
  pub distinct : (j l : ℕ) → j < i → l < i → j ≢ l → block j ≢ block l
  pub below : (j : ℕ) → j < i → page_of base (block j) + page_size ≤ 0x8000_0000
  pub word :
      (j : ℕ)
      → j < i
      → load32 (k.mem) (word_at directory j) ≡ page_of base (block j) + directory_flags flags
  pub entry :
      (j x : ℕ)
      → j < i
      → x < 1024
      → load32 (k.mem) (word_at (page_of base (block j)) x) ≡ j * 0x40_0000 + x * page_size + flags

pub page_of-IsPage :
    (base b : ℕ)
    → base % page_size ≡ 0
    → page_of base b + page_size ≤ 0x8000_0000
    → IsPage (page_of base b)
page_of-IsPage base b h le = record { aligned = omega arith; inside = omega arith }

pub page_of-ne : (base b c : ℕ) → b ≢ c → page_of base b ≢ page_of base c
page_of-ne base b c ne e = ne (omega (arith, e))

-- The word for a table.
pub directory_value :
    (e flags : ℕ)
    → IsPage e
    → flags < 8
    → (bit_or (bit_or e flags) 0x02 ≡ e + directory_flags flags) × (directory_flags flags < 8)
directory_value e flags p small =
    let plain = bit_or-flags e flags (p.aligned) (omega arith) in
    let page = p.aligned in
    let low =
      bit_or-low 3 (e + flags) (e / 8) flags 2 (omega (arith, page)) (omega arith) (omega arith) in
    (rw plain (low.0 ∙ omega (arith, page)), low.1)

module _ (k : Kernel) (base directory flags i n : ℕ) (small : flags < 8) (lt : i < 1024)
    (t : Tables k base directory flags i) (new : NewBlock k 4096 n (kzalloc 4096 k)) where
  abbrev e : ℕ
  e = (kzalloc 4096 k).0

  abbrev m' : Mem
  m' = (kzalloc 4096 k).1.mem

  e_eq : e ≡ page_of base (new.block)
  e_eq = omega (arith, new.address, t.start)

  e-IsPage : IsPage e
  e-IsPage = record { aligned = omega (arith, e_eq, t.aligned); inside = omega (arith, new.below) }

  directory-IsPage : IsPage directory
  directory-IsPage = record {
    aligned = omega (arith, t.at, t.aligned);
    inside = omega (arith, t.inside);
  }

  -- The new block is none of the old ones.
  fresh : (b : ℕ) → entry_of (k.heap) b ≢ 0 → b ≢ new.block
  fresh b used same = used (ap (λ c. entry_of (k.heap) c) same ∙ new.unused)

  e-ne : (b : ℕ) → entry_of (k.heap) b ≢ 0 → e ≢ page_of base b
  e-ne b used same = page_of-ne base b (new.block) (fresh b used) (sym same ∙ e_eq)

  e-ne-directory : e ≢ directory
  e-ne-directory same = e-ne (t.own) t.held (same ∙ t.at)

  abbrev filled : Mem
  filled = fill_table 1024 0 e (i * 0x40_0000) flags m'

  abbrev value : ℕ
  value = bit_or (bit_or e flags) 0x02

  abbrev m'' : Mem
  m'' = store32 filled (word_at directory i) value

  value_eq : value ≡ page_of base (new.block) + directory_flags flags
  value_eq = (directory_value e flags e-IsPage small).0 ∙ ap (λ p. p + directory_flags flags) e_eq

  value-lt : value < word_size
  value-lt = omega (
    arith,
    (directory_value e flags e-IsPage small).0,
    (directory_value e flags e-IsPage small).1,
    new.below,
  )

  -- Other pages stay, up to the write to the directory.
  filled-SamePage : (p : ℕ) → IsPage p → e ≢ p → SamePage (k.mem) filled p
  filled-SamePage p pp ne x hx =
      fill_table-SamePage e (i * 0x40_0000) flags e-IsPage (omega arith) (omega arith) 1024 0 p m'
        (omega arith) pp ne x hx
      ∙ outside-SamePage (k.mem) m' e 4096 p new.memory (omega arith) e-IsPage pp ne x hx

  m''-Bytes : Bytes m''
  m''-Bytes = store32-Bytes filled (word_at directory i) value (
      fill_table-Bytes e (i * 0x40_0000) flags e-IsPage (omega arith) (omega arith) 1024 0 m'
        (λ a. ground (arith, new.memory a, t.bytes a)))

  -- The words of the directory.
  m''-word :
      (j : ℕ)
      → j < 1024
      → load32 m'' (word_at directory j)
        ≡ (if j == i then value else load32 (k.mem) (word_at directory j))
  m''-word j h =
      store32_word filled directory i value j directory-IsPage lt h value-lt
      ∙ ap (λ w. if j == i then value else w)
          (filled-SamePage directory directory-IsPage e-ne-directory j h)

  -- The words of a table: the new one, and one of the others.
  m''-new : (x : ℕ) → x < 1024 → load32 m'' (word_at e x) ≡ i * 0x40_0000 + x * page_size + flags
  m''-new x hx =
      store32-SamePage filled directory e i value directory-IsPage e-IsPage lt
        (λ s. e-ne-directory (sym s)) x hx
      ∙ fill_table_lem e (i * 0x40_0000) flags e-IsPage (omega arith) (omega arith) 1024 0 x m'
          (omega arith) hx
      ∙ ground arith

  m''-old : (j : ℕ) → j < i → SamePage (k.mem) m'' (page_of base (t.block j))
  m''-old j h x hx =
      let p = page_of-IsPage base (t.block j) t.aligned (t.below j h) in
      let apart : directory ≢ page_of base (t.block j) =
        λ s. page_of-ne base (t.block j) (t.own) (t.other j h) (sym s ∙ t.at) in
      store32-SamePage filled directory (page_of base (t.block j)) i value directory-IsPage p lt
        apart x hx
      ∙ filled-SamePage (page_of base (t.block j)) p (e-ne (t.block j) (t.used j h)) x hx

  abbrev block' : ℕ → ℕ
  block' j = if j == i then new.block else t.block j

  -- A fact of each of the tables, from the new one's and the old ones'.
  each :
      (Q : ℕ → ℕ → Type 0)
      → Q i (new.block)
      → ((j : ℕ) → j < i → Q j (t.block j))
      → (j : ℕ) → j < suc i
      → Q j (block' j)
  each Q here there j h = elim (Bool-cases (j == i)) [
    | inl same ↦ let eq : j ≡ i = ground (arith, same) in rw (same, eq) here
    | inr differs ↦ rw differs (there j (ground (arith, differs, h)))
  ]

  still_used : (b : ℕ) → entry_of (k.heap) b ≢ 0 → entry_of ((kzalloc 4096 k).1.heap) b ≢ 0
  still_used b used gone = used (sym (new.others b (fresh b used)) ∙ gone)

  old_word :
      (j : ℕ)
      → j < i
      → load32 m'' (word_at directory j) ≡ page_of base (t.block j) + directory_flags flags
  old_word j h =
      let differs : (j == i) ≡ false = ground arith in
      m''-word j (omega (arith, h, lt)) ∙ rw differs (t.word j h)

  new_word : load32 m'' (word_at directory i) ≡ page_of base (new.block) + directory_flags flags
  new_word = let same : (i == i) ≡ true = ground arith in m''-word i lt ∙ rw same value_eq

  new_entry :
      (x : ℕ)
      → x < 1024
      → load32 m'' (word_at (page_of base (new.block)) x) ≡ i * 0x40_0000 + x * page_size + flags
  new_entry x hx = ap (λ p. load32 m'' (word_at p x)) (sym e_eq) ∙ m''-new x hx

  -- No two tables share a block.
  blocks_differ : (j l : ℕ) → j < suc i → l < suc i → j ≢ l → block' j ≢ block' l
  blocks_differ j l hj hl ne =
      each (λ j' b. j' ≢ l → b ≢ block' l)
        (λ ne'.
          each (λ l' b. i ≢ l' → new.block ≢ b) (λ s. absurd (s refl))
            (λ l' h s same. fresh (t.block l') (t.used l' h) (sym same)) l hl ne')
        (λ j' h ne'.
          each (λ l' b. j' ≢ l' → t.block j' ≢ b) (λ s same. fresh (t.block j') (t.used j' h) same)
            (λ l' h' s. t.distinct j' l' h h' s) l hl ne')
        j hj ne

  pub new_table-Tables :
      Tables (new_table directory flags i (i * 0x40_0000) k) base directory flags (suc i)
      × HasRoom ((new_table directory flags i (i * 0x40_0000) k).heap) n
  unfolding new_table
  new_table-Tables = (
    record {
      block = block';
      own = t.own;
      start = new.saddr ∙ t.start;
      aligned = t.aligned;
      bytes = m''-Bytes;
      at = t.at;
      inside = t.inside;
      held = still_used (t.own) t.held;
      used =
          each (λ j b. entry_of ((kzalloc 4096 k).1.heap) b ≢ 0) new.used
            (λ j h. still_used (t.block j) (t.used j h));
      other = each (λ j b. b ≢ t.own) (λ same. fresh (t.own) t.held (sym same)) t.other;
      distinct = blocks_differ;
      below =
          each (λ j b. page_of base b + page_size ≤ 0x8000_0000) (omega (arith, e_eq, new.below))
            t.below;
      word =
          each (λ j b. load32 m'' (word_at directory j) ≡ page_of base b + directory_flags flags)
            new_word old_word;
      entry = λ j x h hx.
          each
            (λ j' b.
              load32 m'' (word_at (page_of base b) x) ≡ j' * 0x40_0000 + x * page_size + flags)
            (new_entry x hx) (λ j' h'. m''-old j' h' x hx ∙ t.entry j' x h' hx) j h;
    },
    new.room,
  )
