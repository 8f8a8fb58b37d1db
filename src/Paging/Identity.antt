-- ===== src/Paging/Identity.antt =====
-- paging_new makes a page directory that maps every address to itself.
use bimble_os.Common.{ℕ, zero, suc, ◌+◌, ◌-◌, ◌*◌, ◌%◌, ◌<◌, ◌≡◌, ◌≢◌, sym, ap, ◌∙◌, bit_and, arith}
use mathlib.Core.Path.{subst}
use bimble_os.Common.Word.{add32, word_size}
use bimble_os.Heap.Blocks.{NewBlock, kzalloc-NewBlock, entry_of}
use bimble_os.Heap.Kernel.{Kernel, kzalloc}
use bimble_os.Heap.Small.{HasRoom}
use bimble_os.Memory.{Mem, load32, store32}
use bimble_os.Memory.Load.{load32-store32}
use bimble_os.Paging.{
  page_size, page_mask, word_at, paging_get, paging_get_physical_address,
  paging_align_to_lower_page,
}
use bimble_os.Paging.Create.{new_table, new_tables, paging_new}
use bimble_os.Paging.Entries.{
  IsPage, IsDirectory, IsVirtual, table_of, paging_get_eq, directory_index, table_index,
}
use bimble_os.Paging.Linear.{Bytes, SamePage, store32-Bytes, store32-SamePage, outside-SamePage}
use bimble_os.Paging.Tables.{
  Tables, page_of, page_of-IsPage, page_of-ne, directory_flags, directory_value, new_table-Tables,
}
use bimble_os.Paging.Translate.{mask_entry}

module _ (base directory flags : ℕ) (small : flags < 8) where
  -- The loop over the tables.
  new_tables-Tables :
      (n i offset extra : ℕ) (k : Kernel)
      → i + n ≡ 1024
      → (0 < n → offset ≡ i * 0x40_0000)
      → Tables k base directory flags i
      → HasRoom (k.heap) (n + extra)
      → Tables (new_tables n directory flags i offset k) base directory flags 1024
        × HasRoom ((new_tables n directory flags i offset k).heap) extra
  unfolding new_tables
  new_tables-Tables zero i offset extra k all at t room =
      let e : i ≡ 1024 = omega (arith, all) in
      let z : 0 + extra ≡ extra = omega arith in
      (subst (λ j. Tables k base directory flags j) e t, subst (λ r. HasRoom (k.heap) r) z room)
  new_tables-Tables (suc n) i offset extra k all at t room =
      let here : offset ≡ i * 0x40_0000 = at (omega arith) in
      let more : suc n + extra ≡ suc (n + extra) = omega arith in
      let new =
        kzalloc-NewBlock k 4096 (n + extra) (omega arith) (omega arith)
          (subst (λ r. HasRoom (k.heap) r) more room) in
      let step =
        new_table-Tables k base directory flags i (n + extra) small (omega (arith, all)) t new in
      let k' = new_table directory flags i (i * 0x40_0000) k in
      let next : suc i ≡ i + 1 = omega arith in
      let rest =
        new_tables-Tables n (i + 1) (add32 (i * 0x40_0000) 0x40_0000) extra k' (omega (arith, all))
          (λ h. omega (arith, all, h)) (subst (λ j. Tables k' base directory flags j) next step.0)
          step.1 in
      rw here rest

-- The directory before the first table.
start-Tables :
    (k : Kernel) (flags n : ℕ)
    → k.heap.saddr % page_size ≡ 0
    → Bytes (k.mem)
    → (new : NewBlock k 4096 n (kzalloc 4096 k))
    → Tables (kzalloc 4096 k).1 (k.heap.saddr) (kzalloc 4096 k).0 flags 0
start-Tables k flags n aligned bytes new = record {
  block = λ j. 0;
  own = new.block;
  start = new.saddr;
  aligned = aligned;
  bytes = λ a. ground (arith, new.memory a, bytes a);
  at = new.address;
  inside = new.below;
  held = new.used;
  used = λ j h. absurd (omega (arith, h));
  other = λ j h. absurd (omega (arith, h));
  distinct = λ j l h. absurd (omega (arith, h));
  below = λ j h. absurd (omega (arith, h));
  word = λ j h. absurd (omega (arith, h));
  entry = λ j x h. absurd (omega (arith, h));
}

-- What a page directory that maps the address space to itself is: it has its shape, and the entry of
-- each page is the page with the flags.
pub record IsLinear (m : Mem) (directory flags : ℕ) : Type 0 where
  pub shape : IsDirectory m directory
  pub entries : (v : ℕ) → IsVirtual v → paging_get directory v m ≡ v + flags

module _ (m : Mem) (k : Kernel) (base directory flags : ℕ) (small : flags < 8)
    (t : Tables k base directory flags 1024) (bytes : Bytes m) (same : SamePage (k.mem) m directory)
    (same_tables : (j : ℕ) → j < 1024 → SamePage (k.mem) m (page_of base (t.block j))) where
  page : (j : ℕ) → j < 1024 → IsPage (page_of base (t.block j))
  page j h = page_of-IsPage base (t.block j) t.aligned (t.below j h)

  table_eq : (j : ℕ) → j < 1024 → table_of m directory j ≡ page_of base (t.block j)
  table_eq j h =
      let low = (directory_value (page_of base (t.block j)) flags (page j h) small).1 in
      let p = page j h in
      ap (λ w. bit_and w page_mask) (same j h ∙ t.word j h)
      ∙ mask_entry (page_of base (t.block j)) (directory_flags flags) p.aligned (omega (arith, low))
          (omega (arith, low, t.below j h))

  Tables-IsLinear : IsLinear m directory flags
  Tables-IsLinear = record {
    shape = record {
      bytes = bytes;
      aligned = omega (arith, t.at, t.aligned);
      inside = omega (arith, t.inside);
      distinct = λ i j hi hj ne.
          rw (table_eq i hi, table_eq j hj)
            (page_of-ne base (t.block i) (t.block j) (t.distinct i j hi hj ne));
      apart = λ i hi.
          rw (table_eq i hi) (λ e. page_of-ne base (t.block i) (t.own) (t.other i hi) (e ∙ t.at));
    };
    entries = λ v p.
        let i = directory_index v in
        let hi : i < 1024 = omega (arith, p.inside) in
        let hx : table_index v < 1024 = omega arith in
        paging_get_eq directory v m p.aligned
        ∙ rw (table_eq i hi) (
            same_tables i hi (table_index v) hx
            ∙ t.entry i (table_index v) hi hx
            ∙ omega (arith, p.aligned));
  }

-- Every address is translated to itself.
IsLinear-physical :
    {m : Mem} {directory flags : ℕ} (a : ℕ)
    → IsLinear m directory flags
    → flags < 8
    → a < word_size
    → paging_get_physical_address directory a m ≡ a
unfolding paging_get_physical_address paging_align_to_lower_page
IsLinear-physical {m} {directory} {flags} a l small lt =
    let p : IsVirtual (a - a % page_size) = record {
      aligned = omega arith;
      inside = omega arith;
    } in
    rw
      (
        l.entries (a - a % page_size) p,
        mask_entry (a - a % page_size) flags p.aligned (omega arith) (omega arith),
      )
      (omega arith)

module _ (k : Kernel) (base directory flags extra : ℕ) (t : Tables k base directory flags 1024)
    (new : NewBlock k 4 extra (kzalloc 4 k)) where
  abbrev chunk : ℕ
  chunk = (kzalloc 4 k).0

  abbrev last : Mem
  last = store32 ((kzalloc 4 k).1.mem) chunk directory

  chunk_eq : chunk ≡ page_of base (new.block)
  chunk_eq = omega (arith, new.address, t.start)

  chunk-IsPage : IsPage chunk
  chunk-IsPage = record {
    aligned = omega (arith, chunk_eq, t.aligned);
    inside = omega (arith, new.below);
  }

  first_word : word_at chunk 0 ≡ chunk
  first_word = omega (arith, new.below)

  -- The last allocation and its write leave the other blocks alone.
  last-SamePage :
      (b : ℕ)
      → entry_of (k.heap) b ≢ 0
      → IsPage (page_of base b)
      → SamePage (k.mem) last (page_of base b)
  last-SamePage b used p x hx =
      let ne : chunk ≢ page_of base b = λ e.
        page_of-ne base b (new.block) (λ s. used (ap (λ c. entry_of (k.heap) c) s ∙ new.unused))
          (sym e ∙ chunk_eq) in
      let m1 = (kzalloc 4 k).1.mem in
      let at_word =
        store32-SamePage m1 chunk (page_of base b) 0 directory chunk-IsPage p (omega arith) ne x
          hx in
      let written : load32 last (word_at (page_of base b) x)
          ≡ load32 m1 (word_at (page_of base b) x) =
        subst
          (λ w.
            load32 (store32 m1 w directory) (word_at (page_of base b) x)
            ≡ load32 m1 (word_at (page_of base b) x))
          first_word at_word in
      written
      ∙ outside-SamePage (k.mem) m1 chunk 4 (page_of base b) new.memory (omega arith) chunk-IsPage p
          ne x hx

  last-Bytes : Bytes last
  last-Bytes =
      store32-Bytes ((kzalloc 4 k).1.mem) chunk directory
        (λ a. ground (arith, new.memory a, t.bytes a))

  last-IsLinear : flags < 8 → IsLinear last directory flags
  last-IsLinear small =
      let own : IsPage (page_of base (t.own)) =
        page_of-IsPage base (t.own) t.aligned (omega (arith, t.at, t.inside)) in
      Tables-IsLinear last k base directory flags small t last-Bytes
        (subst (λ d. SamePage (k.mem) last d) (sym t.at) (last-SamePage (t.own) t.held own))
        (λ j h.
          last-SamePage (t.block j) (t.used j h)
            (page_of-IsPage base (t.block j) t.aligned (t.below j h)))

-- Where the heap starts at a page and has 1026 free blocks, paging_new takes these and makes a page
-- directory whose 1024 tables are apart from one another and from it. The entry of every page is the page's own address
-- with the flags, so that every address is translated to itself, and the structure that is
-- returned is not NULL and holds the directory.
pub paging_new_lem :
    (k : Kernel) (flags extra : ℕ)
    → k.heap.saddr % page_size ≡ 0
    → Bytes (k.mem)
    → flags < 8
    → HasRoom (k.heap) (1026 + extra)
    → let (made, k') = paging_new flags k in
      IsLinear (k'.mem) made.directory_entry flags
      × ((a : ℕ) → a < word_size → paging_get_physical_address made.directory_entry a (k'.mem) ≡ a)
      × (made.chunk ≢ 0)
      × (load32 (k'.mem) made.chunk ≡ made.directory_entry)
      × HasRoom (k'.heap) extra
unfolding paging_new
paging_new_lem k flags extra aligned bytes small room =
    let more : 1026 + extra ≡ suc (1024 + suc extra) = omega arith in
    let first =
      kzalloc-NewBlock k 4096 (1024 + suc extra) (omega arith) (omega arith)
        (subst (λ r. HasRoom (k.heap) r) more room) in
    let directory = (kzalloc 4096 k).0 in
    let base = k.heap.saddr in
    let (t, left) =
      new_tables-Tables base directory flags small 1024 0 0 (suc extra) (kzalloc 4096 k).1
        (omega arith) (λ h. omega arith)
        (start-Tables k flags (1024 + suc extra) aligned bytes first) first.room in
    let made = new_tables 1024 directory flags 0 0 (kzalloc 4096 k).1 in
    let new = kzalloc-NewBlock made 4 extra (omega arith) (omega arith) left in
    let linear = last-IsLinear made base directory flags extra t new small in
    (
      linear,
      (λ a h. IsLinear-physical a linear small h),
      (λ e. omega (arith, new.positive, e)),
      load32-store32 ((kzalloc 4 made).1.mem) ((kzalloc 4 made).0) directory
          (omega (arith, t.inside)),
      new.room,
    )
