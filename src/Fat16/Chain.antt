-- ===== src/Fat16/Chain.antt =====
-- Reading a file along its clusters: fat16_read_internal and the clusters that the code's lookup gives.
use bimble_os.Common.{
  ℕ, zero, suc, ◌+◌, ◌*◌, ◌/◌, ◌%◌, ◌≤◌, ◌<◌, ◌≡◌, refl, ap, ◌∙◌, true, false, some, List, [], ◌∷◌,
  ◌++◌, arith, leb, ltb, ◌==◌, take, drop, length, get_or,
}
use native.Mathlib.Nat.{add-mul-div_right, add-mul-mod_self_right, div-eq_of_lt, mod-eq_of_lt}
use bimble_os.Common.Status.{done, ok}
use bimble_os.Common.Word.{add32, sub32, mul32, sdiv32, srem32, rounds32}
use bimble_os.Disk.{the_disk, sector_size, diskstreamer_seek}
use bimble_os.Disk.Stream.{disk_byte, disk_bytes, stream_bytes}
use bimble_os.Fat16.{FatH, FatDirectory, FatPrivate, int_limit, le16}
use bimble_os.Fat16.Clusters.{
  fat16_get_fat_entry, fat16_get_cluster_for_offset, clusters_ahead, is_end_mark,
  size_of_cluster_bytes, fat16_get_first_fat_sector, stream_next, stream_read,
}

-- The private data of a file system whose streams stand at the positions `c`, `f` and `d`.
abbrev pub mounted : FatH → FatDirectory → ℕ → ℕ → ℕ → FatPrivate
mounted h root c f d = record {
  header = h;
  root_directory = root;
  cluster_read_stream = some (record { pos = c; disk = the_disk });
  fat_read_stream = some (record { pos = f; disk = the_disk });
  directory_stream = some (record { pos = d; disk = the_disk });
}

-- The position at which the code looks for a cluster's entry of the table.
abbrev pub entry_position : FatH → ℕ → ℕ
entry_position h cluster =
    mul32 (mul32 h.primary_header.reserved_sectors sector_size) (mul32 cluster 2)

abbrev pub cluster_size : FatH → ℕ
cluster_size h = mul32 h.primary_header.sectors_per_cluster sector_size

-- The position of a cluster's first byte.
abbrev pub cluster_position : FatH → FatDirectory → ℕ → ℕ
cluster_position h root cluster =
    mul32
      (add32 root.ending_sector_pos (mul32 (sub32 cluster 2) h.primary_header.sectors_per_cluster))
      sector_size

module _ (sectors : ℕ → ℕ → ℕ) where
  pub stream_next_lem :
      (pos total : ℕ)
      → pos + total ≤ int_limit
      → pos % sector_size + total < int_limit
      → stream_next sectors (some (record { pos = pos; disk = the_disk })) total
        ≡ some (
          (done, disk_bytes sectors pos total),
          some (record { pos = pos + total; disk = the_disk }),
        )
  unfolding stream_next
  stream_next_lem pos total le short =
      rw (stream_next, stream_bytes sectors (suc total) pos total (omega arith) le short) refl

  pub stream_read_lem :
      (p pos total : ℕ)
      → pos + total ≤ int_limit
      → pos % sector_size + total < int_limit
      → stream_read sectors (some (record { pos = p; disk = the_disk })) pos total
        ≡ some (
          (done, disk_bytes sectors pos total),
          some (record { pos = pos + total; disk = the_disk }),
        )
  unfolding stream_read diskstreamer_seek
  stream_read_lem p pos total le short = stream_next_lem pos total le short

module _ (sectors : ℕ → ℕ → ℕ) (h : FatH) (root : FatDirectory) where
  -- What the code takes for the entry of a cluster in the table, and a cluster's bytes.
  abbrev pub table_entry : ℕ → ℕ
  table_entry cluster = le16 (disk_bytes sectors (entry_position h cluster) 2) 0

  abbrev pub cluster_bytes : ℕ → List ℕ
  cluster_bytes cluster = disk_bytes sectors (cluster_position h root cluster) (cluster_size h)

  -- Each cluster is the one that the code finds where it looks for the entry of the cluster before, which is
  -- not the entry's place in the table, and they lie in the disk's first 2 ^ 31 bytes.
  unfoldable pub IsWalk : ℕ → List ℕ → Type 0
  IsWalk c [] = (c < int_limit) × (cluster_position h root c + cluster_size h < int_limit)
  IsWalk c (c' ∷ cs) =
      (c < int_limit)
      × (cluster_position h root c + cluster_size h < int_limit)
      × (entry_position h c + 2 ≤ int_limit)
      × (table_entry c ≡ c')
      × (is_end_mark c' ≡ false)
      × IsWalk c' cs

  -- The bytes of the clusters, one after another.
  abbrev pub contents : List ℕ → List ℕ
  contents [] = []
  contents (c ∷ cs) = cluster_bytes c ++ contents cs

  pub fat_entry_lem :
      (cluster c f d : ℕ)
      → entry_position h cluster + 2 ≤ int_limit
      → fat16_get_fat_entry sectors (mounted h root c f d) cluster
        ≡ some (table_entry cluster, mounted h root c (entry_position h cluster + 2) d)
  unfolding fat16_get_fat_entry fat16_get_first_fat_sector
  fat_entry_lem cluster c f d le =
      rw
        (
          fat16_get_fat_entry,
          stream_read_lem sectors f (entry_position h cluster) 2 le (omega arith),
        )
        refl

  chain_head : (c : ℕ) (cs : List ℕ) → IsWalk c cs → c < int_limit
  unfolding IsWalk
  chain_head c [] ch = ch.0
  chain_head c (c' ∷ cs) ch = ch.0

  pub chain_inside :
      (c : ℕ) (cs : List ℕ) → IsWalk c cs → cluster_position h root c + cluster_size h < int_limit
  unfolding IsWalk
  chain_inside c [] ch = ch.1
  chain_inside c (c' ∷ cs) ch = ch.1

  chain_ahead :
      (cs : List ℕ) (n c k f d : ℕ)
      → IsWalk c cs
      → n ≤ length cs
      → (f' : ℕ) × (clusters_ahead sectors n c (mounted h root k f d)
          ≡ some (ok (get_or (c ∷ cs) n 0), mounted h root k f' d))
  unfolding clusters_ahead IsWalk
  chain_ahead cs zero c k f d ch le =
      let small : leb int_limit c ≡ false = let lt = chain_head c cs ch in ground arith in
      (f, rw small refl)
  chain_ahead [] (suc n) c k f d ch le = absurd (omega arith)
  chain_ahead (c' ∷ cs) (suc n) c k f d ch le =
      let (f', e) = chain_ahead cs n c' k (entry_position h c + 2) d ch.5 (omega arith) in
      (f', rw (clusters_ahead, fat_entry_lem c k f d ch.2, ch.3, ch.4) e)

  -- A chain from one of its clusters on.
  pub IsWalk-drop :
      (cs : List ℕ) (n c : ℕ)
      → IsWalk c cs
      → n ≤ length cs
      → IsWalk (get_or (c ∷ cs) n 0) (drop n cs)
  unfolding IsWalk
  IsWalk-drop cs zero c ch le = ch
  IsWalk-drop [] (suc n) c ch le = absurd (omega arith)
  IsWalk-drop (c' ∷ cs) (suc n) c ch le = IsWalk-drop cs n c' ch.5 (omega arith)

  pub drop_step :
      (cs : List ℕ) (n c : ℕ) → n ≤ length cs → drop n (c ∷ cs) ≡ get_or (c ∷ cs) n 0 ∷ drop n cs
  drop_step cs zero c le = refl
  drop_step [] (suc n) c le = absurd (omega arith)
  drop_step (c' ∷ cs) (suc n) c le = drop_step cs n c' (omega arith)

pub take_bytes :
    (sectors : ℕ → ℕ → ℕ) (n m p : ℕ) (ys : List ℕ)
    → n ≤ m
    → take n (disk_bytes sectors p m ++ ys) ≡ disk_bytes sectors p n
take_bytes sectors zero m p ys le = refl
take_bytes sectors (suc n) zero p ys le = absurd (omega arith)
take_bytes sectors (suc n) (suc m) p ys le =
    ap (λ l. disk_byte sectors p ∷ l) (take_bytes sectors n m (p + 1) ys (omega arith))

pub take_more :
    (sectors : ℕ → ℕ → ℕ) (m n p : ℕ) (ys : List ℕ)
    → take (m + n) (disk_bytes sectors p m ++ ys) ≡ disk_bytes sectors p m ++ take n ys
take_more sectors zero n p ys = let e : 0 + n ≡ n = omega arith in rw e refl
take_more sectors (suc m) n p ys =
    let e : suc m + n ≡ suc (m + n) = omega arith in
    rw e (ap (λ l. disk_byte sectors p ∷ l) (take_more sectors m n (p + 1) ys))

pub quotient_lem : (q m r : ℕ) → r < m → (q * m + r) / m ≡ q
quotient_lem q m r lt =
    let swap : q * m + r ≡ r + q * m = omega arith in
    rw (swap, add-mul-div_right r q {z = m} (omega arith), div-eq_of_lt lt) (omega arith)

below : (q m r : ℕ) → r < m → q ≤ q * m + r
below zero m r lt = omega arith
below (suc q) m r lt =
    let step : suc q * m ≡ q * m + m = omega arith in omega (arith, lt, step, below q m r lt)

pub remainder_lem : (q m r : ℕ) → r < m → (q * m + r) % m ≡ r
remainder_lem q m r lt =
    let swap : q * m + r ≡ r + q * m = omega arith in
    rw (swap, add-mul-mod_self_right r q m, mod-eq_of_lt lt) refl

pub srem-lem : (q m r : ℕ) → r < m → q * m + r < int_limit → srem32 (q * m + r) m ≡ r
srem-lem q m r lt int =
    let positive : ltb (q * m + r) 0x8000_0000 ≡ true = ground (arith, int) in
    rw (positive, remainder_lem q m r lt) refl

module _ (sectors : ℕ → ℕ → ℕ) (h : FatH) (root : FatDirectory) where
  pub cluster_for_offset :
      (cs : List ℕ) (q r c k f d : ℕ)
      → IsWalk sectors h root c cs
      → q ≤ length cs
      → r < cluster_size h
      → q * cluster_size h + r < int_limit
      → (f' : ℕ) × (fat16_get_cluster_for_offset sectors
            (mounted h root k f d)
            c
            (q * cluster_size h + r)
          ≡ some (ok (get_or (c ∷ cs) q 0), mounted h root k f' d))
  unfolding fat16_get_cluster_for_offset size_of_cluster_bytes
  cluster_for_offset cs q r c k f d ch le small int =
      let some_size : (cluster_size h == 0) ≡ false = ground arith in
      let positive : ltb (q * cluster_size h + r) 0x8000_0000 ≡ true = ground (arith, int) in
      let few : ltb q 0x8000_0000 ≡ true =
        let b = below q (cluster_size h) r small in ground (arith, b, int) in
      let ahead : rounds32 (sdiv32 (q * cluster_size h + r) (cluster_size h)) ≡ q =
        rw (positive, quotient_lem q (cluster_size h) r small, few) refl in
      let (f', e) = chain_ahead sectors h root cs q c k f d ch le in
      (f', rw some_size (ap (λ n. clusters_ahead sectors n c (mounted h root k f d)) ahead ∙ e))
