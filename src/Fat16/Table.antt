-- ===== src/Fat16/Table.antt =====
-- Where fat16_get_fat_entry looks for the entry of a cluster.
use bimble_os.Common.{
  ℕ, zero, suc, ◌+◌, ◌*◌, ◌≤◌, ◌<◌, ◌≡◌, ◌≢◌, sym, ap, ◌∙◌, some, [], ◌∷◌, arith,
}
use bimble_os.Common.Word.{mul32}
use bimble_os.Disk.{sector_size}
use bimble_os.Disk.Stream.{disk_byte, disk_bytes}
use bimble_os.Fat16.{FatH, FatDirectory, int_limit, le16}
use bimble_os.Fat16.Chain.{mounted, entry_position, fat_entry_lem}
use bimble_os.Fat16.Clusters.{fat16_get_fat_entry}

-- The place of a cluster's entry in the table, which lies behind the reserved sectors.
abbrev pub true_position : FatH → ℕ → ℕ
true_position h cluster = h.primary_header.reserved_sectors * sector_size + 2 * cluster

product_large : (a b : ℕ) → 512 ≤ a → 2 ≤ b → a + b + 2 ≤ a * b
product_large a zero la lb = absurd (omega arith)
product_large a (suc zero) la lb = absurd (omega arith)
product_large a (suc (suc zero)) la lb = omega arith
product_large a (suc (suc (suc b))) la lb =
    let step : a * suc (suc (suc b)) ≡ a * suc (suc b) + a = omega arith in
    omega (arith, step, la, product_large a (suc (suc b)) la (omega arith))

entry_place :
    (h : FatH) (cluster : ℕ)
    → h.primary_header.reserved_sectors * sector_size * (cluster * 2) + 2 ≤ int_limit
    → 0 < h.primary_header.reserved_sectors
    → 0 < cluster
    → (entry_position h cluster ≡ h.primary_header.reserved_sectors * sector_size * (cluster * 2))
      × (true_position h cluster + 2 ≤ entry_position h cluster)
entry_place h cluster fits some_reserved some_cluster =
    let a = h.primary_header.reserved_sectors * sector_size in
    let b = cluster * 2 in
    let large = product_large a b (omega (arith, some_reserved)) (omega (arith, some_cluster)) in
    let left : mul32 (h.primary_header.reserved_sectors) sector_size ≡ a =
      omega (arith, large, fits) in
    let right : mul32 cluster 2 ≡ b = omega (arith, large, fits) in
    let whole : mul32 a b ≡ a * b = omega (arith, fits) in
    let e : entry_position h cluster ≡ a * b =
      ap (λ x. mul32 x (mul32 cluster 2)) left ∙ ap (mul32 a) right ∙ whole in
    (e, omega (arith, e, large))

-- On a mounted disk with reserved sectors, for a cluster that is not 0 and whose entry the code looks for in the
-- disk's first 2 ^ 31 bytes: fat16_get_fat_entry does not depend on the cluster's entry in the table,
-- the two bytes at twice the cluster behind the reserved sectors. It gives the same on two disks that
-- differ in nothing but these two bytes.
pub fat16_get_fat_entry-elsewhere :
    (sectors sectors' : ℕ → ℕ → ℕ) (h : FatH) (root : FatDirectory) (cluster c f d : ℕ)
    → h.primary_header.reserved_sectors * sector_size * (cluster * 2) + 2 ≤ int_limit
    → 0 < h.primary_header.reserved_sectors
    → 0 < cluster
    → ((p : ℕ)
        → p ≢ true_position h cluster
        → p ≢ true_position h cluster + 1
        → disk_byte sectors p ≡ disk_byte sectors' p)
    → fat16_get_fat_entry sectors (mounted h root c f d) cluster
      ≡ fat16_get_fat_entry sectors' (mounted h root c f d) cluster
fat16_get_fat_entry-elsewhere sectors sectors' h root cluster c f d fits some_reserved some_cluster
      same =
    let (place, behind) = entry_place h cluster fits some_reserved some_cluster in
    let e = entry_position h cluster in
    let inside : e + 2 ≤ int_limit = omega (arith, place, fits) in
    let first = same e (λ x. omega (arith, x, behind)) (λ x. omega (arith, x, behind)) in
    let second = same (e + 1) (λ x. omega (arith, x, behind)) (λ x. omega (arith, x, behind)) in
    let bytes : disk_bytes sectors e 2 ≡ disk_bytes sectors' e 2 =
      ap (λ b. b ∷ disk_byte sectors (e + 1) ∷ []) first
      ∙ ap (λ b. disk_byte sectors' e ∷ b ∷ []) second in
    fat_entry_lem sectors h root cluster c f d inside
    ∙ ap (λ b. some (le16 b 0, mounted h root c (e + 2) d)) bytes
    ∙ sym (fat_entry_lem sectors' h root cluster c f d inside)
