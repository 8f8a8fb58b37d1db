-- ===== src/Fat16/Counting.antt =====
-- What the count of a directory's items counts.
use bimble_os.Common.{
  ℕ, zero, suc, ◌+◌, ◌*◌, ◌≤◌, ◌<◌, ◌≡◌, ◌≢◌, refl, ap, ◌∙◌, false, Option, some, List, [], ◌∷◌,
  inl, inr, arith, length, ◌==◌, Bool-cases, if◌then◌else◌,
}
use bimble_os.Common.Word.{mul32}
use bimble_os.Disk.{DiskStream, the_disk, sector_size, diskstreamer_seek}
use bimble_os.Disk.Stream.{disk_bytes}
use bimble_os.Str.{first_char}
use bimble_os.Fat16.{FatH, FatDirectory, DirectoryItem, directory_item_of, int_limit, item_size}
use bimble_os.Fat16.Chain.{mounted, stream_next_lem}
use bimble_os.Fat16.Volume.{count_items, fat16_get_total_items_for_directory, max_rounds}

abbrev pub stream_at : ℕ → Option DiskStream
stream_at pos = some (record { pos = pos; disk = the_disk })

abbrev pub starts_with : DirectoryItem → ℕ
starts_with item = first_char item.filename

-- The items that are not deleted.
abbrev pub used_items : List DirectoryItem → ℕ
used_items [] = 0
used_items (item ∷ items) =
    if starts_with item == 0xE5 then used_items items else suc (used_items items)

module _ (sectors : ℕ → ℕ → ℕ) where
  abbrev pub item_at : ℕ → DirectoryItem
  item_at pos = directory_item_of (disk_bytes sectors pos item_size)

  -- The items lie on the disk from the position on, and behind them one whose name starts with 0.
  unfoldable pub IsListing : ℕ → List DirectoryItem → Type 0
  IsListing pos [] = (pos + item_size ≤ int_limit) × (starts_with (item_at pos) ≡ 0)
  IsListing pos (item ∷ items) =
      (pos + item_size ≤ int_limit)
      × (item_at pos ≡ item)
      × (starts_with item ≢ 0)
      × IsListing (pos + item_size) items

  -- The loop over a listing.
  count_items_lem :
      (items : List DirectoryItem) (fuel pos i : ℕ)
      → IsListing pos items
      → length items < fuel
      → count_items sectors fuel (stream_at pos) i
        ≡ some (i + used_items items, stream_at (pos + suc (length items) * item_size))
  unfolding count_items IsListing
  count_items_lem items zero pos i l lt = absurd (omega arith)
  count_items_lem [] (suc fuel) pos i l lt =
      let last : pos + item_size ≡ pos + suc 0 * item_size = omega arith in
      let count : i ≡ i + 0 = omega arith in
      rw (count_items, stream_next_lem sectors pos item_size l.0 (omega arith), l.1)
        (ap (λ n. some (n, stream_at (pos + item_size))) count
          ∙ ap (λ p. some (i + 0, stream_at p)) last)
  count_items_lem (item ∷ items) (suc fuel) pos i l lt =
      let last : pos + item_size + suc (length items) * item_size
          ≡ pos + suc (suc (length items)) * item_size =
        omega arith in
      let used : (starts_with item == 0x00) ≡ false = let h = l.2 in ground arith in
      let rest : (j : ℕ)
          → count_items sectors fuel (stream_at (pos + item_size)) j
            ≡ some (j + used_items items, stream_at (pos + suc (suc (length items)) * item_size)) =
        λ j.
          count_items_lem items fuel (pos + item_size) j l.3 (omega arith)
          ∙ ap (λ p. some (j + used_items items, stream_at p)) last in
      elim (Bool-cases (starts_with item == 0xE5)) [
        | inl e ↦
            rw
              (
                count_items,
                stream_next_lem sectors pos item_size l.0 (omega arith),
                l.1,
                used,
                e,
                rest i,
              )
              refl
        | inr e ↦
            let count : i + 1 + used_items items ≡ i + suc (used_items items) = omega arith in
            rw
              (
                count_items,
                stream_next_lem sectors pos item_size l.0 (omega arith),
                l.1,
                used,
                e,
                rest (i + 1),
                count,
              )
              refl
      ]

  enough : (n pos : ℕ) → pos + suc n * item_size ≤ int_limit → n < max_rounds
  unfolding max_rounds
  enough n pos le = omega arith

  -- A listing lies in the reach of a stream.
  listing_short :
      (items : List DirectoryItem) (pos : ℕ)
      → IsListing pos items
      → pos + suc (length items) * item_size ≤ int_limit
  unfolding IsListing
  listing_short [] pos l = let h = l.0 in omega arith
  listing_short (item ∷ items) pos l = omega (arith, listing_short items (pos + item_size) l.3)

  -- For a directory of which the items lie on the disk from a sector on, with one behind them whose
  -- name starts with 0, the count is that of the items that are not deleted; only the position of
  -- the directory stream changes.
  pub fat16_get_total_items_for_directory_lem :
      (h : FatH) (root : FatDirectory) (c f d sector : ℕ) (items : List DirectoryItem)
      → IsListing (mul32 sector sector_size) items
      → (d' : ℕ) × (fat16_get_total_items_for_directory sectors (mounted h root c f d) sector
          ≡ some (used_items items, mounted h root c f d'))
  unfolding fat16_get_total_items_for_directory diskstreamer_seek
  fat16_get_total_items_for_directory_lem h root c f d sector items l =
      let pos = mul32 sector sector_size in
      let room : length items < max_rounds =
        let reach = listing_short items pos l in enough (length items) pos reach in
      let zero_plus : 0 + used_items items ≡ used_items items = omega arith in
      (
        pos + suc (length items) * item_size,
        rw
            (
              fat16_get_total_items_for_directory,
              count_items_lem items max_rounds pos 0 l room,
              zero_plus,
            )
            refl,
      )
