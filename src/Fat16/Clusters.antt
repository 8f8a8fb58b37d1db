-- ===== src/Fat16/Clusters.antt =====
-- fs/fat/fat16.c: the table of clusters, and reading a file's bytes cluster by cluster.
use bimble_os.Common.{
  ℕ, zero, suc, Bool, ◌||◌, Option, none, some, List, [], ◌++◌, bit_or, if◌then◌else◌, ◌==◌,
}
use bimble_os.Common.Status.{Result, Status, done, ok, err, eio}
use bimble_os.Common.Word.{add32, sub32, mul32, sdiv32, srem32, slt32, rounds32}
use bimble_os.Disk.{DiskStream, sector_size, diskstreamer_seek, diskstreamer_read}
use bimble_os.Fat16.{FatPrivate, DirectoryItem, fat_entry_size, int_result, le16}

-- -EIO.
abbrev pub minus_eio : ℕ
minus_eio = 0xffff_ffff

unfoldable pub fat16_sector_to_absolute : ℕ → ℕ
fat16_sector_to_absolute sector = mul32 sector sector_size

unfoldable pub fat16_get_first_cluster : DirectoryItem → ℕ
fat16_get_first_cluster item =
    bit_or (item.high_16_bits_first_cluster) (item.low_16_bits_first_cluster)

unfoldable pub fat16_cluster_to_sector : FatPrivate → ℕ → ℕ
fat16_cluster_to_sector private cluster =
    add32 private.root_directory.ending_sector_pos
      (mul32 (sub32 cluster 2) private.header.primary_header.sectors_per_cluster)

unfoldable pub fat16_get_first_fat_sector : FatPrivate → ℕ
fat16_get_first_fat_sector private = private.header.primary_header.reserved_sectors

-- The expression of the code for it.
unfoldable pub size_of_cluster_bytes : FatPrivate → ℕ
size_of_cluster_bytes private = mul32 private.header.primary_header.sectors_per_cluster sector_size

-- The values that end the walk along the table.
unfoldable pub is_end_mark : ℕ → Bool
is_end_mark entry =
    (entry == 0xFF8 || entry == 0xFFF)
    || entry == 0xFF7
    || (entry == 0xFF0 || entry == 0xFF6)
    || entry == 0x00

module _ (sectors : ℕ → ℕ → ℕ) where
  -- `diskstreamer_read` of a stream, which NULL is not. The fuel is enough.
  unfoldable pub stream_next :
      Option DiskStream → ℕ → Option ((Status × List ℕ) × Option DiskStream)
  stream_next none total = none
  stream_next (some stream) total = elim (diskstreamer_read sectors (suc total) stream total) [
    | none ↦ none
    | some (res, bytes, last) ↦ some ((res, bytes), some last)
  ]

  -- `diskstreamer_seek`, and `diskstreamer_read` where that succeeds.
  unfoldable pub stream_read :
      Option DiskStream → ℕ → ℕ → Option ((Status × List ℕ) × Option DiskStream)
  unfolding stream_next
  stream_read none pos total = none
  stream_read (some stream) pos total =
      let (sought, stream') = diskstreamer_seek stream pos in
      elim sought [
        | err e ↦ some ((err e, []), some stream')
        | ok _ ↦ stream_next (some stream') total
      ]

  unfoldable pub fat16_get_fat_entry : FatPrivate → ℕ → Option (ℕ × FatPrivate)
  unfolding stream_read fat16_get_first_fat_sector
  fat16_get_fat_entry private cluster = elim (private.fat_read_stream) [
    | none ↦ some (minus_eio, private)
    | some stream ↦
        let fat_table_position = mul32 (fat16_get_first_fat_sector private) sector_size in
        elim (stream_read (some stream) (mul32 fat_table_position (mul32 cluster fat_entry_size))
          2) [
            | none ↦ none
            | some (res, stream') ↦ elim (res.0) [
              | err e ↦ some (minus_eio, record private { fat_read_stream = stream' })
              | ok _ ↦ some (le16 (res.1) 0, record private { fat_read_stream = stream' })
            ]
          ]
  ]

  -- The loop of `fat16_get_cluster_for_offset`, with the rounds left.
  unfoldable pub clusters_ahead : ℕ → ℕ → FatPrivate → Option (Result ℕ × FatPrivate)
  unfolding fat16_get_fat_entry is_end_mark
  clusters_ahead zero cluster_to_use private = some (int_result cluster_to_use, private)
  clusters_ahead (suc n) cluster_to_use private =
      elim (fat16_get_fat_entry private cluster_to_use) [
        | none ↦ none
        | some (entry, private') ↦
            let rest = clusters_ahead n entry private' in
            if is_end_mark entry then some (err eio, private') else rest
      ]

  unfoldable pub fat16_get_cluster_for_offset : FatPrivate → ℕ → ℕ → Option (Result ℕ × FatPrivate)
  unfolding clusters_ahead size_of_cluster_bytes
  fat16_get_cluster_for_offset private starting_cluster offset =
      if size_of_cluster_bytes private == 0
      then none
      else clusters_ahead (rounds32 (sdiv32 offset (size_of_cluster_bytes private)))
          starting_cluster private

  -- With fuel. The stream is the private data's `cluster_read_stream`. Beside the status are the
  -- bytes written to `out`.
  unfoldable pub fat16_read_internal_from_stream :
      ℕ → FatPrivate → ℕ → ℕ → ℕ → Option ((Status × List ℕ) × FatPrivate)
  unfolding fat16_get_cluster_for_offset fat16_cluster_to_sector stream_read
  fat16_read_internal_from_stream zero private cluster offset total = none
  fat16_read_internal_from_stream (suc fuel) private cluster offset total =
      let size = size_of_cluster_bytes private in
      elim (fat16_get_cluster_for_offset private cluster offset) [
        | none ↦ none
        | some (found, private') ↦ elim found [
          | err e ↦ some ((err e, []), private')
          | ok cluster_to_use ↦
              let starting_sector = fat16_cluster_to_sector private' cluster_to_use in
              let starting_pos = add32 (mul32 starting_sector sector_size) (srem32 offset size) in
              let total_to_read = if slt32 size total then size else total in
              elim (stream_read (private'.cluster_read_stream) starting_pos total_to_read) [
                | none ↦ none
                | some (read, stream') ↦
                    let private'' : FatPrivate = record private' {
                      cluster_read_stream = stream';
                    } in
                    elim (read.0) [
                      | err e ↦ some ((err e, read.1), private'')
                      | ok _ ↦
                          let rest : Option ((Status × List ℕ) × FatPrivate) =
                            elim (fat16_read_internal_from_stream fuel private'' cluster
                              (add32 offset total_to_read) (sub32 total total_to_read)) [
                                | none ↦ none
                                | some (more, last) ↦ some ((more.0, read.1 ++ more.1), last)
                              ] in
                          if slt32 0 (sub32 total total_to_read)
                          then rest
                          else some ((done, read.1), private'')
                    ]
              ]
        ]
      ]

  -- A round reads a byte or is the last, so that one more than the bytes is enough fuel.
  unfoldable pub fat16_read_internal :
      FatPrivate → ℕ → ℕ → ℕ → Option ((Status × List ℕ) × FatPrivate)
  unfolding fat16_read_internal_from_stream
  fat16_read_internal private starting_cluster offset total =
      fat16_read_internal_from_stream (suc total) private starting_cluster offset total
