-- ===== src/Disk.antt =====
-- disk/disk.c and disk/streamer.c: the one disk, and streams of its bytes. What a read of a sector gives
-- is a parameter, the byte of each sector; Disk/Ports has `disk_read_sector`, which asks the ports.
-- A position and a count are the patterns of `int`s.
pub mod Drive
pub mod Ports
pub mod Stream
mod Tests
use bimble_os.Common.{
  ℕ, zero, suc, ◌+◌, ◌-◌, ◌/◌, ◌%◌, Bool, Option, none, some, List, [], ◌∷◌, ◌++◌, leb,
  if◌then◌else◌,
}
use mathlib.Core.Bool.{not}
use bimble_os.Common.Word.{add32, sub32, sdiv32, srem32, slt32, rounds32}
use bimble_os.Common.Status.{Result, Status, done, ok, err, eio}

abbrev pub sector_size : ℕ
sector_size = 512

-- A `struct Disk *`: there is one disk object.
pub data DiskPtr : Type 0 where
  null the_disk : DiskPtr

unfoldable pub disk_get : ℕ → DiskPtr
disk_get zero = the_disk
disk_get (suc index) = null

pub record DiskStream : Type 0 where
  pub pos : ℕ
  pub disk : DiskPtr

-- `none` is NULL. The stream's own memory is not modelled.
unfoldable pub diskstreamer_new : ℕ → Option DiskStream
unfolding disk_get
diskstreamer_new disk_id = elim (disk_get disk_id) [
  | null ↦ none
  | the_disk ↦ some (record { pos = 0; disk = the_disk })
]

unfoldable pub diskstreamer_seek : DiskStream → ℕ → Status × DiskStream
diskstreamer_seek stream pos = (done, record stream { pos = pos })

-- The `n` bytes of a buffer from index `i` on. What lies outside of the buffer, where a negative offset
-- leads, is given by the same function.
unfoldable pub copy_from : (ℕ → ℕ) → ℕ → ℕ → List ℕ
copy_from buff i zero = []
copy_from buff i (suc n) = buff i ∷ copy_from buff (add32 i 1) n

-- The drive: byte `i` of sector `lba`.
module _ (sectors : ℕ → ℕ → ℕ) where
  -- One sector, as `diskstreamer_read` asks for it.
  unfoldable pub disk_read_block : DiskPtr → ℕ → Result (ℕ → ℕ)
  disk_read_block null lba = err eio
  disk_read_block the_disk lba = ok (sectors lba)

  -- The status, the bytes written to `out`, and the stream; `none` where the fuel runs out.
  unfoldable pub diskstreamer_read : ℕ → DiskStream → ℕ → Option (Status × List ℕ × DiskStream)
  unfolding disk_read_block copy_from
  diskstreamer_read zero stream total = none
  diskstreamer_read (suc fuel) stream total =
      let sector = sdiv32 (stream.pos) sector_size in
      let offset = srem32 (stream.pos) sector_size in
      let overflow = not (slt32 (add32 offset total) sector_size) in
      let total_to_read =
        if overflow then sub32 total (sub32 (add32 offset total) sector_size) else total in
      elim (disk_read_block (stream.disk) sector) [
        | err e ↦ some (err e, [], stream)
        | ok buff ↦
            let part = copy_from buff offset (rounds32 total_to_read) in
            let stream' : DiskStream = record stream { pos = add32 (stream.pos) total_to_read } in
            let rest : Option (Status × List ℕ × DiskStream) =
              elim (diskstreamer_read fuel stream' (sub32 total total_to_read)) [
                | none ↦ none
                | some (res, more, last) ↦ some (res, part ++ more, last)
              ] in
            if overflow then rest else some (done, part, stream')
      ]
