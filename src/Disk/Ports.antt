-- ===== src/Disk/Ports.antt =====
-- disk/disk.c: disk_read_sector, which asks the drive's controller over ports. The drive has a state of
-- any type, and what its ports do is a parameter; the functions of io/io.asm are assembly.
use bimble_os.Common.{
  ℕ, zero, suc, ◌/◌, ◌%◌, Option, none, some, List, [], ◌∷◌, ◌++◌, ◌==◌, if◌then◌else◌, bit_and,
  bit_or,
}
use bimble_os.Common.Status.{Status, done}

-- A write of a byte to a port, and the byte and the word that a read of a port gives.
pub record Ports (D : Type 0) : Type 0 where
  pub outb : ℕ → ℕ → D → D
  pub insb : ℕ → D → ℕ × D
  pub insw : ℕ → D → ℕ × D

module _ {D : Type 0} (ports : Ports D) where
  open ports use {outb, insb, insw}

  -- `none` where the drive is not ready within the rounds.
  unfoldable pub wait_ready : ℕ → D → Option D
  wait_ready zero d = none
  wait_ready (suc rounds) d =
      let (c, d') = insb 0x1f7 d in
      let rest = wait_ready rounds d' in if bit_and c 0x08 == 0 then rest else some d'

  -- The loop over the words of a sector.
  unfoldable pub read_words : ℕ → D → List ℕ × D
  read_words zero d = ([], d)
  read_words (suc n) d =
      let (w, d1) = insw 0x1f0 d in let (ws, d2) = read_words n d1 in (w ∷ ws, d2)

  -- The loop over the sectors.
  unfoldable pub read_sectors : ℕ → ℕ → D → Option (List ℕ × D)
  unfolding wait_ready read_words
  read_sectors rounds zero d = some ([], d)
  read_sectors rounds (suc total) d = elim (wait_ready rounds d) [
    | none ↦ none
    | some d1 ↦
        let (ws, d2) = read_words 256 d1 in
        elim (read_sectors rounds total d2) [
          | none ↦ none
          | some (more, d3) ↦ some (ws ++ more, d3)
        ]
  ]

  -- The command; `outb` takes an `unsigned char`. `lba` is an `int` that is not negative.
  unfoldable pub send_command : ℕ → ℕ → D → D
  send_command lba total d =
      let d1 = outb 0x1f6 (bit_or (lba / 0x100_0000) 0xe0 % 256) d in
      let d2 = outb 0x1f2 (total % 256) d1 in
      let d3 = outb 0x1f3 (lba % 256) d2 in
      let d4 = outb 0x1f4 (lba / 0x100 % 256) d3 in
      let d5 = outb 0x1f5 (lba / 0x1_0000 % 256) d4 in outb 0x1f7 0x20 d5

  -- The status, and the words written to the buffer. `rounds` bounds each wait.
  unfoldable pub disk_read_sector : ℕ → ℕ → ℕ → D → Option ((Status × List ℕ) × D)
  unfolding send_command read_sectors
  disk_read_sector rounds lba total d =
      elim (read_sectors rounds total (send_command lba total d)) [
        | none ↦ none
        | some (buf, d') ↦ some ((done, buf), d')
      ]
