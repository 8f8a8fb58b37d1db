-- ===== src/Disk/Tests.antt =====
-- Runs of the streamer, and its theorem, on a disk whose bytes tell their sector.
use bimble_os.Common.{ℕ, ◌+◌, ◌-◌, ◌*◌, ◌%◌, ◌≡◌, refl, some, [], ◌∷◌, arith, ◌==◌, if◌then◌else◌}
use bimble_os.Common.Status.{Status, done}
use bimble_os.Disk.{the_disk, diskstreamer_read}
use bimble_os.Disk.Drive.{Drive}
use bimble_os.Disk.Ports.{Ports}
use bimble_os.Disk.Stream.{disk_bytes, diskstreamer_read_lem}

abbrev numbered : ℕ → ℕ → ℕ
numbered lba i = (10 * lba + i) % 256

read_crosses :
    diskstreamer_read numbered 5 (record { pos = 510; disk = the_disk }) 4
    ≡ some (done, 254 ∷ 255 ∷ 10 ∷ 11 ∷ [], record { pos = 514; disk = the_disk })
unfolding diskstreamer_read
read_crosses = refl

diskstreamer_read_example :
    diskstreamer_read numbered 2000 (record { pos = 510; disk = the_disk }) 1500
    ≡ some (done, disk_bytes numbered 510 1500, record { pos = 510 + 1500; disk = the_disk })
diskstreamer_read_example = diskstreamer_read_lem numbered 2000 510 1500 (omega arith) (omega arith)

-- A drive that is ready the second time it is asked. Its state has the registers of the sector, with the count
-- first, and while it reads the sector, the sectors left, the next word and the questions left.
record Registers : Type 0 where
  count : ℕ
  r3 : ℕ
  r4 : ℕ
  r5 : ℕ
  r6 : ℕ
  lba : ℕ
  left : ℕ
  index : ℕ
  polls : ℕ

abbrev write : ℕ → ℕ → Registers → Registers
write port v d =
    if port == 0x1f2
    then record d { count = v }
    else if port == 0x1f3
    then record d { r3 = v }
    else if port == 0x1f4
    then record d { r4 = v }
    else if port == 0x1f5
    then record d { r5 = v }
    else if port == 0x1f6
    then record d { r6 = v }
    else record d {
      lba = d.r6 % 16 * 0x100_0000 + d.r5 * 0x1_0000 + d.r4 * 0x100 + d.r3;
      left = d.count;
      index = 0;
      polls = 1;
    }

abbrev poll : Registers → ℕ × Registers
poll d = if d.polls == 0 then (0x58, d) else (0x80, record d { polls = d.polls - 1 })

abbrev advance : Registers → Registers
advance d =
    if d.index == 255
    then record d { lba = d.lba + 1; left = d.left - 1; index = 0; polls = 1 }
    else record d { index = d.index + 1 }

abbrev word_of : Registers → ℕ
word_of d = numbered d.lba (2 * d.index) + 256 * numbered d.lba (2 * d.index + 1)

abbrev test_ports : Ports Registers
test_ports = record {
  outb = write;
  insb = λ port d. poll d;
  insw = λ port d. (word_of d, advance d);
}

abbrev At : Registers → ℕ → ℕ → ℕ → Type 0
At d lba n i = (d.lba ≡ lba) × (d.left ≡ n) × (d.index ≡ i)

abbrev idle : Registers
idle = record { count = 0; r3 = 0; r4 = 0; r5 = 0; r6 = 0; lba = 0; left = 0; index = 0; polls = 0 }
