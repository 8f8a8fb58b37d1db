-- ===== src/Disk/Drive.antt =====
-- What disk_read_sector reads from a drive that answers commands as the ATA standard says.
use bimble_os.Common.{ℕ, zero, suc, ◌+◌, ◌*◌, ◌/◌, ◌%◌, ◌<◌, ◌≡◌, ◌≢◌, List, [], ◌∷◌, ◌++◌, bit_and}
use bimble_os.Common.Status.{Status}
use bimble_os.Disk.Ports.{Ports}

-- Such a drive: its sectors, a time within which it is ready, the states in which it has to be asked a
-- number of times until it is ready with a sector, and those in which a word of a sector is next.
-- The second number of a state is the count of the sectors that are left, with this one.
pub record Drive {D : Type 0} (ports : Ports D) (sectors : ℕ → ℕ → ℕ) (rounds : ℕ) : Type 1 where
  pub Waiting : D → ℕ → ℕ → ℕ → Type 0
  pub Ready : D → ℕ → ℕ → ℕ → Type 0
  pub byte : (lba i : ℕ) → sectors lba i < 256
  pub command :
      (d : D) (h n a b c : ℕ)
      → 0 < n
      → let d1 = ports.outb 0x1f2 n (ports.outb 0x1f6 h d) in
        let d2 = ports.outb 0x1f5 c (ports.outb 0x1f4 b (ports.outb 0x1f3 a d1)) in
        (polls : ℕ) × (polls < rounds)
        × Waiting
            (ports.outb 0x1f7 0x20 d2)
            (h % 16 * 0x100_0000 + c * 0x1_0000 + b * 0x100 + a)
            n
            polls
  pub busy :
      (d : D) (lba n polls : ℕ)
      → Waiting d lba n (suc polls)
      → (bit_and (ports.insb 0x1f7 d).0 0x08 ≡ 0) × Waiting (ports.insb 0x1f7 d).1 lba n polls
  pub ready :
      (d : D) (lba n : ℕ)
      → Waiting d lba n 0
      → (bit_and (ports.insb 0x1f7 d).0 0x08 ≢ 0) × Ready (ports.insb 0x1f7 d).1 lba n 0
  pub word :
      (d : D) (lba n i : ℕ)
      → Ready d lba n i
      → (ports.insw 0x1f0 d).0 ≡ sectors lba (2 * i) + 256 * sectors lba (2 * i + 1)
  pub more :
      (d : D) (lba n i : ℕ) → i < 255 → Ready d lba n i → Ready (ports.insw 0x1f0 d).1 lba n (i + 1)
  pub next :
      (d : D) (lba n : ℕ)
      → 0 < n
      → Ready d lba (suc n) 255
      → (polls : ℕ) × (polls < rounds) × Waiting (ports.insw 0x1f0 d).1 (lba + 1) n polls

-- The bytes of words in memory, the low one first.
abbrev pub bytes_of : List ℕ → List ℕ
bytes_of [] = []
bytes_of (w ∷ ws) = w % 256 ∷ w / 256 % 256 ∷ bytes_of ws

-- The bytes of a sector, from the word `i` on, of `n` words, and those of sectors that follow one another.
abbrev pub bytes_from : (ℕ → ℕ → ℕ) → ℕ → ℕ → ℕ → List ℕ
bytes_from sectors lba i zero = []
bytes_from sectors lba i (suc n) =
    sectors lba (2 * i) ∷ sectors lba (2 * i + 1) ∷ bytes_from sectors lba (i + 1) n

abbrev pub sector_bytes : (ℕ → ℕ → ℕ) → ℕ → ℕ → List ℕ
sector_bytes sectors lba zero = []
sector_bytes sectors lba (suc total) =
    bytes_from sectors lba 0 256 ++ sector_bytes sectors (lba + 1) total
