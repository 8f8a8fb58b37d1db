-- ===== src/Disk/Stream.antt =====
-- diskstreamer_read reads the bytes of the disk in order, whatever sectors they lie in.
use bimble_os.Common.{
  ℕ, zero, suc, ◌+◌, ◌-◌, ◌/◌, ◌%◌, ◌≤◌, ◌<◌, ◌≡◌, refl, sym, ap, ◌∙◌, some, List, [], ◌∷◌, ◌++◌,
  inl, inr, ◌⊎◌, arith, leb, ltb, Bool, true, false, Option, none, if◌then◌else◌, Bool-cases,
}
use mathlib.Core.Bool.{not}
use bimble_os.Common.Word.{word_size, add32, sub32, sdiv32, srem32, slt32, rounds32}
use bimble_os.Common.Status.{Status, done}
use bimble_os.Disk.{DiskStream, the_disk, sector_size, copy_from, diskstreamer_read}

module _ (sectors : ℕ → ℕ → ℕ) where
  -- The disk as one sequence of bytes.
  abbrev pub disk_byte : ℕ → ℕ
  disk_byte p = sectors (p / sector_size) (p % sector_size)

  abbrev pub disk_bytes : ℕ → ℕ → List ℕ
  disk_bytes p zero = []
  disk_bytes p (suc n) = disk_byte p ∷ disk_bytes (p + 1) n

  disk_bytes-append : (n k p : ℕ) → disk_bytes p (n + k) ≡ disk_bytes p n ++ disk_bytes (p + n) k
  disk_bytes-append zero k p =
      let here : p + 0 ≡ p = omega arith in
      let count : 0 + k ≡ k = omega arith in rw (here, count) refl
  disk_bytes-append (suc n) k p =
      let shift : p + suc n ≡ p + 1 + n = omega arith in
      let count : suc n + k ≡ suc (n + k) = omega arith in
      rw (shift, count) (ap (λ l. disk_byte p ∷ l) (disk_bytes-append n k (p + 1)))

  -- Within a sector the copy from the buffer gives the bytes of the disk.
  copy_from_sector :
      (n p sector offset : ℕ)
      → p / sector_size ≡ sector
      → p % sector_size ≡ offset
      → offset + n ≤ sector_size
      → copy_from (sectors sector) offset n ≡ disk_bytes p n
  unfolding copy_from
  copy_from_sector zero p sector offset es eo fits = refl
  copy_from_sector (suc zero) p sector offset es eo fits = rw (es, eo) refl
  copy_from_sector (suc (suc n)) p sector offset es eo fits =
      let next : add32 offset 1 ≡ offset + 1 = omega arith in
      rw (es, eo)
        (ap (λ l. sectors sector offset ∷ l)
          (ap (λ o. copy_from (sectors sector) o (suc n)) next
            ∙ copy_from_sector (suc n) (p + 1) sector (offset + 1) (omega arith) (omega arith)
                (omega arith)))

  -- A part within a sector and what follows it.
  joined :
      (pos total n : ℕ)
      → pos % sector_size + n ≤ sector_size
      → n ≤ total
      → copy_from (sectors (pos / sector_size)) (pos % sector_size) n
          ++ disk_bytes (pos + n) (total - n)
        ≡ disk_bytes pos total
  joined pos total n fits le =
      let count : n + (total - n) ≡ total = omega arith in
      ap (λ l. l ++ disk_bytes (pos + n) (total - n))
        (copy_from_sector n pos (pos / sector_size) (pos % sector_size) refl refl fits)
      ∙ sym (disk_bytes-append n (total - n) pos)
      ∙ ap (disk_bytes pos) count

  -- A round of the code, by its sector, its offset, its test and its count.
  abbrev Read : Type 0
  Read = Option (Status × List ℕ × DiskStream)

  abbrev round : ℕ → ℕ → ℕ → ℕ → ℕ → Bool → ℕ → Read
  round fuel pos total sector offset overflow n =
      let part = copy_from (sectors sector) offset (rounds32 n) in
      let stream' : DiskStream = record { pos = add32 pos n; disk = the_disk } in
      let rest : Read = elim (diskstreamer_read sectors fuel stream' (sub32 total n)) [
        | none ↦ none
        | some (res, more, last) ↦ some (res, part ++ more, last)
      ] in
      if overflow then rest else some (done, part, stream')

  abbrev count : ℕ → ℕ → Bool → ℕ
  count offset total overflow =
      if overflow then sub32 total (sub32 (add32 offset total) sector_size) else total

  read_round :
      (fuel pos total sector offset : ℕ) (overflow : Bool)
      → sdiv32 pos sector_size ≡ sector
      → srem32 pos sector_size ≡ offset
      → not (slt32 (add32 offset total) sector_size) ≡ overflow
      → diskstreamer_read sectors (suc fuel) (record { pos = pos; disk = the_disk }) total
        ≡ round fuel pos total sector offset overflow (count offset total overflow)
  unfolding diskstreamer_read
  read_round fuel pos total sector offset overflow es eo ev =
      let tested : ℕ → ℕ → Read = λ x o.
        let b = not (slt32 (add32 o total) sector_size) in
        round fuel pos total x o b (count o total b) in
      ap (λ x. tested x (srem32 pos sector_size)) es
      ∙ ap (tested sector) eo
      ∙ ap (λ b. round fuel pos total sector offset b (count offset total b)) ev

  sector_lem : (pos : ℕ) → pos < 0x8000_0000 → sdiv32 pos sector_size ≡ pos / sector_size
  sector_lem pos low = let small : ltb pos 0x8000_0000 ≡ true = ground (arith, low) in rw small refl

  offset_lem : (pos : ℕ) → pos < 0x8000_0000 → srem32 pos sector_size ≡ pos % sector_size
  offset_lem pos low = let small : ltb pos 0x8000_0000 ≡ true = ground (arith, low) in rw small refl

  rounds_lem : (n : ℕ) → n < 0x8000_0000 → rounds32 n ≡ n
  rounds_lem n low = let small : ltb n 0x8000_0000 ≡ true = ground (arith, low) in rw small refl

  within_lem :
      (offset total : ℕ)
      → offset + total < sector_size
      → not (slt32 (add32 offset total) sector_size) ≡ false
  within_lem offset total lt = ground (arith, lt)

  over_lem :
      (offset total : ℕ)
      → sector_size ≤ offset + total
      → offset + total < 0x8000_0000
      → not (slt32 (add32 offset total) sector_size) ≡ true
  over_lem offset total le lt = ground (arith, le, lt)

  over_count :
      (offset total : ℕ)
      → offset < sector_size
      → sector_size ≤ offset + total
      → offset + total < 0x8000_0000
      → sub32 total (sub32 (add32 offset total) sector_size) ≡ sector_size - offset
  over_count offset total small le lt = omega (arith, small, le, lt)

  -- Nothing is read behind the last position.
  nothing_read :
      (fuel : ℕ)
      → diskstreamer_read sectors (suc fuel) (record { pos = 0x8000_0000; disk = the_disk }) 0
        ≡ some (done, [], record { pos = 0x8000_0000; disk = the_disk })
  unfolding copy_from
  nothing_read fuel =
      read_round fuel 0x8000_0000 0 (sdiv32 0x8000_0000 sector_size) 0 false refl refl refl

  -- With more fuel than bytes, where the position behind them is at most the first negative one.
  pub stream_bytes :
      (fuel pos total : ℕ)
      → total < fuel
      → pos + total ≤ 0x8000_0000
      → pos % sector_size + total < 0x8000_0000
      → diskstreamer_read sectors fuel (record { pos = pos; disk = the_disk }) total
        ≡ some (done, disk_bytes pos total, record { pos = pos + total; disk = the_disk })
  stream_bytes zero pos total lt le short = absurd (omega arith)
  stream_bytes (suc fuel) pos total lt le short = elim (Bool-cases (leb 0x8000_0000 pos)) [
    | inl past ↦
        let at : pos ≡ 0x8000_0000 = ground (arith, past, le) in
        let none_left : total ≡ 0 = ground (arith, past, le) in
        rw (at, none_left) (nothing_read fuel)
    | inr before ↦
        let low : pos < 0x8000_0000 = ground (arith, before) in
        let sector = pos / sector_size in
        let offset = pos % sector_size in
        elim (Bool-cases (leb sector_size (offset + total))) [
          | inr within ↦
              let inside : offset + total < sector_size = ground (arith, within) in
              let end : add32 pos total ≡ pos + total = omega (arith, le) in
              read_round fuel pos total sector offset false (sector_lem pos low)
                (offset_lem pos low) (within_lem offset total inside)
              ∙ ap
                  (λ n. some (
                    done,
                    copy_from (sectors sector) offset n,
                    record { pos = add32 pos total; disk = the_disk },
                  ))
                  (rounds_lem total (omega (arith, inside)))
              ∙ ap
                  (λ p. some (
                    done,
                    copy_from (sectors sector) offset total,
                    record { pos = p; disk = the_disk },
                  ))
                  end
              ∙ ap (λ bytes. some (done, bytes, record { pos = pos + total; disk = the_disk }))
                  (copy_from_sector total pos sector offset refl refl (omega (arith, inside)))
          | inl over ↦
              let crosses : sector_size ≤ offset + total = ground (arith, over) in
              let n = sector_size - offset in
              let next : add32 pos n ≡ pos + n = omega (arith, le, crosses) in
              let left : sub32 total n ≡ total - n = omega (arith, crosses, short) in
              let end : pos + n + (total - n) ≡ pos + total = omega (arith, crosses) in
              let joins : List ℕ → Read → Read = λ part o. elim o [
                | none ↦ none
                | some (res, more, last) ↦ some (res, part ++ more, last)
              ] in
              let part = copy_from (sectors sector) offset n in
              read_round fuel pos total sector offset true (sector_lem pos low) (offset_lem pos low)
                (over_lem offset total crosses short)
              ∙ ap (round fuel pos total sector offset true)
                  (over_count offset total (omega arith) crosses short)
              ∙ ap
                  (λ k. joins (copy_from (sectors sector) offset k) (
                    diskstreamer_read sectors fuel (record { pos = add32 pos n; disk = the_disk })
                      (sub32 total n)))
                  (rounds_lem n (omega arith))
              ∙ ap
                  (λ p. joins part (
                    diskstreamer_read sectors fuel (record { pos = p; disk = the_disk })
                      (sub32 total n)))
                  next
              ∙ ap
                  (λ m.
                    joins part (
                      diskstreamer_read sectors fuel (record { pos = pos + n; disk = the_disk }) m))
                  left
              ∙ ap (joins part) (
                  stream_bytes fuel (pos + n) (total - n) (omega (arith, lt, crosses))
                    (omega (arith, le, crosses)) (omega (arith, short, crosses)))
              ∙ ap
                  (λ p. some (
                    done,
                    part ++ disk_bytes (pos + n) (total - n),
                    record { pos = p; disk = the_disk },
                  ))
                  end
              ∙ ap (λ bytes. some (done, bytes, record { pos = pos + total; disk = the_disk }))
                  (joined pos total n (omega arith) (omega (arith, crosses)))
        ]
  ]

  -- With more fuel than bytes, where the bytes end before position 2 ^ 31, `diskstreamer_read` on the disk
  -- succeeds, gives the `total` bytes from the stream's position on, and moves the stream behind them.
  pub diskstreamer_read_lem :
      (fuel pos total : ℕ)
      → total < fuel
      → pos + total < 0x8000_0000
      → diskstreamer_read sectors fuel (record { pos = pos; disk = the_disk }) total
        ≡ some (done, disk_bytes pos total, record { pos = pos + total; disk = the_disk })
  diskstreamer_read_lem fuel pos total lt le =
      stream_bytes fuel pos total lt (omega (arith, le)) (omega (arith, le))

  -- A remainder is an `int` between -512 and 512.
  IsOffset : ℕ → Type 0
  IsOffset o = (o < sector_size) ⊎ ((word_size < o + sector_size) × (o < word_size))
