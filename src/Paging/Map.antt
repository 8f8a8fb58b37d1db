-- ===== src/Paging/Map.antt =====
-- paging_map, paging_map_range and paging_map_to: a range of pages mapped to a range of frames.
use bimble_os.Common.{
  ℕ, zero, suc, ◌+◌, ◌-◌, ◌*◌, ◌/◌, ◌%◌, ◌≤◌, ◌<◌, ◌≡◌, ◌⊎◌, refl, ap, ◌∙◌, inl, inr, bit_or, arith,
  true, false, ◌==◌, ltb, if◌then◌else◌, Bool-cases,
}
use bimble_os.Common.Bits.{bit_or-shl}
use bimble_os.Common.Status.{done, err, einvarg}
use bimble_os.Common.Word.{word_size, add32}
use bimble_os.Memory.{Mem}
use bimble_os.Memory.Laws.{within}
use bimble_os.Paging.{
  page_size, paging_set, paging_get, paging_map, paging_map_range, paging_map_to,
}
use bimble_os.Paging.Entries.{
  IsDirectory, IsVirtual, paging_set_eq, paging_set-IsDirectory, paging_get-paging_set,
}

-- The flags lie below the frame's address.
pub bit_or-flags :
    (phys flags : ℕ) → phys % page_size ≡ 0 → flags < page_size → bit_or phys flags ≡ phys + flags
bit_or-flags phys flags h small =
    bit_or-shl 12 phys (phys / page_size) flags (omega arith) (omega arith)

paging_map_eq :
    (directory virt phys flags : ℕ) (m : Mem)
    → virt % page_size ≡ 0
    → phys % page_size ≡ 0
    → flags < page_size
    → paging_map directory virt phys flags m ≡ paging_set directory virt (phys + flags) m
unfolding paging_map
paging_map_eq directory virt phys flags m hv hp small =
    rw (hv, hp, bit_or-flags phys flags hp small)

-- One page: the directory keeps its shape, and the entry holds the frame and the flags.
record Mapped (directory virt phys count flags : ℕ) (m m' : Mem) : Type 0 where
  shape : IsDirectory m' directory
  entry :
      (v : ℕ)
      → IsVirtual v
      → paging_get directory v m' ≡ (
          if within virt (count * page_size) v
          then phys + (v - virt) + flags
          else paging_get directory v m)

module _ (directory flags : ℕ) (small : flags < page_size) where
  -- A range of pages, with room for it among the virtual and the physical addresses.
  record Fits (virt phys count : ℕ) : Type 0 where
    virt_aligned : virt % page_size ≡ 0
    phys_aligned : phys % page_size ≡ 0
    virt_end : virt + count * page_size ≤ word_size
    phys_end : phys + count * page_size ≤ word_size

  map_one :
      (virt phys count : ℕ) (m : Mem)
      → Fits virt phys (suc count)
      → IsDirectory m directory
      → (paging_map directory virt phys flags m).0 ≡ done
  map_one virt phys count m f d =
      rw
        (
          paging_map_eq directory virt phys flags m f.virt_aligned f.phys_aligned small,
          paging_set_eq directory virt (phys + flags) m f.virt_aligned,
        )
        refl

  map_one_mem :
      (virt phys count : ℕ) (m : Mem)
      → Fits virt phys (suc count)
      → IsDirectory m directory
      → (paging_map directory virt phys flags m).1 ≡ (paging_set directory virt (phys + flags) m).1
  map_one_mem virt phys count m f d =
      ap (λ r. r.1) (paging_map_eq directory virt phys flags m f.virt_aligned f.phys_aligned small)

  map_one_shape :
      (virt phys count : ℕ) (m : Mem)
      → Fits virt phys (suc count)
      → IsDirectory m directory
      → IsDirectory (paging_map directory virt phys flags m).1 directory
  map_one_shape virt phys count m f d = rw (map_one_mem virt phys count m f d) (
      paging_set-IsDirectory d virt (phys + flags)
        (record { aligned = f.virt_aligned; inside = omega (arith, f.virt_end) }))

  map_one_entry :
      (virt phys count v : ℕ) (m : Mem)
      → Fits virt phys (suc count)
      → IsDirectory m directory
      → IsVirtual v
      → paging_get directory v (paging_map directory virt phys flags m).1
        ≡ (if virt == v then phys + flags else paging_get directory v m)
  map_one_entry virt phys count v m f d p = rw (map_one_mem virt phys count m f d) (
      paging_get-paging_set d virt v (phys + flags)
        (record { aligned = f.virt_aligned; inside = omega (arith, f.virt_end) }) p
        (omega (arith, f.phys_end, f.phys_aligned)))

  Fits-next :
      (virt phys count : ℕ)
      → Fits virt phys (suc count)
      → Fits (add32 virt page_size) (add32 phys page_size) count
  Fits-next virt phys count f = record {
    virt_aligned = omega (arith, f.virt_aligned);
    phys_aligned = omega (arith, f.phys_aligned);
    virt_end = omega (arith, f.virt_end);
    phys_end = omega (arith, f.phys_end);
  }

  -- One page more at the front of a range.
  join_entry :
      (virt phys count v old one : ℕ)
      → Fits virt phys (suc count)
      → IsVirtual v
      → one ≡ (if virt == v then phys + flags else old)
      → (if within (add32 virt page_size) (count * page_size) v
          then add32 phys page_size + (v - add32 virt page_size) + flags
          else one)
        ≡ (if within virt (suc count * page_size) v then phys + (v - virt) + flags else old)
  join_entry virt phys count v old one f p e =
      ground (arith, f.virt_aligned, f.virt_end, f.phys_end, p.aligned, p.inside)

  range_step :
      (virt phys count : ℕ) (m : Mem)
      → (paging_map directory virt phys flags m).0 ≡ done
      → paging_map_range directory virt phys (suc count) flags m
        ≡ paging_map_range directory
            (add32 virt page_size)
            (add32 phys page_size)
            count
            flags
            (paging_map directory virt phys flags m).1
  unfolding paging_map_range
  range_step virt phys count m e = rw (e, paging_map_range)

  map_range :
      (count virt phys : ℕ) (m : Mem)
      → Fits virt phys count
      → IsDirectory m directory
      → ((paging_map_range directory virt phys count flags m).0 ≡ done)
        × Mapped directory virt phys count flags m
            (paging_map_range directory virt phys count flags m).1
  unfolding paging_map_range
  map_range zero virt phys m f d = (refl, record { shape = d; entry = λ v p. ground arith })
  map_range (suc count) virt phys m f d =
      let m1 = (paging_map directory virt phys flags m).1 in
      let next =
        map_range count (add32 virt page_size) (add32 phys page_size) m1
          (Fits-next virt phys count f) (map_one_shape virt phys count m f d) in
      rw (range_step virt phys count m (map_one virt phys count m f d)) (
        next.0,
        record {
          shape = next.1.shape;
          entry = λ v p.
              next.1.entry v p
              ∙ join_entry virt phys count v _ _ f p (map_one_entry virt phys count v m f d p);
        },
      )

-- What `paging_map_to` checks.
pub record IsMapping (virt phys phys_end : ℕ) : Type 0 where
  pub virt_aligned : virt % page_size ≡ 0
  pub phys_aligned : phys % page_size ≡ 0
  pub end_aligned : phys_end % page_size ≡ 0
  pub order : phys ≤ phys_end

map_to_eq :
    (directory virt phys phys_end flags : ℕ) (m : Mem)
    → IsMapping virt phys phys_end
    → phys_end < word_size
    → paging_map_to directory virt phys phys_end flags m
      ≡ paging_map_range directory virt phys ((phys_end - phys) / page_size) flags m
unfolding paging_map_to
map_to_eq directory virt phys phys_end flags m i small =
    let count : (phys_end + word_size - phys) % word_size / page_size
        ≡ (phys_end - phys) / page_size =
      omega (arith, i.order) in
    let order : ltb phys_end phys ≡ false = ground (arith, i.order) in
    rw (i.virt_aligned, i.phys_aligned, i.end_aligned, order, count) refl

-- Where the three addresses are multiples of the page size, `phys_end` is not below `phys` and the
-- virtual range ends within the address space, `paging_map_to` succeeds, keeps the directory's shape,
-- gives each page of the range the entry of its frame with the flags, and keeps every other entry.
pub paging_map_to_lem :
    {m : Mem} {directory : ℕ} (virt phys phys_end flags v : ℕ)
    → IsDirectory m directory
    → IsMapping virt phys phys_end
    → phys_end < word_size
    → virt + (phys_end - phys) ≤ word_size
    → flags < page_size
    → IsVirtual v
    → ((paging_map_to directory virt phys phys_end flags m).0 ≡ done)
      × IsDirectory (paging_map_to directory virt phys phys_end flags m).1 directory
      × (paging_get directory v (paging_map_to directory virt phys phys_end flags m).1 ≡ (
          if within virt (phys_end - phys) v
          then phys + (v - virt) + flags
          else paging_get directory v m))
paging_map_to_lem {m} {directory} virt phys phys_end flags v d i small room low p =
    let count = (phys_end - phys) / page_size in
    let size : count * page_size ≡ phys_end - phys =
      omega (arith, i.order, i.end_aligned, i.phys_aligned) in
    let fits : Fits directory flags low virt phys count = record {
      virt_aligned = i.virt_aligned;
      phys_aligned = i.phys_aligned;
      virt_end = omega (arith, i.order, i.end_aligned, i.phys_aligned);
      phys_end = omega (arith, i.order, i.end_aligned, i.phys_aligned);
    } in
    let r = map_range directory flags low count virt phys m fits d in
    rw (map_to_eq directory virt phys phys_end flags m i small)
      (r.0, r.1.shape, rw size at (r.1.entry v p))

-- Where one of the addresses is no multiple of the page size or the end of the frames is below their
-- start, `paging_map_to` fails with EINVARG and writes nothing.
pub paging_map_to_rejects :
    (directory virt phys phys_end flags : ℕ) (m : Mem)
    → (0 < virt % page_size)
      ⊎ (0 < phys % page_size)
      ⊎ (0 < phys_end % page_size)
      ⊎ (phys_end < phys)
    → paging_map_to directory virt phys phys_end flags m ≡ (err einvarg, m)
unfolding paging_map_to
paging_map_to_rejects directory virt phys phys_end flags m bad =
    elim (Bool-cases (virt % page_size == 0)) [
      | inr e ↦ rw e
      | inl e ↦ rw e (elim (Bool-cases (phys % page_size == 0)) [
        | inr f ↦ rw f
        | inl f ↦ rw f (elim (Bool-cases (phys_end % page_size == 0)) [
          | inr g ↦ rw g
          | inl g ↦ rw g (let below : ltb phys_end phys ≡ true = ground arith in rw below)
        ])
      ])
    ]
