-- ===== src/Paging/Translate.antt =====
-- paging_get_physical_address, and the two ways to a multiple of the page size.
use bimble_os.Common.{ℕ, ◌+◌, ◌-◌, ◌*◌, ◌/◌, ◌%◌, ◌≤◌, ◌<◌, ◌≡◌, ◌∙◌, true, bit_and, arith}
use bimble_os.Common.Word.{word_size}
use bimble_os.Memory.{Mem}
use bimble_os.Memory.Laws.{within}
use bimble_os.Paging.{
  page_size, page_mask, paging_align_address, paging_align_to_lower_page, paging_get,
  paging_get_physical_address, paging_map_to,
}
use bimble_os.Paging.Entries.{IsDirectory, IsVirtual, bit_and-page_mask}
use bimble_os.Paging.Map.{IsMapping, paging_map_to_lem}

-- `paging_align_to_lower_page` gives the last multiple of the page size that is not above the address,
-- and `paging_align_address` the first that is not below it, for an address of at most 2 ^ 32 - 4096.
pub paging_align_lem :
    (a : ℕ)
    → a ≤ word_size - page_size
    → (paging_align_to_lower_page a ≡ a / page_size * page_size)
      × (paging_align_address a ≡ (a + (page_size - 1)) / page_size * page_size)
unfolding paging_align_to_lower_page paging_align_address
paging_align_lem a h = (ground arith, ground arith)

-- A word that holds a frame and flags.
pub mask_entry :
    (frame flags : ℕ)
    → frame % page_size ≡ 0
    → flags < page_size
    → frame + flags < word_size
    → bit_and (frame + flags) page_mask ≡ frame
mask_entry frame flags h low small = omega (arith, bit_and-page_mask (frame + flags) small)

-- After a successful `paging_map_to` every address of the virtual range, on a page boundary or not,
-- is translated to the address at the same offset in the physical range.
pub paging_get_physical_address-paging_map_to :
    {m : Mem} {directory : ℕ} (virt phys phys_end flags a : ℕ)
    → IsDirectory m directory
    → IsMapping virt phys phys_end
    → phys_end < word_size
    → virt + (phys_end - phys) ≤ word_size
    → flags < page_size
    → virt ≤ a
    → a < virt + (phys_end - phys)
    → paging_get_physical_address directory a (paging_map_to directory virt phys phys_end flags m).1
      ≡ phys + (a - virt)
unfolding paging_get_physical_address
paging_get_physical_address-paging_map_to {m} {directory} virt phys phys_end flags a d i small room
      low lo hi =
    let page = a - a % page_size in
    let p : IsVirtual page = record { aligned = omega arith; inside = omega arith } in
    let entry = (paging_map_to_lem virt phys phys_end flags page d i small room low p).2 in
    let inside : within virt (phys_end - phys) page ≡ true =
      ground (arith, i.virt_aligned, i.end_aligned, i.phys_aligned, i.order) in
    let frame = phys + (page - virt) in
    let got : paging_get directory page (paging_map_to directory virt phys phys_end flags m).1
        ≡ frame + flags =
      entry ∙ (rw inside) in
    rw
      (
        got,
        mask_entry frame flags (omega (arith, i.virt_aligned, i.phys_aligned)) low
            (omega (arith, i.virt_aligned, i.end_aligned, i.phys_aligned, i.order)),
      )
      (omega (arith, i.virt_aligned, i.order))
