-- ===== src/Paging.antt =====
-- memory/paging/paging.c: page directories of 1024 tables of 1024 entries, in memory. A function that
-- writes memory returns the new one. `struct PageDirectory_4GB` is its one field, the address of the
-- directory.
pub mod Create
pub mod Entries
pub mod Identity
pub mod Linear
pub mod Map
pub mod Sample
pub mod Tables
pub mod Translate
mod Tests
use bimble_os.Common.{
  ℕ, zero, suc, ◌+◌, ◌-◌, ◌*◌, ◌/◌, ◌%◌, bit_and, bit_or, Bool, ◌==◌, ltb, if◌then◌else◌,
}
use mathlib.Core.Bool.{not}
use bimble_os.Common.Status.{Result, Status, done, ok, err, einvarg}
use bimble_os.Common.Word.{add32, sub32, mul32}
use bimble_os.Memory.{Mem, load32, store32}

abbrev pub page_size : ℕ
page_size = 4096

abbrev pub total_entries_per_table : ℕ
total_entries_per_table = 1024

abbrev pub page_mask : ℕ
page_mask = 0xffff_f000

unfoldable pub paging_is_aligned : ℕ → Bool
paging_is_aligned addr = addr % page_size == 0

-- The directory index and the table index.
unfoldable pub paging_get_indexes : ℕ → Result (ℕ × ℕ)
unfolding paging_is_aligned
paging_get_indexes virt_addr =
    if not (paging_is_aligned virt_addr)
    then err einvarg
    else ok (
      virt_addr / (total_entries_per_table * page_size),
      virt_addr % (total_entries_per_table * page_size) / page_size,
    )

-- `&array[index]` for an array of `uint32_t`.
abbrev pub word_at : ℕ → ℕ → ℕ
word_at array index = add32 array (mul32 index 4)

unfoldable pub paging_set : ℕ → ℕ → ℕ → Mem → Status × Mem
unfolding paging_get_indexes
paging_set directory virt_addr val m =
    if not (paging_is_aligned virt_addr)
    then (err einvarg, m)
    else elim (paging_get_indexes virt_addr) [
      | err e ↦ (err e, m)
      | ok (directory_index, table_index) ↦
          let entry = load32 m (word_at directory directory_index) in
          let table = bit_and entry page_mask in (done, store32 m (word_at table table_index) val)
    ]

unfoldable pub paging_align_address : ℕ → ℕ
paging_align_address ptr =
    if not (ptr % page_size == 0) then sub32 (add32 ptr page_size) (ptr % page_size) else ptr

unfoldable pub paging_map : ℕ → ℕ → ℕ → ℕ → Mem → Status × Mem
unfolding paging_set
paging_map directory virt phys flags m =
    if not (virt % page_size == 0)
    then (err einvarg, m)
    else if not (phys % page_size == 0)
    then (err einvarg, m)
    else paging_set directory virt (bit_or phys flags) m

-- The loop of `paging_map_range`, with the rounds left.
unfoldable pub paging_map_range : ℕ → ℕ → ℕ → ℕ → ℕ → Mem → Status × Mem
paging_map_range directory virt phys zero flags m = (done, m)
paging_map_range directory virt phys (suc count) flags m =
    let (status, m') = paging_map directory virt phys flags m in
    elim status [
      | err e ↦ (err e, m')
      | ok _ ↦
          paging_map_range directory (add32 virt page_size) (add32 phys page_size) count flags m'
    ]

unfoldable pub paging_map_to : ℕ → ℕ → ℕ → ℕ → ℕ → Mem → Status × Mem
unfolding paging_map_range
paging_map_to directory virt phys phys_end flags m =
    if not (virt % page_size == 0)
    then (err einvarg, m)
    else if not (phys % page_size == 0)
    then (err einvarg, m)
    else if not (phys_end % page_size == 0)
    then (err einvarg, m)
    else if ltb phys_end phys
    then (err einvarg, m)
    else let total_bytes = sub32 phys_end phys in
      let total_pages = total_bytes / page_size in
      paging_map_range directory virt phys total_pages flags m

-- The result of `paging_get_indexes` is not looked at: both indices stay 0 where it fails.
unfoldable pub paging_get : ℕ → ℕ → Mem → ℕ
unfolding paging_get_indexes
paging_get directory virt m =
    let indexes : ℕ × ℕ = elim (paging_get_indexes virt) [ err e ↦ (0, 0) | ok ij ↦ ij ] in
    let entry = load32 m (word_at directory indexes.0) in
    let table = bit_and entry page_mask in load32 m (word_at table indexes.1)

unfoldable pub paging_align_to_lower_page : ℕ → ℕ
paging_align_to_lower_page addr = addr - addr % page_size

unfoldable pub paging_get_physical_address : ℕ → ℕ → Mem → ℕ
unfolding paging_align_to_lower_page
paging_get_physical_address directory virt m =
    let virt_addr_new = paging_align_to_lower_page virt in
    let difference = sub32 virt virt_addr_new in
    add32 (bit_and (paging_get directory virt_addr_new m) page_mask) difference
