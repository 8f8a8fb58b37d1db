-- ===== src/Process.antt =====
-- task/process.c: the table of processes, and the memory that a process allocates. The kernel's heap
-- and memory are those of Heap/Kernel. Process/Loading and Process/Ending load and end a process.
pub mod Allocations
pub mod Arguments
pub mod Ending
pub mod Loading
pub mod Mapping
pub mod Sample
pub mod System
pub mod Terminated
mod Tests
use bimble_os.Common.{
  ℕ, zero, suc, ◌+◌, ◌≡◌, Option, none, some, List, [], ◌∷◌, ◌==◌, leb, if◌then◌else◌, get_or, set,
}
use bimble_os.Common.Status.{Result, Status, ok, err, eistkn, enomem}
use bimble_os.Common.Word.{add32}
use bimble_os.Heap.Kernel.{Kernel, kzalloc, kfree}
use bimble_os.Paging.{paging_map_to, paging_align_address}

abbrev pub max_processes : ℕ
max_processes = 12

-- PAGING_IS_WRITEABLE | PAGING_IS_PRESENT | PAGING_ACCESS_FROM_ALL.
abbrev pub user_page : ℕ
user_page = 0x07

pub record ProcessAllocation : Type 0 where
  pub ptr : ℕ
  pub size : ℕ

-- `page_directory` is that of the process's task.
pub record Process : Type 0 where
  pub page_directory : ℕ
  pub allocations : List ProcessAllocation

-- A table of addresses, in which 0 is NULL. A negative `int` has a pattern of at least 2 ^ 31.
unfoldable pub process_get : ℕ → List ℕ → ℕ
process_get process_id processes =
    if leb max_processes process_id then 0 else get_or processes process_id 0

-- The loop from slot `i` on.
unfoldable pub free_slot : List ℕ → ℕ → Result ℕ
free_slot [] i = err eistkn
free_slot (p ∷ processes) i =
    let rest = free_slot processes (i + 1) in if p == 0 then ok i else rest

unfoldable pub process_get_free_slot : List ℕ → Result ℕ
unfolding free_slot
process_get_free_slot processes = free_slot processes 0

-- `none` is the panic.
unfoldable pub process_switch_to_any : List ℕ → Option ℕ
process_switch_to_any [] = none
process_switch_to_any (p ∷ processes) =
    let rest = process_switch_to_any processes in if p == 0 then rest else some p

-- The loop from index `i` on.
unfoldable pub free_index : List ProcessAllocation → ℕ → Result ℕ
free_index [] i = err enomem
free_index (a ∷ allocations) i =
    let rest = free_index allocations (i + 1) in if a.ptr == 0 then ok i else rest

unfoldable pub process_find_free_allocation_index : Process → Result ℕ
unfolding free_index
process_find_free_allocation_index process = free_index process.allocations 0

unfoldable pub process_malloc : ℕ → Process × Kernel → ℕ × (Process × Kernel)
unfolding process_find_free_allocation_index
process_malloc size (process, k) =
    let (ptr, k') = kzalloc size k in
    let failed : ℕ × (Process × Kernel) = (0, (process, kfree ptr k')) in
    let allocated : ℕ × (Process × Kernel) = elim (process_find_free_allocation_index process) [
      | err e ↦ failed
      | ok index ↦
          let (status, mem') =
            paging_map_to process.page_directory ptr ptr (paging_align_address (add32 ptr size))
              user_page (k'.mem) in
          let mapped : Kernel = record k' { mem = mem' } in
          elim status [
            | err e ↦ (0, (process, kfree ptr mapped))
            | ok _ ↦ (
              ptr,
              (
                record process {
                  allocations = set process.allocations index (record { ptr = ptr; size = size });
                },
                mapped,
              ),
            )
          ]
    ] in
    if ptr == 0 then (0, (process, k')) else allocated

unfoldable pub process_allocation_unjoin : ℕ → List ProcessAllocation → List ProcessAllocation
process_allocation_unjoin ptr [] = []
process_allocation_unjoin ptr (a ∷ allocations) =
    (if a.ptr == ptr then record { ptr = 0; size = 0 } else a)
    ∷ process_allocation_unjoin ptr allocations

unfoldable pub process_get_allocation_by_addr :
    ℕ → List ProcessAllocation → Option ProcessAllocation
process_get_allocation_by_addr addr [] = none
process_get_allocation_by_addr addr (a ∷ allocations) =
    let rest = process_get_allocation_by_addr addr allocations in
    if a.ptr == addr then some a else rest

unfoldable pub process_free : ℕ → Process × Kernel → Process × Kernel
unfolding process_get_allocation_by_addr process_allocation_unjoin
process_free ptr (process, k) = elim (process_get_allocation_by_addr ptr process.allocations) [
  | none ↦ (process, k)
  | some a ↦
      let (status, mem') =
        paging_map_to process.page_directory (a.ptr) (a.ptr)
          (paging_align_address (add32 (a.ptr) (a.size))) 0x00 (k.mem) in
      let unmapped : Kernel = record k { mem = mem' } in
      elim status [
        | err e ↦ (process, unmapped)
        | ok _ ↦ (
          record process { allocations = process_allocation_unjoin ptr process.allocations },
          kfree ptr unmapped,
        )
      ]
]

-- The loop over the allocations from index `i` on, with the rounds left.
unfoldable pub free_all : ℕ → ℕ → Process × Kernel → Process × Kernel
free_all zero i s = s
free_all (suc n) i s =
    let a = get_or s.0.allocations i (record { ptr = 0; size = 0 }) in
    free_all n (i + 1) (process_free (a.ptr) s)

unfoldable pub process_terminate_allocations : Process × Kernel → Process × Kernel
unfolding free_all
process_terminate_allocations s = free_all 1024 0 s
