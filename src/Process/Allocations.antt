-- ===== src/Process/Allocations.antt =====
-- The table of a process's allocations.
use bimble_os.Common.{
  ℕ, ◌≡◌, ◌≢◌, refl, false, Bool-cases, inl, inr, none, List, [], ◌∷◌, arith, ◌==◌, if◌then◌else◌,
}
use bimble_os.Heap.Kernel.{Kernel}
use bimble_os.Process.{
  Process, ProcessAllocation, process_allocation_unjoin, process_get_allocation_by_addr,
  process_free,
}

-- Of the addresses other than NULL, the one that process_allocation_unjoin is given is not found any more,
-- and every other one is found as before.
pub process_get_allocation_by_addr-process_allocation_unjoin :
    (ptr addr : ℕ) (list : List ProcessAllocation)
    → addr ≢ 0
    → process_get_allocation_by_addr addr (process_allocation_unjoin ptr list)
      ≡ (if addr == ptr then none else process_get_allocation_by_addr addr list)
unfolding process_get_allocation_by_addr process_allocation_unjoin
process_get_allocation_by_addr-process_allocation_unjoin ptr addr [] a = ground arith
process_get_allocation_by_addr-process_allocation_unjoin ptr addr (x ∷ list) a =
    let rest = process_get_allocation_by_addr-process_allocation_unjoin ptr addr list a in
    let ne : (0 == addr) ≡ false = ground arith in
    elim (Bool-cases (x.ptr == ptr)) [
      | inl gone ↦
          let e : x.ptr ≡ ptr = ground arith in
          rw (gone, ne, rest, e)
            (elim (Bool-cases (addr == ptr)) [
              | inl same ↦ rw same refl
              | inr other ↦
                  let apart : (ptr == addr) ≡ false = ground arith in rw (other, apart) refl
            ])
      | inr kept ↦
          rw (kept, rest)
            (elim (Bool-cases (addr == ptr)) [
              | inl same ↦
                  let apart : (x.ptr == addr) ≡ false = ground arith in rw (same, apart) refl
              | inr other ↦ rw other refl
            ])
    ]

-- process_free of an address that the process has not allocated changes nothing.
pub process_free-none :
    (ptr : ℕ) (process : Process) (k : Kernel)
    → process_get_allocation_by_addr ptr process.allocations ≡ none
    → process_free ptr (process, k) ≡ (process, k)
unfolding process_free
process_free-none ptr process k e = rw (process_free, e) refl
