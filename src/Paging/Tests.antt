-- ===== src/Paging/Tests.antt =====
-- Runs of the paging functions, and the theorems about them at a concrete directory.
use bimble_os.Common.{ℕ, ◌<◌, ◌≡◌, ◌≢◌, refl, arith}
use bimble_os.Common.Word.{word_size}
use bimble_os.Heap.Sample.{roomy, roomy-HasRoom}
use bimble_os.Heap.Small.{HasRoom}
use bimble_os.Memory.{load32}
use bimble_os.Paging.Create.{paging_new}
use bimble_os.Paging.Identity.{IsLinear, paging_new_lem}
use bimble_os.Common.Status.{done}
use bimble_os.Paging.{paging_get, paging_map_to, paging_get_physical_address}
use bimble_os.Paging.Entries.{IsDirectory}
use bimble_os.Paging.Map.{IsMapping, paging_map_to_lem}
use bimble_os.Paging.Translate.{paging_get_physical_address-paging_map_to}
use bimble_os.Paging.Sample.{directory, tables, tables-IsDirectory}

mapping : IsMapping 0x40_0000 0x200_0000 0x200_3000
mapping = omega arith

paging_map_to_example :
    ((paging_map_to directory 0x40_0000 0x200_0000 0x200_3000 7 tables).0 ≡ done)
    × IsDirectory (paging_map_to directory 0x40_0000 0x200_0000 0x200_3000 7 tables).1 directory
    × (paging_get directory 0x40_2000
          (paging_map_to directory 0x40_0000 0x200_0000 0x200_3000 7 tables).1
        ≡ 0x200_2007)
paging_map_to_example =
    paging_map_to_lem 0x40_0000 0x200_0000 0x200_3000 7 0x40_2000 tables-IsDirectory mapping
      (omega arith) (omega arith) (omega arith) (omega arith)

translate_example :
    paging_get_physical_address directory 0x40_1234
      (paging_map_to directory 0x40_0000 0x200_0000 0x200_3000 7 tables).1
    ≡ 0x200_1234
translate_example =
    paging_get_physical_address-paging_map_to 0x40_0000 0x200_0000 0x200_3000 7 0x40_1234
      tables-IsDirectory mapping (omega arith) (omega arith) (omega arith) (omega arith)
      (omega arith)

paging_new_example :
    let (made, k') = paging_new 0x05 roomy in
    IsLinear (k'.mem) made.directory_entry 0x05
    × ((a : ℕ) → a < word_size → paging_get_physical_address made.directory_entry a (k'.mem) ≡ a)
    × (made.chunk ≢ 0)
    × (load32 (k'.mem) made.chunk ≡ made.directory_entry)
    × HasRoom (k'.heap) 4
paging_new_example =
    paging_new_lem roomy 0x05 4 refl (λ a. omega arith) (omega arith)
      (roomy-HasRoom 1030 (omega arith))
