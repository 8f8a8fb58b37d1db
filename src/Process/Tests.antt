-- ===== src/Process/Tests.antt =====
-- Runs of the functions on processes, and the theorem about the mapping for a small program.
use bimble_os.Common.{ℕ, some, ◌==◌, if◌then◌else◌}
use bimble_os.Elf.Load.{empty_file}
use bimble_os.Heap.Sample.{roomy}
use bimble_os.Process.{process_get}
use bimble_os.Process.Ending.{process_terminate}
use bimble_os.Process.Sample.{own_kernel, system_with}
use bimble_os.Process.System.{System, process_init}
use bimble_os.Process.Terminated.{process_terminate_lem}
use bimble_os.Task.{Task, Tasks}
use bimble_os.Task.Chain.{IsChain}
use bimble_os.Task.Space.{no_registers}
use bimble_os.Common.{◌≡◌, refl, arith, [], ◌∷◌, replicate}
use bimble_os.Common.Status.{done, err, eio, enomem}
use bimble_os.Heap.{heap_malloc}
use bimble_os.Heap.Kernel.{Kernel, kzalloc}
use bimble_os.Process.{process_malloc, process_find_free_allocation_index, free_index}
use bimble_os.Process.Arguments.{Argued, process_count_command_arguments, process_inject_arguments}
use bimble_os.Paging.{paging_map_to, paging_align_address, paging_map}
use bimble_os.Paging.Sample.{directory, tables}

-- A heap of three blocks, and a process without allocations.
abbrev small_kernel : Kernel
small_kernel = record {
  heap = record {
    table = record { entries = 0 ∷ 0 ∷ 0 ∷ []; total_entries = 3 };
    saddr = 0x100_0000;
  };
  mem = tables;
}

abbrev fresh : Argued
fresh = (
  record { argc = 0; argv = 0 },
  (
    record { page_directory = directory; allocations = replicate 3 (record { ptr = 0; size = 0 }) },
    small_kernel,
  ),
)

counts : process_count_command_arguments ((32 ∷ []) ∷ (32 ∷ []) ∷ []) ≡ 2
unfolding process_count_command_arguments
counts = refl

no_arguments : process_inject_arguments [] fresh ≡ (err eio, fresh)
unfolding process_inject_arguments
no_arguments = refl

-- One block for `argv` and one for each of two arguments.
two_arguments :
    let (status, (after, s)) = process_inject_arguments ((97 ∷ []) ∷ (98 ∷ []) ∷ []) fresh in
    (status ≡ done) × (after.argc ≡ 2) × (after.argv ≡ 0x100_0000)
unfolding process_inject_arguments process_malloc process_find_free_allocation_index free_index
    kzalloc heap_malloc paging_map_to paging_align_address paging_map
two_arguments = (refl, refl, refl)

three_arguments :
    let (status, (after, s)) =
      process_inject_arguments ((97 ∷ []) ∷ (98 ∷ []) ∷ (99 ∷ []) ∷ []) fresh in
    (status ≡ err enomem) × (after.argc ≡ 0)
unfolding process_inject_arguments process_malloc process_find_free_allocation_index free_index
    kzalloc heap_malloc paging_map_to paging_align_address paging_map
three_arguments = (refl, refl)

abbrev unlinked : Task
unlinked = record {
  process = 7;
  page_directory = record { chunk = 0; directory_entry = 0 };
  registers = no_registers;
  next = 0;
  prev = 0;
}

-- The task of process 7 stands behind another one.
abbrev two_tasks : Tasks
two_tasks = record {
  task_at = λ a.
      if a == 0x1000
      then record unlinked { next = 0x2000 }
      else if a == 0x2000
      then record unlinked { prev = 0x1000 }
      else unlinked;
  current_task = 0x1000;
  task_tail = 0x2000;
  task_head = 0x1000;
}

abbrev busy_system : System Kernel ℕ
busy_system = record (system_with roomy 0) {
  tasks = two_tasks;
  process_at = λ a. if a == 7 then record process_init { id = 2; task = 0x2000 } else process_init;
}

two_tasks-IsChain : IsChain two_tasks (0x1000 ∷ 0x2000 ∷ [])
two_tasks-IsChain = record {
  links = ((omega arith, refl), ((omega arith, refl), tt));
  distinct = (((λ e. omega arith), tt), (tt, tt));
  head = refl;
  tail = refl;
}

terminate_example :
    (s' : System Kernel ℕ) × (process_terminate own_kernel 7 busy_system ≡ some (done, s'))
    × (process_get 2 s'.processes ≡ (if 2 == 2 then 0 else process_get 2 busy_system.processes))
    × (s'.current_process ≡ 5)
    × IsChain s'.tasks (0x1000 ∷ [])
unfolding process_init
terminate_example =
    process_terminate_lem own_kernel 7 empty_file 2 0x1000 0x2000 [] [] busy_system refl refl
      (λ e. omega arith) refl (omega arith) refl two_tasks-IsChain refl
