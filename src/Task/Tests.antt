-- ===== src/Task/Tests.antt =====
-- Runs of the functions on tasks, and the theorems about them for two tasks.
use bimble_os.Common.{ℕ, ◌≢◌}
use bimble_os.Heap.Blocks.{kzalloc-NewBlock}
use bimble_os.Heap.Kernel.{kzalloc}
use bimble_os.Heap.Sample.{roomy, roomy-HasRoom}
use bimble_os.Heap.Small.{HasRoom}
use bimble_os.Task.Chain.{Absent}
use bimble_os.Task.Removal.{task_list_remove_lem, task_list_remove-twice}
use bimble_os.Task.Space.{no_registers, Space, task_size, task_new}
use bimble_os.Task.Starting.{Started, task_new_lem}
use bimble_os.Common.{◌≡◌, refl, arith, [], ◌∷◌, some, ◌==◌, if◌then◌else◌}
use bimble_os.Task.{Task, Tasks, task_list_remove, task_get_next}
use bimble_os.Task.Chain.{IsChain}
use bimble_os.Task.Round.{turns, turns_lem}

abbrev unlinked : Task
unlinked = record {
  process = 0;
  page_directory = record { chunk = 0; directory_entry = 0 };
  registers = no_registers;
  next = 0;
  prev = 0;
}

-- The tasks 0x1000 and 0x2000; the second one runs.
abbrev two_tasks : Tasks
two_tasks = record {
  task_at = λ a.
      if a == 0x1000
      then record unlinked { next = 0x2000 }
      else if a == 0x2000
      then record unlinked { prev = 0x1000 }
      else unlinked;
  current_task = 0x2000;
  task_tail = 0x2000;
  task_head = 0x1000;
}

two_tasks-IsChain : IsChain two_tasks (0x1000 ∷ 0x2000 ∷ [])
two_tasks-IsChain = record {
  links = ((omega arith, refl), ((omega arith, refl), tt));
  distinct = (((λ e. omega arith), tt), (tt, tt));
  head = refl;
  tail = refl;
}

turns_example : turns 2 two_tasks ≡ some (0x1000 ∷ 0x2000 ∷ [], two_tasks)
turns_example = turns_lem {s = two_tasks} (0x1000 ∷ []) [] two_tasks-IsChain

-- The task behind a removed one still has it as its `prev`.
removed_prev : ((task_list_remove 0x1000 two_tasks).task_at 0x2000).prev ≡ 0x1000
unfolding task_list_remove task_get_next
removed_prev = refl

-- Three tasks, in the order of their addresses.
abbrev three_tasks : Tasks
three_tasks = record {
  task_at = λ a.
      if a == 0x1000
      then record unlinked { next = 0x2000 }
      else if a == 0x2000
      then record unlinked { next = 0x3000; prev = 0x1000 }
      else if a == 0x3000
      then record unlinked { prev = 0x2000 }
      else unlinked;
  current_task = 0x1000;
  task_tail = 0x3000;
  task_head = 0x1000;
}

three_tasks-IsChain : IsChain three_tasks (0x1000 ∷ 0x2000 ∷ 0x3000 ∷ [])
three_tasks-IsChain = record {
  links = ((omega arith, refl), ((omega arith, refl), ((omega arith, refl), tt)));
  distinct = (((λ e. omega arith), ((λ e. omega arith), tt)), (((λ e. omega arith), tt), (tt, tt)));
  head = refl;
  tail = refl;
}

task_list_remove_example : IsChain (task_list_remove 0x2000 three_tasks) (0x1000 ∷ 0x3000 ∷ [])
task_list_remove_example =
    task_list_remove_lem 0x1000 0x2000 [] (0x3000 ∷ []) three_tasks-IsChain refl

remove_twice_example :
    ((task_list_remove 0x3000 (task_list_remove 0x2000 three_tasks)).task_at 0x1000).next ≡ 0x3000
remove_twice_example =
    task_list_remove-twice 0x1000 0x2000 0x3000 [] [] three_tasks-IsChain refl refl

-- The two tasks over a heap of free blocks.
abbrev two_in_space : Space
two_in_space = record {
  kernel = roomy;
  tasks = two_tasks;
  current_directory = 0;
  kernel_page_directory = record { chunk = 0; directory_entry = 0 };
}

abbrev new_address : ℕ
new_address = (kzalloc task_size roomy).0

new_address-Absent : Absent new_address (0x1000 ∷ 0x2000 ∷ [])
new_address-Absent =
    let block =
      kzalloc-NewBlock roomy task_size 1029 (omega arith) (omega arith)
        (roomy-HasRoom 1030 (omega arith)) in
    ((λ e. omega (arith, block.address, e)), ((λ e. omega (arith, block.address, e)), tt))

task_new_example :
    (s' : Space) × (task_new 0x4000 (λ m. 0x40_0000) two_in_space ≡ some (new_address, s'))
    × (new_address ≢ 0)
    × Started two_in_space 0x4000 0x40_0000 new_address (0x1000 ∷ 0x2000 ∷ []) s'
    × HasRoom (s'.kernel.heap) 3
task_new_example =
    task_new_lem two_in_space 0x4000 3 (λ m. 0x40_0000) 0x1000 (0x2000 ∷ []) refl (λ a. omega arith)
      (roomy-HasRoom 1030 (omega arith)) two_tasks-IsChain new_address-Absent
