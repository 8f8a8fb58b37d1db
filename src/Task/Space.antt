-- ===== src/Task/Space.antt =====
-- task/task.c and kernel.c: the page directories of the tasks, and the memory that they are made from.
-- The segment registers that `user_registers` and `kernel_registers` load, and the jump of
-- `task_return`, are assembly and not part of the state.
use bimble_os.Common.{
  ℕ, zero, suc, ◌+◌, ◌*◌, Option, none, some, List, [], ◌∷◌, ◌==◌, leb, if◌then◌else◌,
}
use bimble_os.Common.Status.{Status, done, ok, err, eio, einvarg, enomem}
use bimble_os.Common.Word.{add32, mul32}
use bimble_os.Heap.Kernel.{Kernel, kzalloc, kfree}
use bimble_os.Memory.{Mem, store8}
use bimble_os.Paging.{page_size, paging_get, paging_set, paging_map, paging_get_physical_address}
use bimble_os.Paging.Create.{PageDirectory, paging_new, paging_free, paging_switch}
use bimble_os.Str.{strncpy}
use bimble_os.Task.{
  Registers, Task, Tasks, with_task, task_append, task_list_remove, task_next, task_switch,
}

-- `current_directory` is the directory that the processor uses.
pub record Space : Type 0 where
  pub kernel : Kernel
  pub tasks : Tasks
  pub current_directory : ℕ
  pub kernel_page_directory : PageDirectory

-- `sizeof(struct Task)`.
abbrev pub task_size : ℕ
task_size = 64

abbrev pub user_data_segment : ℕ
user_data_segment = 0x23

abbrev pub user_code_segment : ℕ
user_code_segment = 0x1b

abbrev pub stack_address_start : ℕ
stack_address_start = 0x3f_f000

abbrev pub paged : PageDirectory → Space → Space
paged directory s = record s { current_directory = paging_switch directory }

unfoldable pub kernel_page : Space → Space
unfolding paging_switch
kernel_page s = paged (s.kernel_page_directory) s

-- `task_switch` with its page switch.
unfoldable pub switch_to : ℕ → Space → Space
unfolding task_switch paging_switch
switch_to task s =
    paged ((s.tasks.task_at task).page_directory) (record s { tasks = task_switch task s.tasks })

unfoldable pub task_page : Space → Space
unfolding switch_to
task_page s = switch_to (s.tasks.current_task) s

unfoldable pub task_page_task : ℕ → Space → Space
unfolding paging_switch
task_page_task task s = paged ((s.tasks.task_at task).page_directory) s

-- The registers that `task_return` restores. `none` is the panic.
unfoldable pub next_task : Space → Option (Registers × Space)
unfolding task_next paging_switch
next_task s = elim (task_next s.tasks) [
  | none ↦ none
  | some (task, tasks) ↦ some (
    (tasks.task_at task).registers,
    paged ((tasks.task_at task).page_directory) (record s { tasks = tasks }),
  )
]

unfoldable pub task_run_first_ever_task : Space → Option (Registers × Space)
unfolding switch_to
task_run_first_ever_task s =
    let task = s.tasks.task_head in
    if s.tasks.current_task == 0
    then none
    else some ((s.tasks.task_at task).registers, switch_to task s)

-- The byte and the word that a virtual address stands for in a directory. Page faults are not part of
-- the model.
abbrev pub virtual_byte : ℕ → ℕ → Mem → ℕ
virtual_byte directory a m = m (paging_get_physical_address directory a m)

unfoldable pub virtual_word : ℕ → ℕ → Mem → ℕ
virtual_word directory a m =
    virtual_byte directory a m
    + 0x100 * virtual_byte directory (add32 a 1) m
    + 0x1_0000 * virtual_byte directory (add32 a 2) m
    + 0x100_0000 * virtual_byte directory (add32 a 3) m

unfoldable pub task_get_stack_item : ℕ → ℕ → Space → ℕ × Space
unfolding task_page_task kernel_page virtual_word
task_get_stack_item task index s =
    let sp_ptr = (s.tasks.task_at task).registers.esp in
    let s' = task_page_task task s in
    let result = virtual_word s'.current_directory (add32 sp_ptr (mul32 4 index)) (s'.kernel.mem) in
    (result, kernel_page s')

unfoldable pub task_virtual_address_to_physical : ℕ → ℕ → Space → ℕ
task_virtual_address_to_physical task virtual_address s =
    paging_get_physical_address ((s.tasks.task_at task).page_directory.directory_entry)
      virtual_address (s.kernel.mem)

-- The `n` bytes from a virtual address on, and a write of bytes there.
unfoldable pub virtual_bytes : ℕ → ℕ → ℕ → Mem → List ℕ
virtual_bytes directory zero a m = []
virtual_bytes directory (suc n) a m =
    virtual_byte directory a m ∷ virtual_bytes directory n (add32 a 1) m

unfoldable pub store_virtual : ℕ → ℕ → List ℕ → Mem → Mem
store_virtual directory a [] m = m
store_virtual directory a (b ∷ bytes) m =
    store_virtual directory (add32 a 1) bytes
      (store8 m (paging_get_physical_address directory a m) b)

-- The `n` bytes from an address on.
unfoldable pub bytes_from : ℕ → ℕ → Mem → List ℕ
bytes_from zero a m = []
bytes_from (suc n) a m = m a ∷ bytes_from n (add32 a 1) m

-- The copy to `tmp` under the task's directory: the page of `tmp` is mapped, and its old entry is the
-- first part of the result.
unfoldable pub copy_under_task : ℕ → ℕ → ℕ → ℕ → Mem → ℕ × Mem
unfolding virtual_bytes store_virtual
copy_under_task task_directory virtual tmp max m =
    let old_entry = paging_get task_directory tmp m in
    let mapped = (paging_map task_directory tmp tmp 0x07 m).1 in
    let copy =
      strncpy (virtual_bytes task_directory max tmp mapped)
        (virtual_bytes task_directory max virtual mapped) max in
    (old_entry, store_virtual task_directory tmp copy mapped)

-- `phys` is the caller's buffer, on the kernel's stack, and part of the result.
unfoldable pub copy_string_from_task : ℕ → ℕ → List ℕ → ℕ → Space → (Status × List ℕ) × Space
unfolding copy_under_task bytes_from kernel_page
copy_string_from_task task virtual phys max s =
    let (tmp, k) = kzalloc max s.kernel in
    let task_directory = (s.tasks.task_at task).page_directory.directory_entry in
    let (old_entry, copied) = copy_under_task task_directory virtual tmp max (k.mem) in
    let (res, restored) = paging_set task_directory tmp old_entry copied in
    let k' : Kernel = record k { mem = restored } in
    let s' = kernel_page (record s { kernel = kfree tmp k' }) in
    let copies : (Status × List ℕ) × Space = elim res [
      | err e ↦ ((err eio, phys), s')
      | ok _ ↦ ((done, strncpy phys (bytes_from max tmp restored) max), s')
    ] in
    if leb page_size max
    then ((err einvarg, phys), s)
    else if tmp == 0
    then ((err enomem, phys), record s { kernel = k })
    else copies

abbrev pub no_registers : Registers
no_registers = record {
  edi = 0;
  esi = 0;
  ebp = 0;
  ebx = 0;
  edx = 0;
  ecx = 0;
  eax = 0;
  ip = 0;
  cs = 0;
  flags = 0;
  esp = 0;
  ss = 0;
}

-- The registers that a task starts with.
abbrev pub initial_registers : ℕ → Registers
initial_registers ip = record no_registers {
  ip = ip;
  ss = user_data_segment;
  cs = user_code_segment;
  esp = stack_address_start;
}

-- `entry` gives the address at which the program of the process starts: that of its ELF header, or
-- BIMBLEOS_PROGRAM_VIRTUAL_ADDRESS. The directory's flags are PAGING_IS_PRESENT |
-- PAGING_ACCESS_FROM_ALL.
unfoldable pub task_init : ℕ → ℕ → (Mem → ℕ) → Space → Status × Space
task_init task process entry s =
    let (directory, k) = paging_new 0x05 s.kernel in
    let cleared : Task = record {
      process = 0;
      page_directory = directory;
      registers = no_registers;
      next = 0;
      prev = 0;
    } in
    let started : Task = record cleared {
      process = process;
      registers = initial_registers (entry (k.mem));
    } in
    if directory.chunk == 0
    then (err eio, record s { kernel = k; tasks = with_task s.tasks task cleared })
    else (done, record s { kernel = k; tasks = with_task s.tasks task started })

unfoldable pub task_free : ℕ → Space → Space
task_free task s =
    let k = paging_free ((s.tasks.task_at task).page_directory) s.kernel in
    record s { kernel = kfree task k; tasks = task_list_remove task s.tasks }

-- The address of the new task. `none` is what follows from an error: `task_free` of NULL, or of a task
-- whose page directory is NULL, reads through it.
unfoldable pub task_new : ℕ → (Mem → ℕ) → Space → Option (ℕ × Space)
unfolding task_init
task_new process entry s =
    let (task, k) = kzalloc task_size s.kernel in
    let (res, s') = task_init task process entry (record s { kernel = k }) in
    let appended : Option (ℕ × Space) = elim res [
      | err e ↦ none
      | ok _ ↦ some (task, record s' { tasks = task_append task s'.tasks })
    ] in
    if task == 0 then none else appended
