-- ===== src/Task.antt =====
-- task/task.c: the list of tasks, in the order in which they run, and the registers that a task keeps.
-- A `struct Task *` is an address, 0 is NULL, and the tasks are a function from addresses. The
-- functions that switch page directories and allocate are in Task/Space.
pub mod Chain
pub mod Removal
pub mod Round
pub mod Space
pub mod Stack
pub mod Starting
mod Tests
use bimble_os.Common.{ℕ, Option, none, some, ◌==◌, if◌then◌else◌}
use mathlib.Core.Bool.{not}
use bimble_os.Paging.Create.{PageDirectory}

pub record Registers : Type 0 where
  pub edi : ℕ
  pub esi : ℕ
  pub ebp : ℕ
  pub ebx : ℕ
  pub edx : ℕ
  pub ecx : ℕ
  pub eax : ℕ
  pub ip : ℕ
  pub cs : ℕ
  pub flags : ℕ
  pub esp : ℕ
  pub ss : ℕ

pub record InterruptFrame : Type 0 where
  pub edi : ℕ
  pub esi : ℕ
  pub ebp : ℕ
  pub reserved : ℕ
  pub ebx : ℕ
  pub edx : ℕ
  pub ecx : ℕ
  pub eax : ℕ
  pub ip : ℕ
  pub cs : ℕ
  pub flags : ℕ
  pub esp : ℕ
  pub ss : ℕ

-- `process` is the address of a process.
pub record Task : Type 0 where
  pub process : ℕ
  pub page_directory : PageDirectory
  pub registers : Registers
  pub next : ℕ
  pub prev : ℕ

pub record Tasks : Type 0 where
  pub task_at : ℕ → Task
  pub current_task : ℕ
  pub task_tail : ℕ
  pub task_head : ℕ

-- A write to the task at an address.
abbrev pub with_task : Tasks → ℕ → Task → Tasks
with_task s task t = record s { task_at = λ a. if a == task then t else s.task_at a }

unfoldable pub task_get_next : Tasks → ℕ
task_get_next s =
    let next = (s.task_at (s.current_task)).next in if next == 0 then s.task_head else next

unfoldable pub task_list_remove : ℕ → Tasks → Tasks
unfolding task_get_next
task_list_remove task s =
    let prev = (s.task_at task).prev in
    let next = (s.task_at task).next in
    let linked : Tasks =
      if prev == 0 then s else with_task s prev (record (s.task_at prev) { next = next }) in
    let headed : Tasks =
      if task == linked.task_head then record linked { task_head = next } else linked in
    let tailed : Tasks =
      if task == headed.task_tail then record headed { task_tail = prev } else headed in
    if task == tailed.current_task
    then record tailed { current_task = task_get_next tailed }
    else tailed

-- The part of `task_new` that puts the new task at the end of the list.
unfoldable pub task_append : ℕ → Tasks → Tasks
task_append task s =
    if s.task_head == 0
    then record s { task_head = task; task_tail = task; current_task = task }
    else let linked = with_task s s.task_tail (record (s.task_at (s.task_tail)) { next = task }) in
      let back = with_task linked task (record (linked.task_at task) { prev = s.task_tail }) in
      record back { task_tail = task }

-- The page switch behind it is in Task/Space.
unfoldable pub task_switch : ℕ → Tasks → Tasks
task_switch task s = record s { current_task = task }

-- `none` is the panic, and `some` the task whose registers `task_return` gets.
unfoldable pub task_next : Tasks → Option (ℕ × Tasks)
unfolding task_get_next task_switch
task_next s =
    let next_task = task_get_next s in
    if next_task == 0 then none else some (next_task, task_switch next_task s)

unfoldable pub task_save_state : ℕ → InterruptFrame → Tasks → Tasks
task_save_state task frame s =
    let saved : Registers = record {
      edi = frame.edi;
      esi = frame.esi;
      ebp = frame.ebp;
      ebx = frame.ebx;
      edx = frame.edx;
      ecx = frame.ecx;
      eax = frame.eax;
      ip = frame.ip;
      cs = frame.cs;
      flags = frame.flags;
      esp = frame.esp;
      ss = frame.ss;
    } in
    with_task s task (record (s.task_at task) { registers = saved })

-- `none` is the panic.
unfoldable pub task_current_save_state : InterruptFrame → Tasks → Option Tasks
unfolding task_save_state
task_current_save_state frame s =
    if s.current_task == 0 then none else some (task_save_state (s.current_task) frame s)
