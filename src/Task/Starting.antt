-- ===== src/Task/Starting.antt =====
-- A new task: its registers, its page directory and its place in the list.
use bimble_os.Common.{
  ℕ, ◌+◌, ◌%◌, ◌<◌, ◌≡◌, ◌≢◌, refl, sym, ap, ◌∙◌, true, false, Option, none, some, List, [], ◌∷◌,
  ◌++◌, arith, ◌==◌,
}
use mathlib.Core.Path.{subst}
use bimble_os.Common.Status.{Status, done, ok, err}
use bimble_os.Heap.Blocks.{kzalloc-NewBlock}
use bimble_os.Heap.Kernel.{kzalloc}
use bimble_os.Heap.Small.{HasRoom}
use bimble_os.Memory.{Mem}
use bimble_os.Paging.{page_size}
use bimble_os.Paging.Create.{paging_new}
use bimble_os.Paging.Identity.{IsLinear, paging_new_lem}
use bimble_os.Paging.Linear.{Bytes}
use bimble_os.Task.{Task, Tasks, with_task, task_append}
use bimble_os.Task.Chain.{Linked, Absent, IsChain, Absent-last, task_append_lem}
use bimble_os.Task.Space.{Space, task_size, task_new, task_init, initial_registers}

with_task-Linked :
    (s : Tasks) (a : ℕ) (t : Task) (ts : List ℕ)
    → Absent a ts
    → Linked s.task_at ts
    → Linked ((with_task s a t).task_at) ts
with_task-Linked s a t [] absent v = tt
with_task-Linked s a t (u ∷ ts) absent v =
    let other : (u == a) ≡ false = let n = absent.0 in ground (arith, n) in
    ((v.0.0, rw other v.0.1), with_task-Linked s a t ts absent.1 v.1)

-- A write to an address that is not in the list.
with_task-IsChain :
    {s : Tasks} {ts : List ℕ} (a : ℕ) (t : Task)
    → Absent a ts
    → IsChain s ts
    → IsChain (with_task s a t) ts
with_task-IsChain {s} {ts} a t absent v = record {
  links = with_task-Linked s a t ts absent v.links;
  distinct = v.distinct;
  head = v.head;
  tail = v.tail;
}

-- The new task itself.
task_append-at :
    (s : Tasks) (new : ℕ)
    → 0 < s.task_head
    → new ≢ s.task_tail
    → (task_append new s).task_at new ≡ record (s.task_at new) { prev = s.task_tail }
unfolding task_append
task_append-at s new pos ne =
    let some_head : (s.task_head == 0) ≡ false = ground (arith, pos) in
    let other : (new == s.task_tail) ≡ false = ground (arith, ne) in
    let here : (new == new) ≡ true = ground arith in rw (some_head, here, other) refl

-- What `task_new` makes of a space.
pub record Started (s : Space) (process ip new : ℕ) (ts : List ℕ) (s' : Space) : Type 0 where
  pub chain : IsChain s'.tasks (ts ++ (new ∷ []))
  pub runs : s'.tasks.current_task ≡ s.tasks.current_task
  pub of_process : (s'.tasks.task_at new).process ≡ process
  pub registers : (s'.tasks.task_at new).registers ≡ initial_registers ip
  pub directory :
      IsLinear (s'.kernel.mem) (s'.tasks.task_at new).page_directory.directory_entry 0x05

-- The task, and the space before it is put into the list.
abbrev started : ℕ → (Mem → ℕ) → Space → Task
started process entry s =
    let (directory, k) = paging_new 0x05 (kzalloc task_size s.kernel).1 in
    record {
      process = process;
      page_directory = directory;
      registers = initial_registers (entry (k.mem));
      next = 0;
      prev = 0;
    }

abbrev with_started : ℕ → (Mem → ℕ) → Space → Space
with_started process entry s = record s {
  kernel = (paging_new 0x05 (kzalloc task_size s.kernel).1).1;
  tasks = with_task s.tasks (kzalloc task_size s.kernel).0 (started process entry s);
}

abbrev with_new : ℕ → (Mem → ℕ) → Space → Space
with_new process entry s =
    let x = with_started process entry s in
    record x { tasks = task_append (kzalloc task_size s.kernel).0 x.tasks }

task_init-eq :
    (s : Space) (process : ℕ) (entry : Mem → ℕ)
    → (paging_new 0x05 (kzalloc task_size s.kernel).1).0.chunk ≢ 0
    → task_init
        (kzalloc task_size s.kernel).0
        process
        entry
        (record s { kernel = (kzalloc task_size s.kernel).1 })
      ≡ (done, with_started process entry s)
unfolding task_init
task_init-eq s process entry some_chunk =
    let b : ((paging_new 0x05 (kzalloc task_size s.kernel).1).0.chunk == 0) ≡ false =
      ground (arith, some_chunk) in
    rw (task_init, b) refl

task_new-eq :
    (s : Space) (process : ℕ) (entry : Mem → ℕ)
    → (kzalloc task_size s.kernel).0 ≢ 0
    → (paging_new 0x05 (kzalloc task_size s.kernel).1).0.chunk ≢ 0
    → task_new process entry s ≡ some ((kzalloc task_size s.kernel).0, with_new process entry s)
unfolding task_new
task_new-eq s process entry some_task some_chunk =
    let a : ((kzalloc task_size s.kernel).0 == 0) ≡ false = ground (arith, some_task) in
    let put : Status × Space → Option (ℕ × Space) = λ r. elim (r.0) [
      | err e ↦ none
      | ok _ ↦ some (
        (kzalloc task_size s.kernel).0,
        record (r.1) { tasks = task_append (kzalloc task_size s.kernel).0 (r.1.tasks) },
      )
    ] in
    rw a (ap put (task_init-eq s process entry some_chunk))

-- Where the heap starts at a page and has 1027 free blocks, and the list of tasks is not empty and does not
-- have the address of the block that kzalloc gives, `task_new` gives a task at that address, which is not
-- NULL: the list has it at its end then, the task has the registers of the program's start, and its
-- page directory maps every address to itself; the task that is current stays so.
pub task_new_lem :
    (s : Space) (process extra : ℕ) (entry : Mem → ℕ) (t : ℕ) (ts : List ℕ)
    → s.kernel.heap.saddr % page_size ≡ 0
    → Bytes (s.kernel.mem)
    → HasRoom (s.kernel.heap) (1027 + extra)
    → IsChain s.tasks (t ∷ ts)
    → Absent (kzalloc task_size s.kernel).0 (t ∷ ts)
    → (s' : Space) × (task_new process entry s ≡ some ((kzalloc task_size s.kernel).0, s'))
      × ((kzalloc task_size s.kernel).0 ≢ 0)
      × Started s process (entry (s'.kernel.mem)) (kzalloc task_size s.kernel).0 (t ∷ ts) s'
      × HasRoom (s'.kernel.heap) extra
task_new_lem s process extra entry t ts aligned bytes room v absent =
    let new = (kzalloc task_size s.kernel).0 in
    let k = (kzalloc task_size s.kernel).1 in
    let block =
      kzalloc-NewBlock s.kernel task_size (1026 + extra) (omega arith) (omega arith)
        (subst (λ r. HasRoom (s.kernel.heap) r) (omega arith) room) in
    let (linear, _, chunk, _, left) =
      paging_new_lem k 0x05 extra (omega (arith, aligned, block.saddr))
        (λ a. ground (arith, block.memory a, bytes a)) (omega arith) block.room in
    let some_task : new ≢ 0 = λ e. omega (arith, block.positive, e) in
    let x = with_started process entry s in
    let here : (new == new) ≡ true = ground arith in
    let at_new : x.tasks.task_at new ≡ started process entry s = rw here refl in
    let v' : IsChain x.tasks (t ∷ ts) = with_task-IsChain new (started process entry s) absent v in
    let appended =
      task_append_lem {s = x.tasks} new t ts v' block.positive absent
        (ap (λ (u : Task). u.next) at_new) in
    let own : (with_new process entry s).tasks.task_at new
        ≡ record (started process entry s) { prev = x.tasks.task_tail } =
      task_append-at x.tasks new (omega (arith, v.head, v.links.0.0))
        (λ e. Absent-last new t ts absent (e ∙ v.tail))
      ∙ ap (λ (u : Task). record u { prev = x.tasks.task_tail }) at_new in
    (
      with_new process entry s,
      task_new-eq s process entry some_task chunk,
      some_task,
      record {
        chain = appended.0;
        runs = appended.1;
        of_process = ap (λ (u : Task). u.process) own;
        registers = ap (λ (u : Task). u.registers) own;
        directory =
            subst
              (λ (u : Task).
                IsLinear ((with_new process entry s).kernel.mem) u.page_directory.directory_entry
                  0x05)
              (sym own) linear;
      },
      left,
    )
