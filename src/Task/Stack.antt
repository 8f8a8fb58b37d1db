-- ===== src/Task/Stack.antt =====
-- The words on a task's stack, as a system call reads them.
use bimble_os.Common.{ℕ, ◌+◌, ◌<◌, ◌≡◌, refl, ap, ◌∙◌, arith}
use bimble_os.Common.Word.{add32, mul32, word_size}
use bimble_os.Memory.{Mem, load32}
use bimble_os.Paging.{paging_get_physical_address}
use bimble_os.Task.Space.{Space, virtual_word, task_get_stack_item, kernel_page}

-- `n` bytes from a virtual address on lie at `phys`, one after the other.
abbrev pub IsMapped : Mem → ℕ → ℕ → ℕ → ℕ → Type 0
IsMapped m directory a phys n =
    (i : ℕ) → i < n → paging_get_physical_address directory (add32 a i) m ≡ phys + i

virtual_word_lem :
    (directory a phys : ℕ) (m : Mem)
    → a < word_size
    → IsMapped m directory a phys 4
    → virtual_word directory a m ≡ load32 m phys
unfolding virtual_word
virtual_word_lem directory a phys m small h =
    let start : add32 a 0 ≡ a = omega arith in
    let first : paging_get_physical_address directory a m ≡ phys =
      ap (λ b. paging_get_physical_address directory b m) (omega arith)
      ∙ h 0 (omega arith)
      ∙ omega arith in
    rw (first, h 1 (omega arith), h 2 (omega arith), h 3 (omega arith)) refl

-- The item `index` of the stack of a task: the word at the physical address of its place. The kernel's
-- page directory is in use then.
pub task_get_stack_item_lem :
    (s : Space) (task index phys : ℕ)
    → let t = s.tasks.task_at task in
      IsMapped
        (s.kernel.mem)
        t.page_directory.directory_entry
        (add32 t.registers.esp (mul32 4 index))
        phys
        4
      → task_get_stack_item task index s ≡ (load32 (s.kernel.mem) phys, kernel_page s)
unfolding task_get_stack_item kernel_page
task_get_stack_item_lem s task index phys h =
    let t = s.tasks.task_at task in
    rw
      (virtual_word_lem t.page_directory.directory_entry (add32 t.registers.esp (mul32 4 index))
        phys (s.kernel.mem) (omega arith) h)
      refl
