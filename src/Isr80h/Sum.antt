-- ===== src/Isr80h/Sum.antt =====
-- The system call 0, from the program's stack to its result.
use bimble_os.Common.{
  ℕ, ◌+◌, ◌<◌, ◌≡◌, ◌≢◌, refl, Option, none, some, ap, ◌∙◌, true, false, List, arith, ◌==◌,
}
use bimble_os.Common.Word.{add32, mul32, word_size}
use bimble_os.Idt.{Flow, back, halt}
use bimble_os.Idt.Handlers.{isr80h_handler, enter, leave}
use bimble_os.Isr80h.{system_commands, isr80h_command0_sum, stack_item}
use bimble_os.Isr80h.Running.{table_of, call_in_table}
use bimble_os.Memory.{Mem, load32}
use bimble_os.Paging.{paging_get_physical_address}
use bimble_os.Process.System.{
  HasKernel, System, system_space, space_of, put_space, kernel_of, space-put_space,
}
use bimble_os.Task.{InterruptFrame, task_save_state, task_current_save_state}
use bimble_os.Task.Space.{Space, kernel_page, task_page, switch_to}
use bimble_os.Task.Stack.{IsMapped, task_get_stack_item_lem}

abbrev pub directory_of : Space → ℕ
directory_of x = (x.tasks.task_at (x.tasks.current_task)).page_directory.directory_entry

abbrev sp_of : Space → ℕ
sp_of x = (x.tasks.task_at (x.tasks.current_task)).registers.esp

-- The state in which the handler of a system call runs.
abbrev pub entered : InterruptFrame → Space → Space
entered frame x = record (kernel_page x) {
  tasks = task_save_state (x.tasks.current_task) frame x.tasks;
}

pub enter_lem :
    (frame : InterruptFrame) (x : Space)
    → x.tasks.current_task ≢ 0
    → enter frame x ≡ some (entered frame x)
unfolding enter task_current_save_state
enter_lem frame x runs =
    let going : (x.tasks.current_task == 0) ≡ false = ground (arith, runs) in rw (enter, going) refl

-- What the entry changes of the task that runs.
entered_task :
    (frame : InterruptFrame) (x : Space)
    → (sp_of (entered frame x) ≡ frame.esp) × (directory_of (entered frame x) ≡ directory_of x)
unfolding task_save_state kernel_page
entered_task frame x =
    let here : (x.tasks.current_task == x.tasks.current_task) ≡ true = ground arith in
    (rw (sp_of, here) refl, rw (directory_of, here) refl)

-- The first and the second word of eight mapped bytes.
first_word :
    (m : Mem) (directory a phys : ℕ)
    → a < word_size
    → IsMapped m directory a phys 8
    → IsMapped m directory (add32 a (mul32 4 0)) phys 4
first_word m directory a phys small h i lt =
    ap (λ b. paging_get_physical_address directory b m) (omega arith) ∙ h i (omega (arith, lt))

second_word :
    (m : Mem) (directory a phys : ℕ)
    → IsMapped m directory a phys 8
    → IsMapped m directory (add32 a (mul32 4 1)) (phys + 4) 4
second_word m directory a phys h i lt =
    ap (λ b. paging_get_physical_address directory b m) (omega arith)
    ∙ h (4 + i) (omega (arith, lt))
    ∙ omega arith

module _ {W P : Type 0} (memory : HasKernel W) where
  stack_item_lem :
      (x : Space) (s : System W P) (index phys : ℕ)
      → IsMapped (x.kernel.mem) (directory_of x) (add32 (sp_of x) (mul32 4 index)) phys 4
      → stack_item memory index (put_space memory x s)
        ≡ (load32 (x.kernel.mem) phys, put_space memory (kernel_page x) (put_space memory x s))
  stack_item_lem x s index phys h =
      rw (space-put_space memory x s, task_get_stack_item_lem x (x.tasks.current_task) index phys h)
        refl

  sum_lem :
      (x : Space) (s : System W P) (frame : InterruptFrame) (phys : ℕ)
      → sp_of x < word_size
      → IsMapped (x.kernel.mem) (directory_of x) (sp_of x) phys 8
      → isr80h_command0_sum memory frame (put_space memory x s) ≡ (
        back (add32 (load32 (x.kernel.mem) phys) (load32 (x.kernel.mem) (phys + 4))),
        put_space memory
            (kernel_page (kernel_page x))
            (put_space memory (kernel_page x) (put_space memory x s)),
      )
  unfolding isr80h_command0_sum kernel_page
  sum_lem x s frame phys small h =
      let m = x.kernel.mem in
      let word = load32 m phys in
      let second : ℕ × System W P → Flow × System W P =
        λ r. let (v2, s2) = stack_item memory 1 r.1 in (back (add32 (r.0) v2), s2) in
      ap second (stack_item_lem x s 0 phys (first_word m (directory_of x) (sp_of x) phys small h))
      ∙ ap (λ (r : ℕ × System W P). (back (add32 word (r.0)), r.1))
          (stack_item_lem (kernel_page x) (put_space memory x s) 1 (phys + 4)
            (second_word m (directory_of x) (sp_of x) phys h))

  -- Where the page directory of the task that runs maps the 8 bytes at the stack pointer of the frame, the system
  -- call 0 gives the sum of the two words there, modulo 2 ^ 32; the frame is saved in the task, the
  -- task's page directory is in use again, and the kernel's heap and memory are as they were.
  pub isr80h_command0_sum_lem :
      (rounds uninitialised : ℕ) (buf name : List ℕ) (frame : InterruptFrame) (s : System W P)
      (phys : ℕ)
      → s.tasks.current_task ≢ 0
      → frame.esp < word_size
      → IsMapped ((kernel_of memory s).mem) (directory_of (space_of memory s)) frame.esp phys 8
      → let m = (kernel_of memory s).mem in
        let out =
          isr80h_handler
            (system_space memory)
            (table_of (system_commands memory rounds uninitialised buf name) 1014)
            0
            frame
            s in
        (out.0 ≡ back (add32 (load32 m phys) (load32 m (phys + 4))))
        × (out.1.tasks ≡ task_save_state s.tasks.current_task frame s.tasks)
        × (out.1.current_directory ≡ directory_of (space_of memory s))
        × (kernel_of memory out.1 ≡ kernel_of memory s)
  unfolding system_commands task_page switch_to leave kernel_page
  isr80h_command0_sum_lem rounds uninitialised buf name frame s phys runs small h =
      let x = entered frame (space_of memory s) in
      let m = (kernel_of memory s).mem in
      let commands = system_commands {P = P} memory rounds uninitialised buf name in
      let sum = back (add32 (load32 m phys) (load32 m (phys + 4))) in
      let (sp, directory) = entered_task frame (space_of memory s) in
      let last =
        put_space memory (kernel_page (kernel_page x))
          (put_space memory (kernel_page x) (put_space memory x s)) in
      let inner : Option Space → Flow × System W P = λ e. elim e [
        | none ↦ (halt, s)
        | some y ↦
            leave (system_space memory) (isr80h_command0_sum memory frame (put_space memory y s))
      ] in
      let mapped : IsMapped (x.kernel.mem) (directory_of x) (sp_of x) phys 8 =
        rw (sp, directory) h in
      let all =
        call_in_table (system_space memory) commands 1014 0 frame s (omega arith)
        ∙ ap inner (enter_lem frame (space_of memory s) runs)
        ∙ ap (leave (system_space memory)) (sum_lem x s frame phys (rw sp small) mapped)
        ∙ ap (λ y. (sum, put_space memory (task_page y) last))
            (space-put_space memory (kernel_page (kernel_page x))
              (put_space memory (kernel_page x) (put_space memory x s))) in
      rw all
        (refl, refl, directory, memory.kernel-with_kernel (kernel_of memory s) (last.files.world))
