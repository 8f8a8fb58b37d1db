-- ===== src/Isr80h/Tests.antt =====
-- The theorems about system calls at a system with one task.
use bimble_os.Isr80h.Keys.{Focused}
use bimble_os.Isr80h.Typed.{codes_of, AreKeys, presses, reads, reads-presses}
use bimble_os.Keyboard.Empty.{empty_buffer, empty-IsQueue}
use bimble_os.Common.{
  ℕ, false, inl, inr, ◌∷◌, ◌+◌, ◌≡◌, ◌∙◌, refl, none, some, Option, List, [], arith, replicate,
}
use bimble_os.Common.Word.{add32}
use bimble_os.Heap.Kernel.{Kernel}
use bimble_os.Heap.Sample.{roomy, roomy-HasRoom}
use bimble_os.Idt.{back, max_isr80h_commands}
use bimble_os.Idt.Handlers.{Handler, isr80h_handler}
use bimble_os.Isr80h.{isr80h_register_commands, system_commands}
use bimble_os.Isr80h.Running.{table_of, call, system_call, isr80h_register_commands_lem}
use bimble_os.Isr80h.Sum.{directory_of, isr80h_command0_sum_lem}
use bimble_os.Memory.{load32}
use bimble_os.Paging.Create.{paging_new}
use bimble_os.Paging.Identity.{paging_new_lem}
use bimble_os.Process.Sample.{own_kernel, system_with}
use bimble_os.Process.System.{System, system_space, space_of, kernel_of}
use bimble_os.Task.{InterruptFrame, task_save_state}
use bimble_os.Task.Stack.{IsMapped}

abbrev frame : InterruptFrame
frame = record {
  edi = 1;
  esi = 2;
  ebp = 3;
  reserved = 0;
  ebx = 4;
  edx = 5;
  ecx = 6;
  eax = 7;
  ip = 0x40_1000;
  cs = 0x1b;
  flags = 0x202;
  esp = 0x3f_eff0;
  ss = 0x23;
}

register_commands_example :
    (table : List (Option (Handler (System Kernel ℕ)))) × (isr80h_register_commands own_kernel 16 0
        [] []
        (replicate max_isr80h_commands none)
      ≡ some table)
    × (isr80h_handler (system_space own_kernel) table 4 frame (system_with roomy 0)
        ≡ system_call
            (system_space own_kernel)
            (call (system_commands own_kernel 16 0 [] []) 4)
            frame
            (system_with roomy 0))
register_commands_example =
    isr80h_register_commands_lem own_kernel 16 0 [] [] 4 frame (system_with roomy 0)

-- A system whose task has a page directory that maps every address to itself.
abbrev linear_system : System Kernel ℕ
linear_system = let (made, k) = paging_new 0x05 roomy in system_with k made.directory_entry

linear_system-IsMapped :
    IsMapped
      ((kernel_of own_kernel linear_system).mem)
      (directory_of (space_of own_kernel linear_system))
      0x3f_eff0
      0x3f_eff0
      8
linear_system-IsMapped i h =
    let made =
      paging_new_lem roomy 0x05 4 refl (λ a. omega arith) (omega arith)
        (roomy-HasRoom 1030 (omega arith)) in
    made.1 (add32 0x3f_eff0 i) (omega arith) ∙ omega (arith, h)

sum_example :
    let m = (kernel_of own_kernel linear_system).mem in
    let out =
      isr80h_handler
        (system_space own_kernel)
        (table_of (system_commands own_kernel 16 0 [] []) 1014)
        0
        frame
        linear_system in
    (out.0 ≡ back (add32 (load32 m 0x3f_eff0) (load32 m (0x3f_eff0 + 4))))
    × (out.1.tasks ≡ task_save_state 0x1000 frame linear_system.tasks)
    × (out.1.current_directory ≡ directory_of (space_of own_kernel linear_system))
    × (kernel_of own_kernel out.1 ≡ kernel_of own_kernel linear_system)
sum_example =
    isr80h_command0_sum_lem own_kernel 16 0 [] [] frame linear_system 0x3f_eff0 (λ e. omega arith)
      (omega arith) linear_system-IsMapped

-- The current process is that of the task which runs.
abbrev focused_system : System Kernel ℕ
focused_system = record (system_with roomy 0) { current_process = 7 }

focused_system-Focused : Focused own_kernel focused_system false empty_buffer
unfolding bimble_os.Process.System.process_init
focused_system-Focused = record {
  runs = λ e. omega arith;
  own = refl;
  has_process = λ e. omega arith;
  lock = refl;
  keys = refl;
}

-- The caps lock key, H and I.
abbrev keys : List (ℕ × InterruptFrame)
keys = (0x3a, frame) ∷ (0xba, frame) ∷ (0x23, frame) ∷ (0xa3, frame) ∷ (0x17, frame) ∷ []

keys-AreKeys : AreKeys (codes_of keys)
keys-AreKeys = (
  inl (omega arith),
  (
    inr (omega arith, omega arith),
    (inl (omega arith), (inr (omega arith, omega arith), (inl (omega arith), tt))),
  ),
)

typed_keys_example :
    reads own_kernel
      (system_commands own_kernel 16 0 [] [])
      (frame ∷ frame ∷ [])
      (presses own_kernel (replicate 512 none) 0 keys focused_system)
    ≡ back b'H' ∷ back b'I' ∷ []
typed_keys_example =
    reads-presses own_kernel (replicate 512 none) 0 16 0 [] [] keys (frame ∷ frame ∷ [])
      focused_system false empty_buffer (omega arith) focused_system-Focused empty-IsQueue
      keys-AreKeys (omega arith) (omega arith) refl
