-- ===== src/Isr80h.antt =====
-- isr80h/: the system calls. A call takes its arguments from the stack of the task that runs. What a
-- call ends with is its result, the registers of the task that goes on, or `halt`, for a panic and for
-- what follows from a bad pointer.
pub mod Keys
pub mod Running
pub mod Sum
pub mod Typed
mod Tests
use bimble_os.Common.{
  ℕ, zero, suc, ◌+◌, ◌-◌, ◌%◌, Option, none, some, List, [], ◌∷◌, ◌++◌, ◌==◌, if◌then◌else◌, take,
}
use bimble_os.Common.Status.{
  Errno, eio, einvarg, enomem, ebadpath, efsnotus, erdonly, eunimp, eistkn, einformat, ok, err,
}
use bimble_os.Common.Word.{add32, word_size}
use bimble_os.Idt.{Flow, back, resume, halt, isr80h_register_command}
use bimble_os.Idt.Handlers.{Handler, go_on}
use bimble_os.Keyboard.{keyboard_pop}
use bimble_os.Heap.Kernel.{Kernel}
use bimble_os.Memory.{Mem, load32, store32}
use bimble_os.Process.{Process, process_malloc, process_free}
use bimble_os.Process.Arguments.{
  ProcessArguments, process_inject_arguments, process_get_arguments, argument_size,
}
use bimble_os.Process.Ending.{process_terminate}
use bimble_os.Process.Loading.{process_load_switch}
use bimble_os.Process.System.{
  ProcessObject, System, HasKernel, with_process, kernel_of, put_kernel, space_of, put_space,
  memory_of, system_space,
}
use bimble_os.Task.Space.{
  Space, switch_to, task_get_stack_item, task_virtual_address_to_physical, copy_string_from_task,
  bytes_from,
}
use bimble_os.Terminal.{Terminal, terminal_writechar, print, char_to_int}

-- The numbers of status.h.
unfoldable pub error_code : Errno → ℕ
error_code eio = 1
error_code einvarg = 2
error_code enomem = 3
error_code ebadpath = 4
error_code efsnotus = 5
error_code erdonly = 6
error_code eunimp = 7
error_code eistkn = 8
error_code einformat = 9

-- ERROR(-code), as a pattern.
abbrev pub error_result : Errno → ℕ
error_result e = word_size - error_code e

-- The bytes before the first 0.
unfoldable pub text : List ℕ → List ℕ
text [] = []
text (c ∷ s) = let rest = text s in if c == 0 then [] else c ∷ rest

-- "0:/" and the name behind it.
abbrev pub drive_path : List ℕ → List ℕ
drive_path name = b'0' ∷ b':' ∷ b'/' ∷ name

-- The list of `struct CommandArgument` at an address: 512 bytes of text, and the next one's address.
-- `none` stands for a list of more than the rounds.
unfoldable pub arguments_at : ℕ → ℕ → Mem → Option (List (List ℕ))
unfolding text bytes_from
arguments_at zero root m = none
arguments_at (suc n) root m =
    let rest : Option (List (List ℕ)) =
      elim (arguments_at n (load32 m (add32 root argument_size)) m) [
        | none ↦ none
        | some arguments ↦ some (text (bytes_from argument_size root m) ∷ arguments)
      ] in
    if root == 0 then some [] else rest

module _ {W P : Type 0} (memory : HasKernel W) where
  -- `task_current()->process`.
  abbrev pub current_of : System W P → ℕ
  current_of s = (s.tasks.task_at (s.tasks.current_task)).process

  abbrev pub stack_item : ℕ → System W P → ℕ × System W P
  stack_item index s =
      let (item, x) = task_get_stack_item (s.tasks.current_task) index (space_of memory s) in
      (item, put_space memory x s)

  unfoldable pub isr80h_command0_sum : Handler (System W P)
  isr80h_command0_sum frame s =
      let (v1, s1) = stack_item 0 s in let (v2, s2) = stack_item 1 s1 in (back (add32 v1 v2), s2)

  -- `buf` is what the buffer on the kernel's stack holds before.
  unfoldable pub isr80h_command1_print : List ℕ → Handler (System W P)
  unfolding text
  isr80h_command1_print buf frame s =
      let (message, s1) = stack_item 0 s in
      let (copied, x) =
        copy_string_from_task (s1.tasks.current_task) message buf 1024 (space_of memory s1) in
      let s2 = put_space memory x s1 in
      (back 0, record s2 { terminal = print (text (copied.1)) s2.terminal })

  unfoldable pub isr80h_command2_getkey : Handler (System W P)
  isr80h_command2_getkey frame s =
      let p = s.process_at (current_of s) in
      let (c, left) =
        keyboard_pop (if s.tasks.current_task == 0 then none else some (p.keyboard)) in
      let s' : System W P = elim left [
        | none ↦ s
        | some keyboard ↦ with_process (current_of s) (record p { keyboard = keyboard }) s
      ] in
      (back (char_to_int c), s')

  unfoldable pub isr80h_command3_putchar : Handler (System W P)
  isr80h_command3_putchar frame s =
      let (item, s') = stack_item 0 s in
      (back 0, record s' { terminal = terminal_writechar (item % 256) 15 s'.terminal })

  -- The state once the process at an address has this memory.
  abbrev pub put_memory : ℕ → Process × Kernel → System W P → System W P
  put_memory process (left, k) s =
      with_process process (record (s.process_at process) { allocations = left.allocations })
        (put_kernel memory k s)

  unfoldable pub isr80h_command4_malloc : Handler (System W P)
  isr80h_command4_malloc frame s =
      let (size, s') = stack_item 0 s in
      let process = current_of s' in
      let (ptr, left) =
        process_malloc size (memory_of memory (s'.process_at process) s', kernel_of memory s') in
      (back ptr, put_memory process left s')

  unfoldable pub isr80h_command5_free : Handler (System W P)
  isr80h_command5_free frame s =
      let (ptr_to_free, s') = stack_item 0 s in
      let process = current_of s' in
      let left =
        process_free ptr_to_free
          (memory_of memory (s'.process_at process) s', kernel_of memory s') in
      (back 0, put_memory process left s')

  -- `task_switch` and `task_return` of a process's task.
  unfoldable pub run_process : ℕ → System W P → Flow × System W P
  run_process process s =
      let task = (s.process_at process).task in
      (
        resume ((s.tasks.task_at task).registers),
        put_space memory (switch_to task (space_of memory s)) s,
      )

  -- `name` is what the buffer for the file's name holds before, `uninitialised` is that of Process.
  unfoldable pub isr80h_command6_process_load_start : ℕ → List ℕ → Handler (System W P)
  unfolding run_process text
  isr80h_command6_process_load_start uninitialised name frame s =
      let (filename_user_ptr, s1) = stack_item 0 s in
      let (copied, x) =
        copy_string_from_task (s1.tasks.current_task) filename_user_ptr name 108
          (space_of memory s1) in
      let s2 = put_space memory x s1 in
      let loaded : Flow × System W P =
        elim (process_load_switch memory uninitialised (drive_path (text (copied.1))) s2) [
          | none ↦ (halt, s2)
          | some (res, s3) ↦ elim res [ err e ↦ (back 0, s3) | ok process ↦ run_process process s3 ]
        ] in
      elim (copied.0) [ err e ↦ (back 0, s2) | ok _ ↦ loaded ]

  -- The process's arguments once they are injected: the status, and the state.
  unfoldable pub inject : ℕ → List (List ℕ) → System W P → Flow × System W P
  unfolding run_process
  inject process arguments s =
      let p = s.process_at process in
      let (res, (injected, left)) =
        process_inject_arguments arguments
          (p.arguments, (memory_of memory p s, kernel_of memory s)) in
      let s1 = put_memory process left s in
      let s2 = with_process process (record (s1.process_at process) { arguments = injected }) s1 in
      elim res [ err e ↦ (back (error_result e), s2) | ok _ ↦ run_process process s2 ]

  -- A name of more than 107 bytes is cut. `rounds` bounds the length of the list of arguments.
  unfoldable pub isr80h_command7_invoke_system_command : ℕ → ℕ → Handler (System W P)
  unfolding inject arguments_at
  isr80h_command7_invoke_system_command rounds uninitialised frame s =
      let (item, s1) = stack_item 0 s in
      let arguments =
        task_virtual_address_to_physical (s1.tasks.current_task) item (space_of memory s1) in
      let m = (kernel_of memory s1).mem in
      let program_name = text (bytes_from argument_size arguments m) in
      let path = drive_path (take 107 program_name) in
      let loaded : Flow × System W P = elim (process_load_switch memory uninitialised path s1) [
        | none ↦ (halt, s1)
        | some (res, s2) ↦ elim res [
          | err e ↦ (back (error_result e), s2)
          | ok process ↦ elim (arguments_at rounds arguments (kernel_of memory s2).mem) [
            | none ↦ (halt, s2)
            | some list ↦ inject process list s2
          ]
        ]
      ] in
      let named : Flow × System W P = elim program_name [
        | [] ↦ (back (error_result einvarg), s1)
        | c ∷ name ↦ loaded
      ] in
      if arguments == 0 then (back (error_result einvarg), s1) else named

  unfoldable pub isr80h_command8_get_program_arguments : Handler (System W P)
  unfolding process_get_arguments
  isr80h_command8_get_program_arguments frame s =
      let p = s.process_at (current_of s) in
      let (item, s') = stack_item 0 s in
      let at = task_virtual_address_to_physical (s'.tasks.current_task) item (space_of memory s') in
      let (argc, argv) =
        process_get_arguments (p.arguments, (memory_of memory p s', kernel_of memory s')) in
      let k = kernel_of memory s' in
      let written = store32 (store32 (k.mem) at argc) (add32 at 4) argv in
      (back 0, put_kernel memory (record k { mem = written }) s')

  unfoldable pub isr80h_command9_exit : Handler (System W P)
  isr80h_command9_exit frame s = elim (process_terminate memory (current_of s) s) [
    | none ↦ (halt, s)
    | some (res, s') ↦ go_on (system_space memory) s'
  ]

  -- The commands, by their numbers.
  unfoldable pub system_commands : ℕ → ℕ → List ℕ → List ℕ → List (Handler (System W P))
  system_commands rounds uninitialised buf name =
      isr80h_command0_sum
      ∷ isr80h_command1_print buf
      ∷ isr80h_command2_getkey
      ∷ isr80h_command3_putchar
      ∷ isr80h_command4_malloc
      ∷ isr80h_command5_free
      ∷ isr80h_command6_process_load_start uninitialised name
      ∷ isr80h_command7_invoke_system_command rounds uninitialised
      ∷ isr80h_command8_get_program_arguments
      ∷ isr80h_command9_exit
      ∷ []

  -- The registrations one after the other, with the numbers of `enum SystemCommands`; `none` is a panic.
  unfoldable pub isr80h_register_commands :
      ℕ
      → ℕ
      → List ℕ
      → List ℕ
      → List (Option (Handler (System W P)))
      → Option (List (Option (Handler (System W P))))
  unfolding isr80h_register_command
  isr80h_register_commands rounds uninitialised buf name table =
      let register : ℕ
          → Handler (System W P)
          → Option (List (Option (Handler (System W P))))
          → Option (List (Option (Handler (System W P)))) =
        λ command_id command r. elim r [
          | none ↦ none
          | some t ↦ isr80h_register_command command_id command t
        ] in
      let r0 = register 0 isr80h_command0_sum (some table) in
      let r1 = register 1 (isr80h_command1_print buf) r0 in
      let r2 = register 2 isr80h_command2_getkey r1 in
      let r3 = register 3 isr80h_command3_putchar r2 in
      let r4 = register 4 isr80h_command4_malloc r3 in
      let r5 = register 5 isr80h_command5_free r4 in
      let r6 = register 6 (isr80h_command6_process_load_start uninitialised name) r5 in
      let r7 = register 7 (isr80h_command7_invoke_system_command rounds uninitialised) r6 in
      let r8 = register 8 isr80h_command8_get_program_arguments r7 in
      register 9 isr80h_command9_exit r8
