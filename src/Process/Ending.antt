-- ===== src/Process/Ending.antt =====
-- task/process.c: the end of a process, and the exceptions of idt/idt.c, which end one.
use bimble_os.Common.{ℕ, Option, none, some, List, [], ◌∷◌, ◌==◌, if◌then◌else◌}
use bimble_os.Common.Status.{Status, done, ok, err, einvarg}
use bimble_os.Elf.Load.{elf_close}
use bimble_os.Heap.Kernel.{kfree}
use bimble_os.Idt.{halt}
use bimble_os.Idt.Handlers.{Handler, go_on}
use bimble_os.Terminal.{print}
use bimble_os.Process.{process_terminate_allocations}
use bimble_os.Process.Mapping.{process_unlink}
use bimble_os.Process.System.{
  System, HasKernel, with_process, machine_of, kernel_of, put_kernel, space_of, put_space,
  memory_of, system_space, process_filetype_elf, process_filetype_binary,
}
use bimble_os.Task.Space.{task_free}

-- "Exception occured"
abbrev exception_text : List ℕ
exception_text =
    b'E' ∷ b'x' ∷ b'c' ∷ b'e' ∷ b'p' ∷ b't' ∷ b'i' ∷ b'o' ∷ b'n' ∷ b' ' ∷ b'o' ∷ b'c' ∷ b'c' ∷ b'u'
    ∷ b'r' ∷ b'e' ∷ b'd' ∷ []

module _ {W P : Type 0} (memory : HasKernel W) where
  -- The allocations of a process, freed.
  unfoldable pub end_allocations : ℕ → System W P → System W P
  end_allocations process s =
      let p = s.process_at process in
      let (left, k) = process_terminate_allocations (memory_of memory p s, kernel_of memory s) in
      with_process process (record p { allocations = left.allocations }) (put_kernel memory k s)

  unfoldable pub process_free_binary_data : ℕ → System W P → System W P
  process_free_binary_data process s =
      put_kernel memory (kfree ((s.process_at process).ptr) (kernel_of memory s)) s

  -- `none` where the pointer is to no ELF file.
  unfoldable pub process_free_elf_data : ℕ → System W P → Option (System W P)
  process_free_elf_data process s =
      let ptr = (s.process_at process).ptr in
      elim (s.elf_at ptr) [
        | none ↦ none
        | some file ↦ some (record s {
          files = record (s.files) {
            world = elf_close (machine_of memory) ptr file (s.files.world);
          };
        })
      ]

  unfoldable pub process_free_program_data : ℕ → System W P → Option (Status × System W P)
  unfolding process_free_binary_data process_free_elf_data
  process_free_program_data process s =
      let filetype = (s.process_at process).filetype in
      let elf : Option (Status × System W P) = elim (process_free_elf_data process s) [
        | none ↦ none
        | some s' ↦ some (done, s')
      ] in
      if filetype == process_filetype_binary
      then some (done, process_free_binary_data process s)
      else if filetype == process_filetype_elf
      then elf
      else some (err einvarg, s)

  -- `none` is the panic where no process is left, too.
  unfoldable pub process_terminate : ℕ → System W P → Option (Status × System W P)
  unfolding end_allocations process_free_program_data
  process_terminate process s =
      elim (process_free_program_data process (end_allocations process s)) [
        | none ↦ none
        | some (res, s1) ↦ elim res [
          | err e ↦ some (err e, s1)
          | ok _ ↦
              let p = s1.process_at process in
              let s2 = put_kernel memory (kfree (p.stack) (kernel_of memory s1)) s1 in
              let s3 = put_space memory (task_free (p.task) (space_of memory s2)) s2 in
              elim (process_unlink process (p.id) (s3.processes, s3.current_process)) [
                | none ↦ none
                | some (left, current) ↦
                    some (done, record s3 { processes = left; current_process = current })
              ]
        ]
      ]

  -- The handler of interrupts below 0x20.
  unfoldable pub idt_handle_exception : Handler (System W P)
  unfolding process_terminate
  idt_handle_exception frame s =
      let printed : System W P = record s { terminal = print exception_text s.terminal } in
      let process = (s.tasks.task_at (s.tasks.current_task)).process in
      elim (process_terminate process printed) [
        | none ↦ (halt, printed)
        | some (res, s') ↦ go_on (system_space memory) s'
      ]
