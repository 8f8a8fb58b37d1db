-- ===== src/Process/Terminated.antt =====
-- What is left of a process that has ended.
use bimble_os.Common.{
  ℕ, ◌≡◌, ◌≢◌, ◌<◌, refl, ap, ◌∙◌, true, false, Bool-cases, inl, inr, Option, none, some, List,
  arith, ◌==◌, if◌then◌else◌, leb, length, set, ◌∷◌, ◌++◌, sym, get_or-set_self, get_or-set_ne,
}
use bimble_os.Common.Status.{Status, done, ok, err}
use bimble_os.Elf.{ElfFile}
use bimble_os.Elf.Load.{elf_close}
use bimble_os.Heap.Kernel.{kfree}
use bimble_os.Process.{process_get, max_processes}
use bimble_os.Process.Ending.{end_allocations, process_free_program_data, process_terminate}
use bimble_os.Process.Mapping.{process_unlink}
use bimble_os.Process.System.{
  System, HasKernel, process_filetype_elf, put_kernel, kernel_of, put_space, space_of, machine_of,
}
use bimble_os.Task.{task_list_remove}
use bimble_os.Task.Chain.{IsChain}
use bimble_os.Task.Removal.{task_list_remove_lem}
use mathlib.Core.Path.{subst}
use bimble_os.Task.Space.{task_free}

unlink_other :
    (process id : ℕ) (processes : List ℕ) (current : ℕ)
    → current ≢ process
    → process_unlink process id (processes, current) ≡ some (set processes id 0, current)
unfolding process_unlink
unlink_other process id processes current ne =
    let other : (current == process) ≡ false = ground (arith, ne) in rw (process_unlink, other) refl

module _ {W P : Type 0} (memory : HasKernel W) where
  -- The state once the program is freed.
  abbrev without_program : ℕ → ElfFile → System W P → System W P
  without_program process file s = record s {
    files = record (s.files) {
      world = elf_close (machine_of memory) (s.process_at process).ptr file (s.files.world);
    };
  }

  free_elf :
      (process : ℕ) (file : ElfFile) (s : System W P)
      → (s.process_at process).filetype ≡ process_filetype_elf
      → s.elf_at (s.process_at process).ptr ≡ some file
      → process_free_program_data memory process s ≡ some (done, without_program process file s)
  unfolding process_free_program_data
  free_elf process file s elf held = rw (elf, held) refl

  -- Ending the allocations changes nothing else of the process.
  ended :
      (process : ℕ) (s : System W P)
      → let p = (end_allocations memory process s).process_at process in
        (p.filetype ≡ (s.process_at process).filetype)
        × (p.ptr ≡ (s.process_at process).ptr)
        × (p.id ≡ (s.process_at process).id)
        × (p.task ≡ (s.process_at process).task)
  unfolding end_allocations
  ended process s =
      let here : (process == process) ≡ true = ground arith in
      (rw here refl, rw here refl, rw here refl, rw here refl)

  -- The state behind `task_free`.
  abbrev without_task : ℕ → System W P → System W P
  without_task process s =
      let p = s.process_at process in
      let s' = put_kernel memory (kfree (p.stack) (kernel_of memory s)) s in
      put_space memory (task_free (p.task) (space_of memory s')) s'

  -- The end of `process_terminate`.
  unlink_end : (process : ℕ) (s : System W P) → Option (Status × System W P)
  unlink_end process s =
      let s' = without_task process s in
      elim (process_unlink process (s.process_at process).id (s'.processes, s'.current_process)) [
        | none ↦ none
        | some (left, current) ↦
            some (done, record s' { processes = left; current_process = current })
      ]

  unlink_lem :
      (process : ℕ) (s : System W P)
      → s.current_process ≢ process
      → unlink_end process s
        ≡ some (
          done,
          record (without_task process s) {
            processes = set s.processes (s.process_at process).id 0;
          },
        )
  unfolding unlink_end
  unlink_lem process s ne =
      let s' = without_task process s in
      let put : Option (List ℕ × ℕ) → Option (Status × System W P) = λ r. elim r [
        | none ↦ none
        | some (left, current) ↦
            some (done, record s' { processes = left; current_process = current })
      ] in
      ap put (unlink_other process (s.process_at process).id s.processes s.current_process ne)

  terminate_end :
      (process : ℕ) (file : ElfFile) (s : System W P)
      → (s.process_at process).filetype ≡ process_filetype_elf
      → s.elf_at (s.process_at process).ptr ≡ some file
      → process_terminate memory process s
        ≡ unlink_end process (without_program process file (end_allocations memory process s))
  unfolding process_terminate end_allocations unlink_end
  terminate_end process file s elf held =
      let (filetype, ptr, _, _) = ended process s in
      let after : Option (Status × System W P) → Option (Status × System W P) = λ x. elim x [
        | none ↦ none
        | some (res, s1) ↦ elim res [ err e ↦ some (err e, s1) | ok _ ↦ unlink_end process s1 ]
      ] in
      ap after (
        free_elf process file (end_allocations memory process s) (filetype ∙ elf)
          (ap (λ a. s.elf_at a) ptr ∙ held))

  slots :
      (process : ℕ) (s : System W P) (slot : ℕ) {i : ℕ}
      → i ≡ (s.process_at process).id
      → length s.processes ≡ max_processes
      → (s.process_at process).id < max_processes
      → process_get slot (set s.processes i 0)
        ≡ (if slot == (s.process_at process).id then 0 else process_get slot s.processes)
  unfolding process_get
  slots process s slot {i} e size lt = rw e (elim (Bool-cases (slot == (s.process_at process).id)) [
    | inl same ↦
        let here : slot ≡ (s.process_at process).id = ground (arith, same) in
        let inside : leb 12 slot ≡ false = ground (arith, here, lt) in
        rw (same, inside, here)
          (get_or-set_self s.processes (s.process_at process).id 0 0 (omega (arith, size, lt)))
    | inr differs ↦
        let apart : (s.process_at process).id ≢ slot = ground (arith, differs) in
        rw (differs, get_or-set_ne s.processes (s.process_at process).id slot 0 0 apart) refl
  ])

  -- A process of an ELF file, which its pointer leads to, is ended while another one is current, and its task
  -- stands in the list of tasks behind another one, to which its `prev` points: process_terminate
  -- succeeds, its slot is free, the other slots and the current process are as before, and the list
  -- has the other tasks in their order.
  pub process_terminate_lem :
      (process : ℕ) (file : ElfFile) (slot p t : ℕ) (front back : List ℕ) (s : System W P)
      → (s.process_at process).filetype ≡ process_filetype_elf
      → s.elf_at (s.process_at process).ptr ≡ some file
      → s.current_process ≢ process
      → length s.processes ≡ max_processes
      → (s.process_at process).id < max_processes
      → (s.process_at process).task ≡ t
      → IsChain s.tasks (front ++ (p ∷ t ∷ back))
      → (s.tasks.task_at t).prev ≡ p
      → (s' : System W P) × (process_terminate memory process s ≡ some (done, s'))
        × (process_get slot s'.processes
            ≡ (if slot == (s.process_at process).id then 0 else process_get slot s.processes))
        × (s'.current_process ≡ s.current_process)
        × IsChain s'.tasks (front ++ (p ∷ back))
  unfolding end_allocations task_free process_get
  process_terminate_lem process file slot p t front back s elf held other size lt task chain prev =
      let s1 = without_program process file (end_allocations memory process s) in
      let (_, _, id, same) = ended process s in
      (
        record (without_task process s1) {
          processes = set s.processes (s1.process_at process).id 0;
        },
        terminate_end process file s elf held ∙ unlink_lem process s1 other,
        slots process s slot id size lt,
        refl,
        subst (λ u. IsChain (task_list_remove u s.tasks) (front ++ (p ∷ back))) (sym (same ∙ task))
            (task_list_remove_lem p t front back chain prev),
      )
