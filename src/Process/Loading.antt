-- ===== src/Process/Loading.antt =====
-- task/process.c: starting a process from a file. Where the code reads a pointer that it has not set,
-- `uninitialised` is what the pointer holds.
use bimble_os.Common.{ℕ, Option, none, some, List, ◌==◌, if◌then◌else◌, set}
use bimble_os.Common.Status.{Result, Status, done, ok, err, eio, enomem, eistkn, einformat}
use bimble_os.Elf.{e_entry, program_virtual_address}
use bimble_os.Elf.Load.{elf_load, store_bytes, read_mode}
use bimble_os.File.{fopen, fstat, fread, fclose}
use bimble_os.Heap.Kernel.{kzalloc, kfree}
use bimble_os.Memory.{Mem}
use bimble_os.Process.{process_get, process_get_free_slot}
use bimble_os.Process.Mapping.{Image, elf_image, binary_image, process_map_memory, stack_size}
use bimble_os.Process.System.{
  ProcessObject, System, HasKernel, process_init, with_process, with_files, image_of, machine_of,
  kernel_of, put_kernel, space_of, put_space, memory_of, process_filetype_elf,
}
use bimble_os.Str.{strncpy}
use bimble_os.Task.Space.{task_new, task_free}

-- `sizeof(struct Process)`.
abbrev pub process_size : ℕ
process_size = 9364

-- Where the program starts, as `task_init` finds it: at the entry of the ELF header.
abbrev pub program_entry : Image → Mem → ℕ
program_entry (elf_image file) m = e_entry m file.elf_memory
program_entry (binary_image ptr size) m = program_virtual_address

module _ {W P : Type 0} (memory : HasKernel W) where
  -- The part of `process_load_binary` behind `fstat`. The result has the pointer to the program.
  unfoldable pub read_program : ℕ → ℕ → System W P → (Result (ℕ × ℕ) × ℕ) × System W P
  read_program fd filesize s =
      let (ptr, k) = kzalloc filesize (kernel_of memory s) in
      let s1 = put_kernel memory k s in
      let (read, files) = fread filesize 1 fd s1.files in
      let s2 = with_files files s1 in
      let k2 = kernel_of memory s2 in
      let stored = put_kernel memory (record k2 { mem = store_bytes ptr (read.1) (k2.mem) }) s2 in
      let failed : (Result (ℕ × ℕ) × ℕ) × System W P = ((err eio, ptr), stored) in
      let loaded : (Result (ℕ × ℕ) × ℕ) × System W P = elim (read.0) [
        | err e ↦ failed
        | ok n ↦ if n == 1 then ((ok (ptr, filesize), ptr), stored) else failed
      ] in
      if ptr == 0 then ((err enomem, 0), s1) else loaded

  -- The label `out`.
  unfoldable pub close_program : ℕ → ℕ → (Result (ℕ × ℕ) × ℕ) × System W P → Status × System W P
  close_program process fd ((res, program_data_ptr), s) = elim res [
    | err e ↦
        let freed =
          if program_data_ptr == 0
          then s
          else put_kernel memory (kfree program_data_ptr (kernel_of memory s)) s in
        (err e, with_files (fclose fd freed.files).1 freed)
    | ok (ptr, size) ↦
        let p : ProcessObject = record (s.process_at process) { ptr = ptr; size = size } in
        let s' = with_process process p s in (done, with_files (fclose fd s'.files).1 s')
  ]

  -- The filetype stays as it is.
  unfoldable pub process_load_binary : ℕ → List ℕ → ℕ → System W P → Option (Status × System W P)
  unfolding read_program close_program
  process_load_binary uninitialised filename process s =
      let (fd, files) = fopen filename read_mode s.files in
      let opened = with_files files s in
      let (stat, files') = fstat fd files in
      let s' = with_files files' opened in
      let loaded : Option (Status × System W P) = elim (stat.0) [
        | err e ↦ some (close_program process fd ((err e, uninitialised), s'))
        | ok _ ↦ elim (stat.1) [
          | none ↦ none
          | some st ↦ some (close_program process fd (read_program fd st.filesize s'))
        ]
      ] in
      if fd == 0 then some (close_program process 0 ((err eio, uninitialised), opened)) else loaded

  unfoldable pub process_load_elf : List ℕ → ℕ → System W P → Option (Status × System W P)
  process_load_elf filename process s = elim (elf_load (machine_of memory) filename s.files) [
    | none ↦ none
    | some (res, files) ↦
        let s' = with_files files s in
        elim res [
          | err e ↦ some (err e, s')
          | ok (elf_file, file) ↦
              let p : ProcessObject = record (s'.process_at process) {
                filetype = process_filetype_elf;
                ptr = elf_file;
              } in
              let held : System W P = record s' {
                elf_at = λ a. if a == elf_file then some file else s'.elf_at a;
              } in
              some (done, with_process process p held)
        ]
  ]

  unfoldable pub process_load_data : ℕ → List ℕ → ℕ → System W P → Option (Status × System W P)
  unfolding process_load_elf process_load_binary
  process_load_data uninitialised filename process s = elim (process_load_elf filename process s) [
    | none ↦ none
    | some (res, s') ↦ elim res [
      | ok _ ↦ some (done, s')
      | err e ↦ elim e [
        | einformat ↦ process_load_binary uninitialised filename process s'
        | other ↦ some (err other, s')
      ]
    ]
  ]

  -- The part of `process_load_for_slot` from `task_new` on. A pointer that is not NULL is taken for a
  -- task; where mapping fails the task is freed.
  unfoldable pub start_process : ℕ → ℕ → System W P → Option (Result ℕ × System W P)
  start_process process slot s = elim (image_of (s.process_at process) s) [
    | none ↦ none
    | some image ↦ elim (task_new process (program_entry image) (space_of memory s)) [
      | none ↦ none
      | some (task, x) ↦
          let s1 = put_space memory x s in
          let p : ProcessObject = record (s1.process_at process) { task = task } in
          let s2 = with_process process p s1 in
          let k = kernel_of memory s2 in
          let (res, mem) =
            process_map_memory (memory_of memory p s2).page_directory image (p.stack) (k.mem) in
          let mapped = put_kernel memory (record k { mem = mem }) s2 in
          elim res [
            | err e ↦
                some (err e, put_space memory (task_free task (space_of memory mapped)) mapped)
            | ok _ ↦
                some (ok process, record mapped { processes = set mapped.processes slot process })
          ]
    ]
  ]

  -- The result is the process, or the status. The slot is free.
  unfoldable pub process_load_for_slot :
      ℕ → List ℕ → ℕ → System W P → Option (Result ℕ × System W P)
  unfolding process_load_data start_process
  process_load_for_slot uninitialised filename slot s =
      let (process, k) = kzalloc process_size (kernel_of memory s) in
      let cleared = with_process process process_init (put_kernel memory k s) in
      let stacked : System W P → Option (Result ℕ × System W P) = λ s1.
        let (stack, k1) = kzalloc stack_size (kernel_of memory s1) in
        let s2 = put_kernel memory k1 s1 in
        let p : ProcessObject = record (s2.process_at process) {
          filename = strncpy ((s2.process_at process).filename) filename 108;
          stack = stack;
          id = slot;
        } in
        let started = start_process process slot (with_process process p s2) in
        if stack == 0 then some (err enomem, s2) else started in
      let loaded : Option (Result ℕ × System W P) =
        elim (process_load_data uninitialised filename process cleared) [
          | none ↦ none
          | some (res, s1) ↦ elim res [ err e ↦ some (err e, s1) | ok _ ↦ stacked s1 ]
        ] in
      let fresh : Option (Result ℕ × System W P) =
        if process == 0 then some (err enomem, put_kernel memory k s) else loaded in
      if process_get slot s.processes == 0
      then fresh
      else if uninitialised == 0
      then some (err eistkn, s)
      else none

  unfoldable pub process_load : ℕ → List ℕ → System W P → Option (Result ℕ × System W P)
  unfolding process_load_for_slot process_get_free_slot
  process_load uninitialised filename s = elim (process_get_free_slot s.processes) [
    | err e ↦ some (err eistkn, s)
    | ok slot ↦ process_load_for_slot uninitialised filename slot s
  ]

  unfoldable pub process_load_switch : ℕ → List ℕ → System W P → Option (Result ℕ × System W P)
  unfolding process_load
  process_load_switch uninitialised filename s = elim (process_load uninitialised filename s) [
    | none ↦ none
    | some (res, s') ↦ elim res [
      | err e ↦ some (err e, s')
      | ok process ↦ some (ok process, record s' { current_process = process })
    ]
  ]
