-- ===== src/Process/System.antt =====
-- The kernel's state as the processes see it: the files and the heap, the tasks, the objects of
-- task/process.c and the screen.
use bimble_os.Common.{ℕ, Bool, ◌≡◌, refl, Option, none, some, List, ◌==◌, if◌then◌else◌, replicate}
use bimble_os.Elf.{ElfFile}
use bimble_os.Elf.Load.{Machine, store_bytes}
use bimble_os.File.{Files}
use bimble_os.Heap.Kernel.{Kernel, kzalloc, kfree}
use bimble_os.Idt.Handlers.{HasSpace}
use bimble_os.Keyboard.{KeyboardBuffer, keyboard_buffer_size}
use bimble_os.Paging.Create.{PageDirectory}
use bimble_os.Process.{Process, ProcessAllocation}
use bimble_os.Process.Arguments.{ProcessArguments}
use bimble_os.Process.Mapping.{Image, elf_image, binary_image}
use bimble_os.Task.{Tasks}
use bimble_os.Task.Space.{Space}
use bimble_os.Terminal.{Terminal}

abbrev pub max_program_allocations : ℕ
max_program_allocations = 1024

abbrev pub process_filetype_elf : ℕ
process_filetype_elf = 0

abbrev pub process_filetype_binary : ℕ
process_filetype_binary = 1

-- `struct Process`. `ptr` is the union of `ptr` and `elf_file`.
pub record ProcessObject : Type 0 where
  pub id : ℕ
  pub filename : List ℕ
  pub task : ℕ
  pub allocations : List ProcessAllocation
  pub filetype : ℕ
  pub ptr : ℕ
  pub stack : ℕ
  pub size : ℕ
  pub keyboard : KeyboardBuffer
  pub arguments : ProcessArguments

-- The kernel's heap and memory as a part of the state of the disks.
pub record HasKernel (W : Type 0) : Type 0 where
  pub kernel : W → Kernel
  pub with_kernel : Kernel → W → W
  pub kernel-with_kernel : (k : Kernel) (w : W) → kernel (with_kernel k w) ≡ k

-- `elf_at` and `process_at` are the objects behind a pointer to one, and `capslock` is the state in
-- `classic_keyboard`.
pub record System (W P : Type 0) : Type 0 where
  pub files : Files W P
  pub tasks : Tasks
  pub current_directory : ℕ
  pub kernel_page_directory : PageDirectory
  pub elf_at : ℕ → Option ElfFile
  pub process_at : ℕ → ProcessObject
  pub processes : List ℕ
  pub current_process : ℕ
  pub terminal : Terminal
  pub capslock : Bool

-- `process_init`: what `memset` leaves.
unfoldable pub process_init : ProcessObject
process_init = record {
  id = 0;
  filename = replicate 108 0;
  task = 0;
  allocations = replicate max_program_allocations (record { ptr = 0; size = 0 });
  filetype = 0;
  ptr = 0;
  stack = 0;
  size = 0;
  keyboard = record { buffer = replicate keyboard_buffer_size 0; tail = 0; head = 0 };
  arguments = record { argc = 0; argv = 0 };
}

module _ {W P : Type 0} where
  abbrev pub with_process : ℕ → ProcessObject → System W P → System W P
  with_process process p s = record s {
    process_at = λ a. if a == process then p else s.process_at a;
  }

  abbrev pub with_files : Files W P → System W P → System W P
  with_files files s = record s { files = files }

  -- The program of a process, by its filetype. `none` is the panic, and a pointer to no ELF file.
  unfoldable pub image_of : ProcessObject → System W P → Option Image
  image_of p s =
      let elf : Option Image = elim (s.elf_at (p.ptr)) [
        | none ↦ none
        | some file ↦ some (elf_image file)
      ] in
      if p.filetype == process_filetype_elf
      then elf
      else if p.filetype == process_filetype_binary
      then some (binary_image (p.ptr) (p.size))
      else none

module _ {W : Type 0} (memory : HasKernel W) where
  open memory use {kernel, with_kernel}

  abbrev pub machine_of : Machine W
  machine_of = record {
    allocate = λ size w. let (ptr, k) = kzalloc size (kernel w) in (ptr, with_kernel k w);
    release = λ ptr w. with_kernel (kfree ptr (kernel w)) w;
    store = λ ptr bytes w.
        with_kernel (record (kernel w) { mem = store_bytes ptr bytes ((kernel w).mem) }) w;
    memory = λ w. (kernel w).mem;
  }

module _ {W P : Type 0} (memory : HasKernel W) where
  open memory use {kernel, with_kernel}

  abbrev pub kernel_of : System W P → Kernel
  kernel_of s = kernel (s.files.world)

  abbrev pub put_kernel : Kernel → System W P → System W P
  put_kernel k s = record s { files = record (s.files) { world = with_kernel k (s.files.world) } }

  abbrev pub space_of : System W P → Space
  space_of s = record {
    kernel = kernel_of s;
    tasks = s.tasks;
    current_directory = s.current_directory;
    kernel_page_directory = s.kernel_page_directory;
  }

  abbrev pub put_space : Space → System W P → System W P
  put_space x s = record (put_kernel (x.kernel) s) {
    tasks = x.tasks;
    current_directory = x.current_directory;
    kernel_page_directory = x.kernel_page_directory;
  }

  pub space-put_space : (x : Space) (s : System W P) → space_of (put_space x s) ≡ x
  space-put_space x s = rw (memory.kernel-with_kernel (x.kernel) (s.files.world)) refl

  abbrev pub system_space : HasSpace (System W P)
  system_space = record {
    space = space_of;
    with_space = put_space;
    space-with_space = space-put_space;
  }

  -- The directory of the process's task, and the allocations.
  abbrev pub memory_of : ProcessObject → System W P → Process
  memory_of p s = record {
    page_directory = (s.tasks.task_at (p.task)).page_directory.directory_entry;
    allocations = p.allocations;
  }
