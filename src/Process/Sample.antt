-- ===== src/Process/Sample.antt =====
-- A system without files, for tests: the state of its disks is the kernel's.
use bimble_os.Common.{ℕ, refl, false, none, some, [], replicate, ◌==◌, if◌then◌else◌}
use bimble_os.Elf.Load.{empty_file}
use bimble_os.Heap.Allocator.{kernel_allocator}
use bimble_os.Heap.Kernel.{Kernel}
use bimble_os.Process.System.{System, HasKernel, process_init}
use bimble_os.Task.Space.{no_registers}

abbrev pub own_kernel : HasKernel Kernel
own_kernel = record { kernel = λ k. k; with_kernel = λ k w. k; kernel-with_kernel = λ k w. refl }

-- The process 7 is in slot 2, and every pointer to an ELF file is to an empty one. The task 0x1000 runs, with a page
-- directory.
abbrev pub system_with : Kernel → ℕ → System Kernel ℕ
system_with kernel directory = record {
  files = record {
    heap = kernel_allocator;
    filesystems = [];
    file_descriptors = [];
    disk_filesystem = none;
    world = kernel;
  };
  tasks = record {
    task_at = λ a. record {
      process = 7;
      page_directory = record { chunk = 0; directory_entry = directory };
      registers = no_registers;
      next = 0;
      prev = 0;
    };
    current_task = 0x1000;
    task_tail = 0x1000;
    task_head = 0x1000;
  };
  current_directory = 0;
  kernel_page_directory = record { chunk = 0; directory_entry = 0 };
  elf_at = λ a. some empty_file;
  process_at = λ a. if a == 7 then record process_init { id = 2; task = 0x1000 } else process_init;
  processes = replicate 12 5;
  current_process = 5;
  terminal = record { terminal_row = 0; terminal_column = 0; video_mem = λ i. 0 };
  capslock = false;
}
