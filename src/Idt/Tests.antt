-- ===== src/Idt/Tests.antt =====
-- Runs of idt.c's functions, and the theorems about them at concrete tables.
use bimble_os.Common.{[], ◌∷◌, Option, List, set}
use bimble_os.Heap.Sample.{roomy}
use bimble_os.Idt.{resume}
use bimble_os.Idt.Clock.{tick, frame_registers}
use bimble_os.Idt.Handlers.{Handler, whole, idt_clock}
use bimble_os.Idt.Preemption.{ticks, ticks_lem}
use bimble_os.Task.{InterruptFrame, Task}
use bimble_os.Task.Space.{no_registers, Space}
use bimble_os.Common.{
  ℕ, ◌+◌, ◌*◌, ◌≡◌, refl, none, some, arith, replicate, ◌==◌, if◌then◌else◌, get_or,
}
use bimble_os.Idt.{init_callbacks, register_exceptions, idt_register_interrupt_callback}

abbrev pointers : ℕ → ℕ
pointers i = 0x10_0000 + 16 * i

-- The handler of exceptions is 1, and the clock's is 2.
clock_registered : get_or (init_callbacks {A = ℕ} 1 2 (replicate 256 none)) 0x20 none ≡ some 2
unfolding init_callbacks register_exceptions idt_register_interrupt_callback
clock_registered = refl

exception_registered : get_or (init_callbacks {A = ℕ} 1 2 (replicate 256 none)) 0x1f none ≡ some 1
unfolding init_callbacks register_exceptions idt_register_interrupt_callback
exception_registered = refl

-- The frame of a task that is interrupted at an address.
abbrev frame_at : ℕ → InterruptFrame
frame_at ip = record {
  edi = 1;
  esi = 2;
  ebp = 3;
  reserved = 0;
  ebx = 4;
  edx = 5;
  ecx = 6;
  eax = 7;
  ip = ip;
  cs = 0x1b;
  flags = 0x202;
  esp = 0x3f_eff0;
  ss = 0x23;
}

abbrev unlinked : Task
unlinked = record {
  process = 0;
  page_directory = record { chunk = 0; directory_entry = 0 };
  registers = no_registers;
  next = 0;
  prev = 0;
}

-- The tasks 0x1000 and 0x2000, of which the first one runs.
abbrev two_in_space : Space
two_in_space = record {
  kernel = roomy;
  tasks = record {
    task_at = λ a.
        if a == 0x1000
        then record unlinked { next = 0x2000 }
        else if a == 0x2000
        then record unlinked { prev = 0x1000 }
        else unlinked;
    current_task = 0x1000;
    task_tail = 0x2000;
    task_head = 0x1000;
  };
  current_directory = 0;
  kernel_page_directory = record { chunk = 0; directory_entry = 0 };
}

abbrev clock_callbacks : List (Option (Handler Space))
clock_callbacks = set (replicate 256 none) 0x20 (some (idt_clock whole))

ticks_example :
    ((ticks clock_callbacks
        (frame_at 0x40_2000 ∷ [])
        (tick clock_callbacks (frame_at 0x40_1000) two_in_space)).0
      ≡ resume (frame_registers (frame_at 0x40_1000)))
    × ((ticks clock_callbacks
          (frame_at 0x40_2000 ∷ [])
          (tick clock_callbacks (frame_at 0x40_1000) two_in_space)).1.tasks.current_task
        ≡ 0x1000)
ticks_example =
    ticks_lem clock_callbacks two_in_space [] (0x2000 ∷ []) (frame_at 0x40_1000)
      (frame_at 0x40_2000 ∷ []) refl
      (record {
        links = ((omega arith, refl), ((omega arith, refl), tt));
        distinct = (((λ e. omega arith), tt), (tt, tt));
        head = refl;
        tail = refl;
      })
      (omega arith)
