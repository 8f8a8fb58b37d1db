-- ===== src/Idt/Clock.antt =====
-- What one interrupt of the clock does: it saves the registers of the task that runs and goes on with
-- the next.
use bimble_os.Common.{
  ℕ, ◌<◌, ◌≡◌, refl, sym, ap, ◌∙◌, false, Bool-cases, inl, inr, Option, none, some, List, [], ◌∷◌,
  arith, get_or, ◌==◌, if◌then◌else◌,
}
use bimble_os.Idt.{Flow, resume}
use bimble_os.Idt.Handlers.{Handler, whole, interrupt_handler, idt_clock, go_on}
use bimble_os.Task.{
  InterruptFrame, Registers, Task, Tasks, task_get_next, task_next, task_switch,
  task_current_save_state,
}
use bimble_os.Task.Round.{Walk}
use bimble_os.Task.Space.{Space, next_task}

-- The registers that a frame holds.
abbrev pub frame_registers : InterruptFrame → Registers
frame_registers frame = record {
  edi = frame.edi;
  esi = frame.esi;
  ebp = frame.ebp;
  ebx = frame.ebx;
  edx = frame.edx;
  ecx = frame.ecx;
  eax = frame.eax;
  ip = frame.ip;
  cs = frame.cs;
  flags = frame.flags;
  esp = frame.esp;
  ss = frame.ss;
}

abbrev pub registers_of : Space → ℕ → Registers
registers_of s a = (s.tasks.task_at a).registers

-- The task behind a task, by the links and the head of the list.
abbrev pub behind : (ℕ → Task) → ℕ → ℕ → ℕ
behind at head t = if (at t).next == 0 then head else (at t).next

-- The tasks that follow one another behind `c`.
abbrev pub Route : (ℕ → ℕ) → ℕ → List ℕ → Type 0
Route follow c [] = Unit
Route follow c (t ∷ ts) = ((follow c ≡ t) × (0 < t)) × Route follow t ts

task_next-inv :
    (s : Tasks) (t : ℕ)
    → task_next s ≡ some (t, record s { current_task = t })
    → (task_get_next s ≡ t) × (0 < t)
unfolding task_next task_switch
task_next-inv s t h = ground (arith, h)

pub Walk-Route :
    (s : Tasks) (ts : List ℕ) → Walk s ts → Route (behind s.task_at s.task_head) s.current_task ts
unfolding task_get_next
Walk-Route s [] v = tt
Walk-Route s (t ∷ ts) v = (task_next-inv s t v.0, Walk-Route (record s { current_task = t }) ts v.1)

-- The list of tasks is the same.
pub record Like (follow : ℕ → ℕ) (s : Space) : Type 0 where
  pub same : (a : ℕ) → behind s.tasks.task_at s.tasks.task_head a ≡ follow a

-- The tasks once the one that runs is saved.
abbrev saved_at : InterruptFrame → Space → ℕ → Task
saved_at frame s a =
    if a == s.tasks.current_task
    then record (s.tasks.task_at (s.tasks.current_task)) { registers = frame_registers frame }
    else s.tasks.task_at a

saved_at-next :
    (frame : InterruptFrame) (s : Space) (a : ℕ)
    → (saved_at frame s a).next ≡ (s.tasks.task_at a).next
saved_at-next frame s a = elim (Bool-cases (a == s.tasks.current_task)) [
  | inl same ↦
      let e : a ≡ s.tasks.current_task = ground (arith, same) in
      rw same (ap (λ b. (s.tasks.task_at b).next) (sym e))
  | inr other ↦ rw other refl
]

saved_at-registers :
    (frame : InterruptFrame) (s : Space) (a : ℕ)
    → (saved_at frame s a).registers
      ≡ (if a == s.tasks.current_task then frame_registers frame else registers_of s a)
saved_at-registers frame s a = elim (Bool-cases (a == s.tasks.current_task)) [
  | inl same ↦ rw same refl
  | inr other ↦ rw other refl
]

-- The state in which the task `t` goes on.
abbrev switched : InterruptFrame → Space → ℕ → Space
switched frame s t = record s {
  tasks = record (s.tasks) { task_at = saved_at frame s; current_task = t };
  current_directory = (saved_at frame s t).page_directory.directory_entry;
}

next_task_lem :
    (s : Space) (t : ℕ)
    → behind s.tasks.task_at s.tasks.task_head s.tasks.current_task ≡ t
    → 0 < t
    → next_task s
      ≡ some (
        registers_of s t,
        record s {
          tasks = record (s.tasks) { current_task = t };
          current_directory = (s.tasks.task_at t).page_directory.directory_entry;
        },
      )
unfolding next_task task_next task_get_next
next_task_lem s t e pos =
    let there : (t == 0) ≡ false = ground (arith, pos) in
    rw (next_task, task_next, task_get_next, e, there) refl

module _ (callbacks : List (Option (Handler Space))) where
  abbrev pub tick : InterruptFrame → Space → Flow × Space
  tick frame s = interrupt_handler whole callbacks 0x20 frame s

  -- What one interrupt of the clock does.
  pub record Ticked (follow : ℕ → ℕ) (frame : InterruptFrame) (s : Space) (t : ℕ)
      (out : Flow × Space) : Type 0 where
    pub like : Like follow (out.1)
    pub current : out.1.tasks.current_task ≡ t
    pub goes_on : out.0 ≡ resume (registers_of (out.1) t)
    pub saved :
        (a : ℕ)
        → registers_of (out.1) a
          ≡ (if a == s.tasks.current_task then frame_registers frame else registers_of s a)

  module _ (clock : get_or callbacks 0x20 none ≡ some (idt_clock whole)) where
    tick-switched :
        (frame : InterruptFrame) (s : Space) (t : ℕ)
        → 0 < s.tasks.current_task
        → behind s.tasks.task_at s.tasks.task_head s.tasks.current_task ≡ t
        → 0 < t
        → tick frame s ≡ (resume ((saved_at frame s t).registers), switched frame s t)
    unfolding interrupt_handler idt_clock go_on next_task task_current_save_state task_next
    tick-switched frame s t runs e pos =
        let going : (s.tasks.current_task == 0) ≡ false = ground (arith, runs) in
        let link : behind (saved_at frame s) s.tasks.task_head s.tasks.current_task ≡ t =
          ap (λ n. if n == 0 then s.tasks.task_head else n)
            (saved_at-next frame s (s.tasks.current_task))
          ∙ e in
        rw
          (
            interrupt_handler,
            clock,
            going,
            go_on,
            next_task_lem
                (record s {
                  tasks = record (s.tasks) { task_at = saved_at frame s };
                  current_directory = s.kernel_page_directory.directory_entry;
                })
                t link pos,
          )
          refl

    pub tick-Ticked :
        (follow : ℕ → ℕ) (frame : InterruptFrame) (s : Space) (t : ℕ)
        → Like follow s
        → 0 < s.tasks.current_task
        → follow s.tasks.current_task ≡ t
        → 0 < t
        → Ticked follow frame s t (tick frame s)
    tick-Ticked follow frame s t like runs e pos =
        let next = like.same (s.tasks.current_task) ∙ e in
        rw (tick-switched frame s t runs next pos) (record {
          like = record { same = λ a. rw (saved_at-next frame s a) (like.same a) };
          current = refl;
          goes_on = refl;
          saved = saved_at-registers frame s;
        })
