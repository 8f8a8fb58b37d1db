-- ===== src/Idt/Preemption.antt =====
-- A round of the clock's interrupts: each task goes on with the registers that it was interrupted with.
use bimble_os.Common.{
  ℕ, suc, ◌<◌, ◌≡◌, ◌≢◌, refl, sym, ap, ◌∙◌, true, false, Option, none, some, List, [], ◌∷◌, ◌++◌,
  arith, length, length-append, get_or, ◌==◌,
}
use mathlib.Core.Path.{subst}
use mathlib.Core.List.{append_assoc}
use bimble_os.Idt.{Flow, back, resume, halt}
use bimble_os.Idt.Clock.{
  frame_registers, registers_of, behind, Route, Walk-Route, Like, tick, tick-Ticked,
}
use bimble_os.Idt.Handlers.{Handler, whole, idt_clock}
use bimble_os.Task.{InterruptFrame, Registers}
use bimble_os.Task.Chain.{Absent, Distinct, IsChain}
use bimble_os.Task.Round.{Linked-after, Walk-round}
use bimble_os.Task.Space.{Space}

module _ (callbacks : List (Option (Handler Space))) where
  -- The interrupts of the clock with these frames, each in the task that goes on after the one before.
  unfoldable pub ticks : List InterruptFrame → Flow × Space → Flow × Space
  ticks [] r = r
  ticks (frame ∷ frames) (back x, s) = (back x, s)
  ticks (frame ∷ frames) (halt, s) = (halt, s)
  ticks (frame ∷ frames) (resume registers, s) = ticks frames (tick callbacks frame s)

  module _ (clock : get_or callbacks 0x20 none ≡ some (idt_clock whole)) where
    -- On the way to the task `a`, its registers stay.
    ticks-keep :
        (follow : ℕ → ℕ) (a c : ℕ) (ts : List ℕ) (frames : List InterruptFrame) (s : Space)
        (registers : Registers)
        → Like follow s
        → s.tasks.current_task ≡ c
        → 0 < c
        → a ≢ c
        → Absent a ts
        → Route follow c (ts ++ (a ∷ []))
        → length frames ≡ suc (length ts)
        → ((ticks frames (resume registers, s)).0 ≡ resume (registers_of s a))
          × ((ticks frames (resume registers, s)).1.tasks.current_task ≡ a)
    unfolding ticks
    ticks-keep follow a c ts [] s registers like e pos ne absent route size = absurd (omega arith)
    ticks-keep follow a c [] (frame ∷ (g ∷ frames)) s registers like e pos ne absent route size =
        absurd (omega arith)
    ticks-keep follow a c [] (frame ∷ []) s registers like e pos ne absent route size =
        let step =
          tick-Ticked callbacks clock follow frame s a like (rw e pos) (ap follow e ∙ route.0.0)
            route.0.1 in
        let other : (a == s.tasks.current_task) ≡ false = rw e (ground (arith, ne)) in
        let kept : registers_of (tick callbacks frame s).1 a ≡ registers_of s a =
          step.saved a ∙ rw other refl in
        (step.goes_on ∙ ap resume kept, step.current)
    ticks-keep follow a c (t ∷ ts) (frame ∷ frames) s registers like e pos ne absent route size =
        let step =
          tick-Ticked callbacks clock follow frame s t like (rw e pos) (ap follow e ∙ route.0.0)
            route.0.1 in
        let other : (a == s.tasks.current_task) ≡ false = rw e (ground (arith, ne)) in
        let kept : registers_of (tick callbacks frame s).1 a ≡ registers_of s a =
          step.saved a ∙ rw other refl in
        let rest =
          ticks-keep follow a t ts frames (tick callbacks frame s).1
            (registers_of (tick callbacks frame s).1 t) step.like step.current route.0.1 absent.0
            absent.1 route.1 (omega (arith, size)) in
        let on = ap (λ f. ticks frames (f, (tick callbacks frame s).1)) step.goes_on in
        (ap (λ o. o.0) on ∙ rest.0 ∙ ap resume kept, ap (λ o. o.1.tasks.current_task) on ∙ rest.1)

    -- The same from the interrupt of the task `c` itself, whose frame is then what its registers hold.
    ticks-return :
        (follow : ℕ → ℕ) (c : ℕ) (ts : List ℕ) (frame : InterruptFrame)
        (frames : List InterruptFrame) (s : Space)
        → Like follow s
        → s.tasks.current_task ≡ c
        → 0 < c
        → Absent c ts
        → Route follow c (ts ++ (c ∷ []))
        → length frames ≡ length ts
        → ((ticks frames (tick callbacks frame s)).0 ≡ resume (frame_registers frame))
          × ((ticks frames (tick callbacks frame s)).1.tasks.current_task ≡ c)
    unfolding ticks
    ticks-return follow c [] frame (g ∷ frames) s like e pos absent route size =
        absurd (omega arith)
    ticks-return follow c [] frame [] s like e pos absent route size =
        let step =
          tick-Ticked callbacks clock follow frame s c like (rw e pos) (ap follow e ∙ route.0.0)
            route.0.1 in
        let here : (c == s.tasks.current_task) ≡ true = rw e (ground arith) in
        (step.goes_on ∙ ap resume (step.saved c ∙ rw here refl), step.current)
    ticks-return follow c (t ∷ ts) frame frames s like e pos absent route size =
        let step =
          tick-Ticked callbacks clock follow frame s t like (rw e pos) (ap follow e ∙ route.0.0)
            route.0.1 in
        let here : (c == s.tasks.current_task) ≡ true = rw e (ground arith) in
        let rest =
          ticks-keep follow c t ts frames (tick callbacks frame s).1
            (registers_of (tick callbacks frame s).1 t) step.like step.current route.0.1 absent.0
            absent.1 route.1 size in
        let on = ap (λ f. ticks frames (f, (tick callbacks frame s).1)) step.goes_on in
        (
          ap (λ o. o.0) on ∙ rest.0 ∙ ap resume (step.saved c ∙ rw here refl),
          ap (λ o. o.1.tasks.current_task) on ∙ rest.1,
        )

Absent-append : (a : ℕ) (xs ys : List ℕ) → Absent a xs → Absent a ys → Absent a (xs ++ ys)
Absent-append a [] ys v w = w
Absent-append a (x ∷ xs) ys v w = (v.0, Absent-append a xs ys v.1 w)

Absent-mid : (a c : ℕ) (pre post : List ℕ) → Absent a (pre ++ (c ∷ post)) → a ≢ c
Absent-mid a c [] post v = v.0
Absent-mid a c (p ∷ pre) post v = Absent-mid a c pre post v.1

-- A task of a list without repetitions is none of the others.
Distinct-others :
    (c : ℕ) (pre post : List ℕ) → Distinct (pre ++ (c ∷ post)) → Absent c pre × Absent c post
Distinct-others c [] post v = (tt, v.0)
Distinct-others c (p ∷ pre) post v =
    let rest = Distinct-others c pre post v.1 in
    (((λ e. Absent-mid p c pre post v.0 (sym e)), rest.0), rest.1)

-- Where the handler of interrupt 0x20 is `idt_clock`, each task of the list is interrupted once, with
-- any frames: the last interrupt goes on with the task that ran at first, and its registers are those
-- of its own frame, the first one.
pub ticks_lem :
    (callbacks : List (Option (Handler Space))) (s : Space) (pre post : List ℕ)
    (frame : InterruptFrame) (frames : List InterruptFrame)
    → get_or callbacks 0x20 none ≡ some (idt_clock whole)
    → IsChain s.tasks (pre ++ (s.tasks.current_task ∷ post))
    → length (frame ∷ frames) ≡ length (pre ++ (s.tasks.current_task ∷ post))
    → ((ticks callbacks frames (tick callbacks frame s)).0 ≡ resume (frame_registers frame))
      × ((ticks callbacks frames (tick callbacks frame s)).1.tasks.current_task
          ≡ s.tasks.current_task)
ticks_lem callbacks s pre post frame frames clock v size =
    let c = s.tasks.current_task in
    let pos = (Linked-after s.tasks.task_at pre (c ∷ post) v.links).0.0 in
    let others = Distinct-others c pre post v.distinct in
    ticks-return callbacks clock (behind s.tasks.task_at s.tasks.task_head) c (post ++ pre) frame
      frames s (record { same = λ a. refl }) refl pos (Absent-append c post pre others.1 others.0)
      (subst (λ l. Route (behind s.tasks.task_at s.tasks.task_head) c l)
        (sym (append_assoc post pre (c ∷ [])))
        (Walk-Route s.tasks (post ++ (pre ++ (c ∷ []))) (Walk-round pre post v)))
      (omega (arith, size, length-append post pre, length-append pre (c ∷ post)))
