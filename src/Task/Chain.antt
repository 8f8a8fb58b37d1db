-- ===== src/Task/Chain.antt =====
-- The list of tasks as a list of addresses.
use bimble_os.Common.{
  ℕ, ◌<◌, ◌≡◌, ◌≢◌, refl, sym, ◌∙◌, true, false, Bool-cases, inl, inr, List, [], ◌∷◌, ◌++◌, arith,
  ◌==◌,
}
use mathlib.Core.Path.{subst}
use bimble_os.Task.{Task, Tasks, with_task, task_append}

abbrev pub first : List ℕ → ℕ
first [] = 0
first (t ∷ ts) = t

abbrev pub last : List ℕ → ℕ
last [] = 0
last (t ∷ []) = t
last (t ∷ u ∷ ts) = last (u ∷ ts)

-- Each task's `next` is the one behind it, and 0 is the last one's.
abbrev pub Linked : (ℕ → Task) → List ℕ → Type 0
Linked at [] = Unit
Linked at (t ∷ ts) = ((0 < t) × ((at t).next ≡ first ts)) × Linked at ts

-- The address is not in the list.
abbrev pub Absent : ℕ → List ℕ → Type 0
Absent a [] = Unit
Absent a (t ∷ ts) = (a ≢ t) × Absent a ts

-- No address is in the list twice.
abbrev pub Distinct : List ℕ → Type 0
Distinct [] = Unit
Distinct (t ∷ ts) = Absent t ts × Distinct ts

pub record IsChain (s : Tasks) (ts : List ℕ) : Type 0 where
  pub links : Linked s.task_at ts
  pub distinct : Distinct ts
  pub head : s.task_head ≡ first ts
  pub tail : s.task_tail ≡ last ts

-- Only the `next` of the tasks counts.
Linked-next :
    (at at' : ℕ → Task) (ts : List ℕ)
    → ((a : ℕ) → (at' a).next ≡ (at a).next)
    → Linked at ts
    → Linked at' ts
Linked-next at at' [] same v = tt
Linked-next at at' (t ∷ ts) same v = ((v.0.0, same t ∙ v.0.1), Linked-next at at' ts same v.1)

pub Absent-last : (a t : ℕ) (ts : List ℕ) → Absent a (t ∷ ts) → a ≢ last (t ∷ ts)
Absent-last a t [] absent = absent.0
Absent-last a t (u ∷ ts) absent = Absent-last a u ts absent.1

-- Linking the last task to a new one, whose own `next` is 0.
pub Linked-snoc :
    (s : Tasks) (new : ℕ) (ts : List ℕ)
    → Linked s.task_at ts
    → Distinct ts
    → 0 < new
    → Absent new ts
    → (s.task_at new).next ≡ 0
    → 0 < first ts
    → Linked
        (with_task s (last ts) (record (s.task_at (last ts)) { next = new })).task_at
        (ts ++ (new ∷ []))
Linked-snoc s new [] v d pos absent e some_task = absurd (omega arith)
Linked-snoc s new (t ∷ []) v d pos absent e some_task =
    let ne : (new == t) ≡ false = ground (arith, absent.0) in
    let same : (t == t) ≡ true = ground arith in
    ((v.0.0, rw same refl), ((pos, rw (ne, e) refl), tt))
Linked-snoc s new (t ∷ u ∷ ts) v d pos absent e some_task =
    let away : (t == last (u ∷ ts)) ≡ false = ground (arith, Absent-last t u ts d.0) in
    ((v.0.0, rw away (v.0.1)), Linked-snoc s new (u ∷ ts) v.1 d.1 pos absent.1 e v.1.0.0)

Absent-snoc : (a new : ℕ) (ts : List ℕ) → Absent a ts → a ≢ new → Absent a (ts ++ (new ∷ []))
Absent-snoc a new [] absent ne = (ne, tt)
Absent-snoc a new (t ∷ ts) absent ne = (absent.0, Absent-snoc a new ts absent.1 ne)

Distinct-snoc : (new : ℕ) (ts : List ℕ) → Distinct ts → Absent new ts → Distinct (ts ++ (new ∷ []))
Distinct-snoc new [] d absent = (tt, tt)
Distinct-snoc new (t ∷ ts) d absent =
    (Absent-snoc t new ts d.0 (λ e. absent.0 (sym e)), Distinct-snoc new ts d.1 absent.1)

last_snoc : (new t : ℕ) (ts : List ℕ) → last ((t ∷ ts) ++ (new ∷ [])) ≡ new
last_snoc new t [] = refl
last_snoc new t (u ∷ ts) = last_snoc new u ts

same_next :
    (s : Tasks) (new prev a : ℕ)
    → ((with_task s new (record (s.task_at new) { prev = prev })).task_at a).next
      ≡ (s.task_at a).next
same_next s new prev a = elim (Bool-cases (a == new)) [
  | inl here ↦ let e : a ≡ new = ground arith in rw (here, e) refl
  | inr there ↦ rw there refl
]

-- A new task that is not in the list, and whose `next` is NULL, is put behind the last task of a list that is not
-- empty; the task that is current stays so.
pub task_append_lem :
    {s : Tasks} (new t : ℕ) (ts : List ℕ)
    → IsChain s (t ∷ ts)
    → 0 < new
    → Absent new (t ∷ ts)
    → (s.task_at new).next ≡ 0
    → IsChain (task_append new s) ((t ∷ ts) ++ (new ∷ []))
      × ((task_append new s).current_task ≡ s.current_task)
unfolding task_append
task_append_lem {s = s} new t ts v pos absent e =
    let some_head : (s.task_head == 0) ≡ false = ground (arith, v.head, v.links.0.0) in
    let linked = with_task s s.task_tail (record (s.task_at (s.task_tail)) { next = new }) in
    let links : Linked linked.task_at ((t ∷ ts) ++ (new ∷ [])) =
      subst
        (λ l.
          Linked ((with_task s l (record (s.task_at l) { next = new })).task_at)
            ((t ∷ ts) ++ (new ∷ [])))
        (sym v.tail) (Linked-snoc s new (t ∷ ts) v.links v.distinct pos absent e v.links.0.0) in
    rw some_head (
      record {
        links =
            Linked-next linked.task_at
              ((with_task linked new (record (linked.task_at new) { prev = s.task_tail })).task_at)
              ((t ∷ ts) ++ (new ∷ [])) (same_next linked new (s.task_tail)) links;
        distinct = Distinct-snoc new (t ∷ ts) v.distinct absent;
        head = v.head;
        tail = sym (last_snoc new t ts);
      },
      refl,
    )
