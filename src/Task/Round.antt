-- ===== src/Task/Round.antt =====
-- The order in which the tasks run: one call of `task_next`, and a whole round of them.
use bimble_os.Common.{
  ℕ, zero, suc, ◌<◌, ◌≡◌, refl, sym, ap, ◌∙◌, false, List, [], ◌∷◌, ◌++◌, length, length-append,
  arith, ◌==◌, Option, none, some,
}
use mathlib.Core.Path.{subst}
use mathlib.Core.List.{append_assoc, append-nil}
use bimble_os.Task.{Task, Tasks, task_get_next, task_next, task_switch}
use bimble_os.Task.Chain.{first, Linked, IsChain}

-- The tasks that run on `n` ticks of the timer, and the state after them.
unfoldable pub turns : ℕ → Tasks → Option (List ℕ × Tasks)
turns zero s = some ([], s)
turns (suc n) s = elim (task_next s) [
  | none ↦ none
  | some (t, after) ↦ elim (turns n after) [ none ↦ none | some (ts, last) ↦ some (t ∷ ts, last) ]
]

abbrev end : ℕ → List ℕ → ℕ
end c [] = c
end c (t ∷ ts) = end t ts

-- `task_next` goes through these tasks.
abbrev pub Walk : Tasks → List ℕ → Type 0
Walk s [] = Unit
Walk s (t ∷ ts) =
    (task_next s ≡ some (t, record s { current_task = t }))
    × Walk (record s { current_task = t }) ts

turns-Walk :
    (s : Tasks) (ts : List ℕ)
    → Walk s ts
    → turns (length ts) s ≡ some (ts, record s { current_task = end s.current_task ts })
unfolding turns
turns-Walk s [] v = refl
turns-Walk s (t ∷ ts) v =
    let rest = turns-Walk (record s { current_task = t }) ts v.1 in rw (turns, v.0, rest) refl

Walk-append :
    (s : Tasks) (xs ys : List ℕ)
    → Walk s xs
    → Walk (record s { current_task = end s.current_task xs }) ys
    → Walk s (xs ++ ys)
Walk-append s [] ys v w = w
Walk-append s (x ∷ xs) ys v w = (v.0, Walk-append (record s { current_task = x }) xs ys v.1 w)

pub Linked-after : (at : ℕ → Task) (pre ts : List ℕ) → Linked at (pre ++ ts) → Linked at ts
Linked-after at [] ts v = v
Linked-after at (t ∷ pre) ts v = Linked-after at pre ts v.1

Linked-end : (at : ℕ → Task) (c : ℕ) (ts : List ℕ) → Linked at (c ∷ ts) → (at (end c ts)).next ≡ 0
Linked-end at c [] v = v.0.1
Linked-end at c (t ∷ ts) v = Linked-end at t ts v.1

task_next-behind :
    (s : Tasks) (t : ℕ)
    → (s.task_at s.current_task).next ≡ t
    → 0 < t
    → task_next s ≡ some (t, record s { current_task = t })
unfolding task_next task_get_next task_switch
task_next-behind s t behind pos =
    let go : (t == 0) ≡ false = ground (arith, pos) in rw (behind, go, go) refl

-- Along the list.
Walk-forward :
    (s : Tasks) (ts rest : List ℕ) → Linked s.task_at (s.current_task ∷ (ts ++ rest)) → Walk s ts
Walk-forward s [] rest v = tt
Walk-forward s (t ∷ ts) rest v =
    (task_next-behind s t v.0.1 v.1.0.0, Walk-forward (record s { current_task = t }) ts rest v.1)

-- From the last task to the first.
task_next-end :
    (s : Tasks) (h : ℕ)
    → (s.task_at s.current_task).next ≡ 0
    → s.task_head ≡ h
    → 0 < h
    → task_next s ≡ some (h, record s { current_task = h })
unfolding task_next task_get_next task_switch
task_next-end s h last head pos =
    let go : (h == 0) ≡ false = ground (arith, pos) in rw (last, head, go) refl

end-append : (a c : ℕ) (xs : List ℕ) → end a (xs ++ (c ∷ [])) ≡ c
end-append a c [] = refl
end-append a c (x ∷ xs) = end-append x c xs

-- From the last task over the first to the task `c`.
Walk-back :
    (s : Tasks) (pre : List ℕ) (c : ℕ) (post : List ℕ)
    → Linked s.task_at (pre ++ (c ∷ post))
    → s.task_head ≡ first (pre ++ (c ∷ post))
    → (s.task_at s.current_task).next ≡ 0
    → Walk s (pre ++ (c ∷ []))
Walk-back s [] c post v head last = (task_next-end s c last head v.0.0, tt)
Walk-back s (p ∷ pre) c post v head last = (
  task_next-end s p last head v.0.0,
  Walk-forward (record s { current_task = p }) (pre ++ (c ∷ [])) post
      (subst (λ l. Linked s.task_at (p ∷ l)) (sym (append_assoc pre (c ∷ []) post)) v),
)

pub Walk-round :
    {s : Tasks} (pre post : List ℕ)
    → IsChain s (pre ++ (s.current_task ∷ post))
    → Walk s (post ++ (pre ++ (s.current_task ∷ [])))
Walk-round {s = s} pre post v =
    let here = Linked-after s.task_at pre (s.current_task ∷ post) v.links in
    Walk-append s post (pre ++ (s.current_task ∷ []))
      (Walk-forward s post []
        (subst (λ l. Linked s.task_at (s.current_task ∷ l)) (sym (append-nil post)) here))
      (Walk-back (record s { current_task = end s.current_task post }) pre s.current_task post
        v.links v.head (Linked-end s.task_at s.current_task post here))

length-round :
    (pre post : List ℕ) (c : ℕ) → length (post ++ (pre ++ (c ∷ []))) ≡ length (pre ++ (c ∷ post))
length-round pre post c = omega (
  arith,
  length-append post (pre ++ (c ∷ [])),
  length-append pre (c ∷ []),
  length-append pre (c ∷ post),
)

first_positive :
    (at : ℕ → Task) (pre : List ℕ) (t : ℕ) (post : List ℕ)
    → Linked at (pre ++ (t ∷ post))
    → 0 < first (pre ++ (t ∷ post))
first_positive at [] t post v = v.0.0
first_positive at (u ∷ pre) t post v = v.0.0

-- The tasks run in turn: `task_next` goes from each task to the one behind it in the list, and from the last one to the first.
task_next_lem :
    {s : Tasks} (pre post : List ℕ)
    → IsChain s (pre ++ (s.current_task ∷ post))
    → task_next s
      ≡ some (
        first (post ++ (pre ++ (s.current_task ∷ []))),
        record s { current_task = first (post ++ (pre ++ (s.current_task ∷ []))) },
      )
task_next_lem {s = s} pre [] v =
    let here = Linked-after s.task_at pre (s.current_task ∷ []) v.links in
    let pos = first_positive s.task_at pre s.current_task [] v.links in
    task_next-end s (first (pre ++ (s.current_task ∷ []))) here.0.1 v.head pos
task_next_lem {s = s} pre (u ∷ post) v =
    let here = Linked-after s.task_at pre (s.current_task ∷ u ∷ post) v.links in
    task_next-behind s u here.0.1 here.1.0.0

-- On as many calls of `task_next` as the list has tasks, each task of the list runs once, those behind the current task first, and the state is then the one before them.
pub turns_lem :
    {s : Tasks} (pre post : List ℕ)
    → IsChain s (pre ++ (s.current_task ∷ post))
    → turns (length (pre ++ (s.current_task ∷ post))) s
      ≡ some (post ++ (pre ++ (s.current_task ∷ [])), s)
turns_lem {s = s} pre post v =
    let c = s.current_task in
    let back : end c (post ++ (pre ++ (c ∷ []))) ≡ c =
      ap (end c) (sym (append_assoc post pre (c ∷ []))) ∙ end-append c c (post ++ pre) in
    ap (λ n. turns n s) (sym (length-round pre post c))
    ∙ turns-Walk s (post ++ (pre ++ (c ∷ []))) (Walk-round pre post v)
    ∙ ap (λ t. some (post ++ (pre ++ (c ∷ [])), record s { current_task = t })) back
