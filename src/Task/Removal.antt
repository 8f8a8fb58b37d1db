-- ===== src/Task/Removal.antt =====
-- Taking a task out of the list.
use bimble_os.Common.{
  ℕ, ◌<◌, ◌≡◌, ◌≢◌, refl, sym, ap, ◌∙◌, true, false, Bool-cases, inl, inr, List, [], ◌∷◌, ◌++◌,
  arith, ◌==◌, if◌then◌else◌,
}
use mathlib.Core.Path.{subst}
use bimble_os.Task.{Task, Tasks, with_task, task_list_remove}
use bimble_os.Task.Chain.{first, last, Linked, Absent, Distinct, IsChain, Absent-last}

-- The tasks once the one at `p` is linked to the one behind `t`.
abbrev bridged : Tasks → ℕ → ℕ → ℕ → Task
bridged s p t = (with_task s p (record (s.task_at p) { next = (s.task_at t).next })).task_at

bridged-other : (s : Tasks) (p t a : ℕ) → a ≢ p → (bridged s p t a).next ≡ (s.task_at a).next
bridged-other s p t a ne = let other : (a == p) ≡ false = ground (arith, ne) in rw other refl

bridged-Linked :
    (s : Tasks) (p t : ℕ) (ts : List ℕ)
    → Absent p ts
    → Linked s.task_at ts
    → Linked (bridged s p t) ts
bridged-Linked s p t [] absent v = tt
bridged-Linked s p t (a ∷ ts) absent v = (
  (v.0.0, bridged-other s p t a (λ e. absent.0 (sym e)) ∙ v.0.1),
  bridged-Linked s p t ts absent.1 v.1,
)

Absent-mid : (a c : ℕ) (pre post : List ℕ) → Absent a (pre ++ (c ∷ post)) → a ≢ c
Absent-mid a c [] post v = v.0
Absent-mid a c (p ∷ pre) post v = Absent-mid a c pre post v.1

Absent-skip :
    (a p t : ℕ) (pre post : List ℕ)
    → Absent a (pre ++ (p ∷ t ∷ post))
    → Absent a (pre ++ (p ∷ post))
Absent-skip a p t [] post v = (v.0, v.1.1)
Absent-skip a p t (u ∷ pre) post v = (v.0, Absent-skip a p t pre post v.1)

Distinct-skip :
    (p t : ℕ) (pre post : List ℕ) → Distinct (pre ++ (p ∷ t ∷ post)) → Distinct (pre ++ (p ∷ post))
Distinct-skip p t [] post v = (v.0.1, v.1.1)
Distinct-skip p t (u ∷ pre) post v =
    (Absent-skip u p t pre post v.0, Distinct-skip p t pre post v.1)

first-skip :
    (p t : ℕ) (pre post : List ℕ) → first (pre ++ (p ∷ t ∷ post)) ≡ first (pre ++ (p ∷ post))
first-skip p t [] post = refl
first-skip p t (u ∷ pre) post = refl

-- The links past `t`.
bridged_lem :
    (s : Tasks) (p t : ℕ) (pre post : List ℕ)
    → Distinct (pre ++ (p ∷ t ∷ post))
    → Linked s.task_at (pre ++ (p ∷ t ∷ post))
    → Linked (bridged s p t) (pre ++ (p ∷ post))
bridged_lem s p t [] post d v =
    let here : (p == p) ≡ true = ground arith in
    ((v.0.0, rw here v.1.0.1), bridged-Linked s p t post d.0.1 v.1.1)
bridged_lem s p t (u ∷ pre) post d v = (
  (
    v.0.0,
    bridged-other s p t u (Absent-mid u p pre (t ∷ post) d.0) ∙ v.0.1 ∙ first-skip p t pre post,
  ),
  bridged_lem s p t pre post d.1 v.1,
)

last-append : (pre : List ℕ) (a : ℕ) (post : List ℕ) → last (pre ++ (a ∷ post)) ≡ last (a ∷ post)
last-append [] a post = refl
last-append (u ∷ []) a post = refl
last-append (u ∷ w ∷ pre) a post = last-append (w ∷ pre) a post

-- What the parts of the list behind `p` say of the head and of `p`.
head-ne :
    (p t : ℕ) (pre post : List ℕ)
    → Distinct (pre ++ (p ∷ t ∷ post))
    → t ≢ first (pre ++ (p ∷ t ∷ post))
head-ne p t [] post d e = d.0.0 (sym e)
head-ne p t (u ∷ pre) post d e = Absent-mid u t (pre ++ (p ∷ [])) post (move pre d.0) (sym e)
  where
    move :
        (pre : List ℕ)
        → Absent u (pre ++ (p ∷ t ∷ post))
        → Absent u ((pre ++ (p ∷ [])) ++ (t ∷ post))
    move [] v = v
    move (w ∷ pre) v = (v.0, move pre v.1)

later-ne :
    (p t u : ℕ) (pre post : List ℕ)
    → Distinct (pre ++ (p ∷ t ∷ u ∷ post))
    → u ≢ first (pre ++ (p ∷ t ∷ u ∷ post))
later-ne p t u [] post d e = d.0.1.0 (sym e)
later-ne p t u (w ∷ pre) post d e = far pre d.0 (sym e)
  where
    far : (pre : List ℕ) → Absent w (pre ++ (p ∷ t ∷ u ∷ post)) → w ≢ u
    far [] v = v.1.1.0
    far (x ∷ pre) v = far pre v.1

link_positive :
    (at : ℕ → Task) (p t : ℕ) (pre post : List ℕ) → Linked at (pre ++ (p ∷ t ∷ post)) → 0 < p
link_positive at p t [] post v = v.0.0
link_positive at p t (u ∷ pre) post v = link_positive at p t pre post v.1

tail_after :
    (p t : ℕ) (pre post : List ℕ) (tail : ℕ)
    → Distinct (pre ++ (p ∷ t ∷ post))
    → tail ≡ last (pre ++ (p ∷ t ∷ post))
    → (if t == tail then p else tail) ≡ last (pre ++ (p ∷ post))
tail_after p t pre [] tail d e =
    let at : tail ≡ t = e ∙ last-append pre p (t ∷ []) in
    let same : (t == tail) ≡ true = ground (arith, at) in rw same (sym (last-append pre p []))
tail_after p t pre (u ∷ post) tail d e =
    let at : tail ≡ last (u ∷ post) = e ∙ last-append pre p (t ∷ u ∷ post) in
    let ne = Absent-last t u post (behind pre d) in
    let other : (t == tail) ≡ false = ground (arith, at, ne) in
    rw other (at ∙ sym (last-append pre p (u ∷ post)))
  where
    behind : (pre : List ℕ) → Distinct (pre ++ (p ∷ t ∷ u ∷ post)) → Absent t (u ∷ post)
    behind [] d = d.1.0
    behind (w ∷ pre) d = behind pre d.1

-- The fields after a removal, the tail and the current task apart.
record Removed (s : Tasks) (p t : ℕ) (s' : Tasks) : Type 0 where
  pub at : s'.task_at ≡ bridged s p t
  pub head : s'.task_head ≡ s.task_head
  pub tail : s'.task_tail ≡ (if t == s.task_tail then p else s.task_tail)

task_list_remove-Removed :
    (s : Tasks) (p t : ℕ)
    → (s.task_at t).prev ≡ p
    → 0 < p
    → t ≢ s.task_head
    → Removed s p t (task_list_remove t s)
unfolding task_list_remove
task_list_remove-Removed s p t back pos ne =
    let some_prev : (p == 0) ≡ false = ground (arith, pos) in
    let inner : (t == s.task_head) ≡ false = ground (arith, ne) in
    elim (Bool-cases (t == s.task_tail)) [
      | inl end ↦ elim (Bool-cases (t == s.current_task)) [
        | inl runs ↦
            rw (task_list_remove, back, some_prev, inner, end, runs)
              (record { at = refl; head = refl; tail = rw end refl })
        | inr rests ↦
            rw (task_list_remove, back, some_prev, inner, end, rests)
              (record { at = refl; head = refl; tail = rw end refl })
      ]
      | inr within ↦ elim (Bool-cases (t == s.current_task)) [
        | inl runs ↦
            rw (task_list_remove, back, some_prev, inner, within, runs)
              (record { at = refl; head = refl; tail = rw within refl })
        | inr rests ↦
            rw (task_list_remove, back, some_prev, inner, within, rests)
              (record { at = refl; head = refl; tail = rw within refl })
      ]
    ]

-- Taking out a task that stands behind another one, to which its `prev` points, leaves the other tasks in their order.
pub task_list_remove_lem :
    {s : Tasks} (p t : ℕ) (pre post : List ℕ)
    → IsChain s (pre ++ (p ∷ t ∷ post))
    → (s.task_at t).prev ≡ p
    → IsChain (task_list_remove t s) (pre ++ (p ∷ post))
task_list_remove_lem {s = s} p t pre post v back =
    let pos = link_positive s.task_at p t pre post v.links in
    let inner = head-ne p t pre post v.distinct in
    let r = task_list_remove-Removed s p t back pos (λ e. inner (e ∙ v.head)) in
    record {
      links =
          subst (λ at. Linked at (pre ++ (p ∷ post))) (sym r.at)
            (bridged_lem s p t pre post v.distinct v.links);
      distinct = Distinct-skip p t pre post v.distinct;
      head = r.head ∙ v.head ∙ first-skip p t pre post;
      tail = r.tail ∙ tail_after p t pre post s.task_tail v.distinct v.tail;
    }

-- The end of a list.
from_mid :
    (at : ℕ → Task) (pre ts : List ℕ)
    → Distinct (pre ++ ts)
    → Linked at (pre ++ ts)
    → Distinct ts × Linked at ts
from_mid at [] ts d v = (d, v)
from_mid at (u ∷ pre) ts d v = from_mid at pre ts d.1 v.1

-- Where two tasks are removed that stand behind one another, the first one first, and the `prev` of each points to the one
-- in front of it, the task in front of both has the second one as its `next` afterwards: its `prev`
-- is not set to the task in front when the first is removed.
pub task_list_remove-twice :
    {s : Tasks} (p t u : ℕ) (pre post : List ℕ)
    → IsChain s (pre ++ (p ∷ t ∷ u ∷ post))
    → (s.task_at t).prev ≡ p
    → (s.task_at u).prev ≡ t
    → ((task_list_remove u (task_list_remove t s)).task_at p).next ≡ u
task_list_remove-twice {s = s} p t u pre post v prev behind =
    let (d, l) = from_mid s.task_at pre (p ∷ t ∷ u ∷ post) v.distinct v.links in
    let inner = head-ne p t pre (u ∷ post) v.distinct in
    let r = task_list_remove-Removed s p t prev l.0.0 (λ e. inner (e ∙ v.head)) in
    let s' = task_list_remove t s in
    let away : (u == p) ≡ false = ground (arith, d.0.1.0) in
    let still : (s'.task_at u).prev ≡ t =
      ap (λ (at : ℕ → Task). (at u).prev) r.at ∙ rw away behind in
    let deep : u ≢ s.task_head = λ e. later-ne p t u pre post v.distinct (e ∙ v.head) in
    let r' = task_list_remove-Removed s' t u still l.1.0.0 (λ e. deep (e ∙ r.head)) in
    let here : (p == p) ≡ true = ground arith in
    ap (λ (at : ℕ → Task). (at p).next) r'.at
    ∙ bridged-other s' t u p d.0.0
    ∙ ap (λ (at : ℕ → Task). (at p).next) r.at
    ∙ rw here l.1.0.1
