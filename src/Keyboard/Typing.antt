-- ===== src/Keyboard/Typing.antt =====
-- Characters typed and read one after the other, and a character typed on a full buffer.
use bimble_os.Common.{
  ℕ, zero, suc, ◌+◌, ◌%◌, ◌≤◌, ◌<◌, ◌≡◌, refl, sym, ap, Option, some, List, [], ◌∷◌, ◌++◌, arith,
  length, length-append, get_or-set_self, ◌==◌, false,
}
use bimble_os.Common.Word.{word_size}
use bimble_os.Keyboard.{
  KeyboardBuffer, keyboard_buffer_size, keyboard_push, keyboard_pop, keyboard_get_tail_index,
}
use bimble_os.Keyboard.Queue.{IsQueue, NoNul, keyboard_push_lem, keyboard_pop_lem}

abbrev pub push_all : List ℕ → Option KeyboardBuffer → Option KeyboardBuffer
push_all [] process = process
push_all (c ∷ cs) process = push_all cs (keyboard_push c process)

abbrev pub pop_all : ℕ → Option KeyboardBuffer → List ℕ
pop_all zero process = []
pop_all (suc n) process = let r = keyboard_pop process in r.0 ∷ pop_all n r.1

pop_all_lem : (q : List ℕ) {kb : KeyboardBuffer} → IsQueue kb q → pop_all (length q) (some kb) ≡ q
pop_all_lem [] v = refl
pop_all_lem (c ∷ q) v =
    let (kb', e, v', same) = keyboard_pop_lem c q v in rw e (ap (λ l. c ∷ l) (pop_all_lem q v'))

append_snoc : (q : List ℕ) (c : ℕ) (cs : List ℕ) → (q ++ (c ∷ [])) ++ cs ≡ q ++ (c ∷ cs)
append_snoc [] c cs = refl
append_snoc (d ∷ q) c cs = ap (λ l. d ∷ l) (append_snoc q c cs)

append_nil : (q : List ℕ) → q ++ [] ≡ q
append_nil [] = refl
append_nil (d ∷ q) = ap (λ l. d ∷ l) (append_nil q)

pub push_all_lem :
    (cs q : List ℕ) {kb : KeyboardBuffer}
    → IsQueue kb q
    → NoNul cs
    → length q + length cs ≤ keyboard_buffer_size
    → kb.tail + length cs < word_size
    → (kb' : KeyboardBuffer) × (push_all cs (some kb) ≡ some kb') × IsQueue kb' (q ++ cs)
push_all_lem [] q {kb = kb} v n room wide = (kb, refl, rw (append_nil q) v)
push_all_lem (c ∷ cs) q {kb = kb} v n room wide =
    let (kb1, e1, v1, t1) = keyboard_push_lem q c v n.0 (omega arith) (omega arith) in
    let (kb2, e2, v2) =
      push_all_lem cs (q ++ (c ∷ [])) v1 n.1 (omega (arith, length-append q (c ∷ [])))
        (omega (arith, t1)) in
    (kb2, rw e1 e2, rw (sym (append_snoc q c cs)) v2)

-- On an empty queue, keyboard_pop returns the characters that keyboard_push was given, in their
-- order, when none is NUL, they fit into the buffer and the tail does not wrap around.
pub keyboard_pop-keyboard_push :
    (cs : List ℕ) {kb : KeyboardBuffer}
    → IsQueue kb []
    → NoNul cs
    → length cs ≤ keyboard_buffer_size
    → kb.tail + length cs < word_size
    → pop_all (length cs) (push_all cs (some kb)) ≡ cs
keyboard_pop-keyboard_push cs v n room wide =
    let (kb', e, v') = push_all_lem cs [] v n (omega arith) wide in rw e (pop_all_lem cs v')

-- On a full queue, keyboard_push overwrites the oldest character: the next keyboard_pop returns the
-- new one.
pub keyboard_push_full :
    {kb : KeyboardBuffer} (q : List ℕ) (c : ℕ)
    → IsQueue kb q
    → length q ≡ keyboard_buffer_size
    → 0 < c
    → (keyboard_pop (keyboard_push c (some kb))).0 ≡ c
unfolding keyboard_push keyboard_pop keyboard_get_tail_index
keyboard_push_full {kb = kb} q c v full h =
    let ne : (c == 0) ≡ false = ground arith in
    let same : kb.tail % 1024 ≡ kb.head % 1024 = omega (arith, v.ends, full) in
    let size : kb.head % 1024 < length kb.buffer = omega (arith, v.size) in
    rw (ne, same, get_or-set_self kb.buffer (kb.head % 1024) c 0 size, ne)
