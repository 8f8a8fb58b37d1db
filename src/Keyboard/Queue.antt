-- ===== src/Keyboard/Queue.antt =====
-- The buffer is a queue of characters, as long as it is not full.
use bimble_os.Common.{
  ℕ, zero, suc, ◌+◌, ◌%◌, ◌≤◌, ◌<◌, ◌≡◌, ◌≢◌, refl, sym, ◌∙◌, false, some, List, [], ◌∷◌, ◌++◌,
  arith, length, get_or, set, length-set, get_or-set_self, get_or-set_ne, length-append, ◌==◌,
  if◌then◌else◌, Bool-cases, inl, inr,
}
use bimble_os.Common.Word.{word_size, add32, sub32}
use bimble_os.Keyboard.{
  KeyboardBuffer, keyboard_buffer_size, keyboard_get_tail_index, keyboard_backspace, keyboard_push,
  keyboard_pop,
}

-- The cell that is `i` behind the head.
abbrev pub cell : KeyboardBuffer → ℕ → ℕ
cell kb i = get_or kb.buffer ((kb.head + i) % keyboard_buffer_size) 0

abbrev pub NoNul : List ℕ → Type 0
NoNul [] = Unit
NoNul (c ∷ q) = (0 < c) × NoNul q

-- The buffer holds the characters of the queue from its head on, and 0 in every other cell.
pub record IsQueue (kb : KeyboardBuffer) (q : List ℕ) : Type 0 where
  pub size : length kb.buffer ≡ keyboard_buffer_size
  pub fits : length q ≤ keyboard_buffer_size
  pub ends : kb.head + length q ≡ kb.tail
  pub word : kb.tail < word_size
  pub chars : NoNul q
  pub cells : (i : ℕ) → i < keyboard_buffer_size → cell kb i ≡ get_or q i 0

get_or_beyond : (q : List ℕ) (i : ℕ) → length q ≤ i → get_or q i 0 ≡ 0
get_or_beyond [] i h = refl
get_or_beyond (c ∷ q) zero h = absurd (omega arith)
get_or_beyond (c ∷ q) (suc i) h = get_or_beyond q i (omega arith)

get_or-snoc :
    (q : List ℕ) (c i : ℕ)
    → get_or (q ++ (c ∷ [])) i 0 ≡ (if i == length q then c else get_or q i 0)
get_or-snoc [] c zero = refl
get_or-snoc [] c (suc i) = ground arith
get_or-snoc (d ∷ q) c zero = ground arith
get_or-snoc (d ∷ q) c (suc i) = ground (arith, get_or-snoc q c i)

NoNul-snoc : (q : List ℕ) (c : ℕ) → NoNul q → 0 < c → NoNul (q ++ (c ∷ []))
NoNul-snoc [] c n h = (h, tt)
NoNul-snoc (d ∷ q) c n h = (n.0, NoNul-snoc q c n.1 h)

NoNul-init : (q : List ℕ) (c : ℕ) → NoNul (q ++ (c ∷ [])) → NoNul q
NoNul-init [] c n = tt
NoNul-init (d ∷ q) c n = (n.0, NoNul-init q c n.1)

-- Distances below the size of the buffer lead to different cells.
index_ne : (h i j : ℕ) → i < 1024 → j < 1024 → i ≢ j → (h + i) % 1024 ≢ (h + j) % 1024
index_ne h i j hi hj ne = omega arith

-- The cell at distance `j` after a write at distance `i`.
cell-set_self :
    (b : List ℕ) (h i v : ℕ)
    → length b ≡ 1024
    → get_or (set b ((h + i) % 1024) v) ((h + i) % 1024) 0 ≡ v
cell-set_self b h i v size = get_or-set_self b ((h + i) % 1024) v 0 (omega (arith, size))

cell-set_ne :
    (b : List ℕ) (h i j v : ℕ)
    → i < 1024
    → j < 1024
    → i ≢ j
    → get_or (set b ((h + i) % 1024) v) ((h + j) % 1024) 0 ≡ get_or b ((h + j) % 1024) 0
cell-set_ne b h i j v hi hj ne =
    get_or-set_ne b ((h + i) % 1024) ((h + j) % 1024) v 0 (index_ne h i j hi hj ne)

pushed : ℕ → KeyboardBuffer → KeyboardBuffer
pushed c kb = record kb {
  buffer = set kb.buffer (kb.tail % keyboard_buffer_size) c;
  tail = add32 kb.tail 1;
}

push_eq : (c : ℕ) (kb : KeyboardBuffer) → 0 < c → keyboard_push c (some kb) ≡ some (pushed c kb)
unfolding keyboard_push pushed
push_eq c kb h = let e : (c == 0) ≡ false = ground arith in rw e

pushed_cell :
    {kb : KeyboardBuffer} (q : List ℕ) (c : ℕ)
    → IsQueue kb q
    → length q < keyboard_buffer_size
    → (i : ℕ) → i < keyboard_buffer_size
    → get_or (set kb.buffer (kb.tail % 1024) c) ((kb.head + i) % 1024) 0
      ≡ get_or (q ++ (c ∷ [])) i 0
pushed_cell {kb = kb} q c v room i hi =
    rw (sym v.ends, get_or-snoc q c i)
      (elim (Bool-cases (i == length q)) [
        | inl here ↦
            let e : i ≡ length q = ground arith in
            rw (here, e) (cell-set_self kb.buffer kb.head (length q) c v.size)
        | inr there ↦
            let ne : length q ≢ i = ground arith in
            rw there (cell-set_ne kb.buffer kb.head (length q) i c room hi ne ∙ v.cells i hi)
      ])

pushed-IsQueue :
    {kb : KeyboardBuffer} (q : List ℕ) (c : ℕ)
    → IsQueue kb q
    → 0 < c
    → length q < keyboard_buffer_size
    → kb.tail + 1 < word_size
    → IsQueue (pushed c kb) (q ++ (c ∷ []))
unfolding pushed
pushed-IsQueue {kb = kb} q c v h room wide = record {
  size = length-set kb.buffer (kb.tail % keyboard_buffer_size) c ∙ v.size;
  fits = omega (arith, length-append q (c ∷ []));
  ends = omega (arith, v.ends, length-append q (c ∷ []));
  word = ground (arith, wide);
  chars = NoNul-snoc q c v.chars h;
  cells = λ i hi. pushed_cell {kb = kb} q c v room i hi;
}

-- keyboard_push puts a character that is not NUL at the end of a queue that has room, as long as the
-- tail does not wrap around.
pub keyboard_push_lem :
    {kb : KeyboardBuffer} (q : List ℕ) (c : ℕ)
    → IsQueue kb q
    → 0 < c
    → length q < keyboard_buffer_size
    → kb.tail + 1 < word_size
    → (kb' : KeyboardBuffer) × (keyboard_push c (some kb) ≡ some kb')
      × IsQueue kb' (q ++ (c ∷ []))
      × (kb'.tail ≡ kb.tail + 1)
unfolding pushed
keyboard_push_lem {kb = kb} q c v h room wide =
    (pushed c kb, push_eq c kb h, pushed-IsQueue q c v h room wide, ground arith)

popped : KeyboardBuffer → KeyboardBuffer
popped kb = record kb {
  buffer = set kb.buffer (kb.head % keyboard_buffer_size) 0;
  head = add32 kb.head 1;
}

first_cell :
    {kb : KeyboardBuffer} (q : List ℕ)
    → IsQueue kb q
    → get_or kb.buffer (kb.head % 1024) 0 ≡ get_or q 0 0
first_cell {kb = kb} q v =
    let e : kb.head ≡ kb.head + 0 = omega arith in rw e (v.cells 0 (omega arith))

popped_cell :
    {kb : KeyboardBuffer} (c : ℕ) (q : List ℕ)
    → IsQueue kb (c ∷ q)
    → (i : ℕ) → i < keyboard_buffer_size
    → get_or (set kb.buffer (kb.head % 1024) 0) ((kb.head + 1 + i) % 1024) 0 ≡ get_or q i 0
popped_cell {kb = kb} c q v i hi = elim (Bool-cases (i == 1023)) [
  | inl last ↦
      let beyond : get_or q i 0 ≡ 0 = get_or_beyond q i (ground (arith, v.fits)) in
      let same : (kb.head + 1 + i) % 1024 ≡ kb.head % 1024 = ground arith in
      let size : kb.head % 1024 < length kb.buffer = omega (arith, v.size) in
      rw (beyond, same) (get_or-set_self kb.buffer (kb.head % 1024) 0 0 size)
  | inr more ↦
      let behind : kb.head + 1 + i ≡ kb.head + suc i = omega arith in
      let fits : suc i < 1024 = ground arith in
      let ne : kb.head % 1024 ≢ (kb.head + suc i) % 1024 = omega arith in
      rw behind (
        get_or-set_ne kb.buffer (kb.head % 1024) ((kb.head + suc i) % 1024) 0 0 ne
        ∙ v.cells (suc i) fits)
]

pop_eq :
    (kb : KeyboardBuffer) (c : ℕ)
    → 0 < c
    → get_or kb.buffer (kb.head % 1024) 0 ≡ c
    → keyboard_pop (some kb) ≡ (c, some (popped kb))
unfolding keyboard_pop popped
pop_eq kb c h e = let ne : (c == 0) ≡ false = ground arith in rw (e, ne)

-- keyboard_pop takes the first character off a queue that has one.
pub keyboard_pop_lem :
    {kb : KeyboardBuffer} (c : ℕ) (q : List ℕ)
    → IsQueue kb (c ∷ q)
    → (kb' : KeyboardBuffer) × (keyboard_pop (some kb) ≡ (c, some kb'))
      × IsQueue kb' q
      × (kb'.tail ≡ kb.tail)
unfolding popped
keyboard_pop_lem {kb = kb} c q v =
    let wide : kb.head + 1 < word_size = omega (arith, v.ends, v.word) in
    let step : add32 kb.head 1 ≡ kb.head + 1 = ground arith in
    (
      popped kb,
      pop_eq kb c v.chars.0 (first_cell (c ∷ q) v),
      record {
        size = length-set kb.buffer (kb.head % 1024) 0 ∙ v.size;
        fits = omega (arith, v.fits);
        ends = omega (arith, v.ends, step);
        word = v.word;
        chars = v.chars.1;
        cells = λ i hi. rw step (popped_cell c q v i hi);
      },
      refl,
    )

-- keyboard_pop on an empty queue returns 0 and changes nothing.
pub keyboard_pop_empty :
    {kb : KeyboardBuffer} → IsQueue kb [] → keyboard_pop (some kb) ≡ (0, some kb)
unfolding keyboard_pop
keyboard_pop_empty {kb = kb} v = rw (first_cell [] v)

erased_cell :
    {kb : KeyboardBuffer} (q : List ℕ) (c : ℕ)
    → IsQueue kb (q ++ (c ∷ []))
    → (i : ℕ) → i < keyboard_buffer_size
    → get_or (set kb.buffer ((kb.head + length q) % 1024) 0) ((kb.head + i) % 1024) 0 ≡ get_or q i 0
erased_cell {kb = kb} q c v i hi =
    let room : length q < 1024 = omega (arith, v.fits, length-append q (c ∷ [])) in
    elim (Bool-cases (i == length q)) [
      | inl here ↦
          let e : i ≡ length q = ground arith in
          rw (get_or_beyond q i (omega arith), e)
            (cell-set_self kb.buffer kb.head (length q) 0 v.size)
      | inr there ↦
          let ne : length q ≢ i = ground arith in
          cell-set_ne kb.buffer kb.head (length q) i 0 room hi ne
          ∙ v.cells i hi
          ∙ get_or-snoc q c i
          ∙ rw there
    ]

-- keyboard_backspace takes the last character off a queue that has one.
pub keyboard_backspace_lem :
    {kb : KeyboardBuffer} (q : List ℕ) (c : ℕ)
    → IsQueue kb (q ++ (c ∷ []))
    → IsQueue (keyboard_backspace kb) q
unfolding keyboard_backspace keyboard_get_tail_index
keyboard_backspace_lem {kb = kb} q c v =
    let step : sub32 kb.tail 1 ≡ kb.head + length q =
      ground (arith, v.ends, v.word, length-append q (c ∷ [])) in
    record {
      size = length-set kb.buffer (sub32 kb.tail 1 % 1024) 0 ∙ v.size;
      fits = omega (arith, v.fits, length-append q (c ∷ []));
      ends = omega (arith, step);
      word = omega (arith, step, v.ends, v.word, length-append q (c ∷ []));
      chars = NoNul-init q c v.chars;
      cells = λ i hi. rw step (erased_cell q c v i hi);
    }
