-- ===== src/Heap/Search.antt =====
-- heap_get_start_block: the first run of free entries that is long enough, or the run of free entries
-- at the table's end.
use native.Mathlib.Nat.{add-zero, zero-add}
use bimble_os.Common.{
  ℕ, suc, ◌+◌, ◌≤◌, ◌<◌, min, ◌≡◌, refl, sym, ◌∙◌, Option, none, some, List, [], ◌∷◌, ltb, inl, inr,
  false, if◌then◌else◌, arith, length, get_or, take, ◌==◌, Bool-cases,
}
use bimble_os.Heap.{Heap, entry_free, heap_get_entry_type, scan, heap_get_start_block}

abbrev pub IsFree : List ℕ → ℕ → Type 0
IsFree es i = heap_get_entry_type (get_or es i 0) ≡ entry_free

-- The entries from `s` up to `e` are free.
abbrev pub FreeRun : List ℕ → ℕ → ℕ → Type 0
FreeRun es s e = (i : ℕ) → s ≤ i → i < e → IsFree es i

-- The loop has `es` left of the table `all`, from entry `i` on.
record Suffix (all : List ℕ) (i : ℕ) (es : List ℕ) : Type 0 where
  size : i + length es ≡ length all
  entries : (j : ℕ) → get_or all (i + j) 0 ≡ get_or es j 0

Suffix-tail : {all es : List ℕ} (i e : ℕ) → Suffix all i (e ∷ es) → Suffix all (i + 1) es
Suffix-tail {all} i e s = record {
  size = omega (arith, s.size);
  entries = λ j. let shift : i + 1 + j ≡ i + suc j = omega arith in rw shift (s.entries (suc j));
}

Suffix-head : {all es : List ℕ} (i e : ℕ) → Suffix all i (e ∷ es) → get_or all i 0 ≡ e
Suffix-head i e s = rw add-zero at (s.entries 0)

-- The variables of the loop: a run of `count` free entries ends before entry `i`.
abbrev Running : List ℕ → ℕ → ℕ → ℕ → Option ℕ → Type 0
Running all total i count none = count ≡ 0
Running all total i count (some s) =
    (s + count ≡ i) × (0 < count) × (count < total) × FreeRun all s i

FreeRun-snoc : (all : List ℕ) (s i : ℕ) → FreeRun all s i → IsFree all i → FreeRun all s (i + 1)
FreeRun-snoc all s i run free j lo hi = elim (Bool-cases (j == i)) [
  | inl e ↦ let same : j ≡ i = ground arith in rw same free
  | inr e ↦ run j lo (ground arith)
]

FreeRun-one : (all : List ℕ) (i : ℕ) → IsFree all i → FreeRun all i (i + 1)
FreeRun-one all i free j lo hi = let same : j ≡ i = omega arith in rw same free

not_free :
    (x : ℕ) → (heap_get_entry_type x == entry_free) ≡ false → heap_get_entry_type x ≡ entry_free → ⊥
not_free x h e = ground arith

-- What the result of the loop is known to be.
abbrev Sound : List ℕ → ℕ → ℕ → Type 0
Sound all total s = (s < length all) × FreeRun all s (min (s + total) (length all))

FreeRun-shrink : (all : List ℕ) (s e e' : ℕ) → e' ≤ e → FreeRun all s e → FreeRun all s e'
FreeRun-shrink all s e e' h run j lo hi = run j lo (omega arith)

-- The first block of the run once entry `i` has joined it.
pub first_block : Option ℕ → ℕ → ℕ
first_block none i = i
first_block (some s) i = s

-- One round of the loop.
pub scan_busy :
    (x : ℕ) (es : List ℕ) (i count : ℕ) (start : Option ℕ) (total : ℕ)
    → (heap_get_entry_type x == entry_free) ≡ false
    → scan (x ∷ es) i count start total ≡ scan es (i + 1) 0 none total
unfolding scan
scan_busy x es i count start total h = rw h

pub scan_free :
    (x : ℕ) (es : List ℕ) (i count : ℕ) (start : Option ℕ) (total : ℕ)
    → heap_get_entry_type x ≡ entry_free
    → scan (x ∷ es) i count start total ≡ (
        if count + 1 == total
        then some (first_block start i)
        else scan es (i + 1) (count + 1) (some (first_block start i)) total)
unfolding scan first_block
scan_free x es i count none total h = rw (h)
scan_free x es i count (some s) total h = rw (h)

-- The run with entry `i`.
record Joined (all : List ℕ) (total i count s : ℕ) : Type 0 where
  size : s + (count + 1) ≡ i + 1
  below : count < total
  free : FreeRun all s (i + 1)

Running-Joined :
    (all : List ℕ) (total i count : ℕ) (start : Option ℕ)
    → 0 < total
    → Running all total i count start
    → IsFree all i
    → Joined all total i count (first_block start i)
unfolding first_block
Running-Joined all total i count none pos run free = record {
  size = omega arith;
  below = omega arith;
  free = FreeRun-one all i free;
}
Running-Joined all total i count (some s) pos run free = record {
  size = omega arith;
  below = run.2;
  free = FreeRun-snoc all s i run.3 free;
}

module _ (all : List ℕ) (total : ℕ) (pos : 0 < total) where
  scan-Sound :
      (es : List ℕ) (i count : ℕ) (start : Option ℕ) (s : ℕ)
      → Suffix all i es
      → Running all total i count start
      → scan es i count start total ≡ some s
      → Sound all total s
  unfolding scan
  scan-Sound [] i count none s suf run e = absurd (cc)
  scan-Sound [] i count (some s0) s suf run e =
      let same : s0 ≡ s = cc in
      rw (← same)
        (omega (arith, suf.size), FreeRun-shrink all s0 i _ (omega (arith, suf.size)) run.3)
  scan-Sound (x ∷ es) i count start s suf run e =
      elim (Bool-cases (heap_get_entry_type x == entry_free)) [
        | inr busy ↦
            scan-Sound es (i + 1) 0 none s (Suffix-tail i x suf) refl
              (sym (scan_busy x es i count start total busy) ∙ e)
        | inl free ↦
            let free' : heap_get_entry_type x ≡ entry_free = ground arith in
            let j =
              Running-Joined all total i count start pos run (rw (Suffix-head i x suf) free') in
            let e' = sym (scan_free x es i count start total free') ∙ e in
            elim (Bool-cases (count + 1 == total)) [
              | inl full ↦
                  let same : first_block start i ≡ s = ground arith in
                  let count' : count + 1 ≡ total = ground arith in
                  rw (← same) (
                    omega (arith, suf.size, j.size),
                    FreeRun-shrink all (first_block start i) (i + 1) _
                        (omega (arith, suf.size, j.size)) j.free,
                  )
              | inr short ↦
                  scan-Sound es (i + 1) (count + 1) (some (first_block start i)) s
                    (Suffix-tail i x suf) (j.size, omega arith, ground (arith, j.below), j.free)
                    (rw short at e')
            ]
      ]

  -- The run that is looked for starts at `p`.
  module _ (p : ℕ) (run_p : FreeRun all p (p + total)) (inside : p + total ≤ length all) where
    -- The run at hand does not start behind `p`.
    abbrev Early : ℕ → Option ℕ → Type 0
    Early i none = i ≤ p
    Early i (some s) = s ≤ p

    Early-Joined :
        (i count : ℕ) (start : Option ℕ)
        → Early i start
        → i < length all
        → IsFree all i
        → first_block start i ≤ p
    unfolding first_block
    Early-Joined i count none early lt free = early
    Early-Joined i count (some s) early lt free = early

    -- A taken entry lies before the run.
    busy_before :
        (i count : ℕ) (start : Option ℕ)
        → Running all total i count start
        → Early i start
        → (IsFree all i → ⊥)
        → i < p
    busy_before i count none run early busy = elim (Bool-cases (ltb i p)) [
      | inl lt ↦ ground arith
      | inr ge ↦ absurd (busy (run_p i (ground arith) (ground arith)))
    ]
    busy_before i count (some s) run early busy = elim (Bool-cases (ltb i p)) [
      | inl lt ↦ ground arith
      | inr ge ↦ absurd (busy (run_p i (ground arith) (omega arith)))
    ]

    scan_finds :
        (es : List ℕ) (i count : ℕ) (start : Option ℕ)
        → Suffix all i es
        → Running all total i count start
        → Early i start
        → (s : ℕ) × (scan es i count start total ≡ some s) × (s ≤ p) × (s + total ≤ length all)
    unfolding scan
    scan_finds [] i count none suf run early = absurd (omega (arith, suf.size))
    scan_finds [] i count (some s) suf run early = absurd (omega (arith, suf.size))
    scan_finds (x ∷ es) i count start suf run early =
        elim (Bool-cases (heap_get_entry_type x == entry_free)) [
          | inr busy ↦
              let taken : IsFree all i → ⊥ = λ f. not_free x busy (rw (Suffix-head i x suf) at f) in
              rw (scan_busy x es i count start total busy) (
                scan_finds es (i + 1) 0 none (Suffix-tail i x suf) refl
                  (omega (arith, busy_before i count start run early taken)))
          | inl free ↦
              let free' : heap_get_entry_type x ≡ entry_free = ground arith in
              let here : IsFree all i = rw (Suffix-head i x suf) free' in
              let j = Running-Joined all total i count start pos run here in
              let before = Early-Joined i count start early (omega (arith, suf.size)) here in
              rw (scan_free x es i count start total free')
                (elim (Bool-cases (count + 1 == total)) [
                  | inl full ↦
                      rw full (first_block start i, refl, before, ground (arith, suf.size, j.size))
                  | inr short ↦ rw short (
                      scan_finds es (i + 1) (count + 1) (some (first_block start i))
                        (Suffix-tail i x suf) (j.size, omega arith, ground (arith, j.below), j.free)
                        before)
                ])
        ]

-- The entries that the loop reads.
abbrev pub table_entries : Heap → List ℕ
table_entries h = take h.table.total_entries h.table.entries

Suffix-whole : (all : List ℕ) → Suffix all 0 all
Suffix-whole all = record { size = rw zero-add; entries = λ j. rw zero-add }

-- A result lies in the table, and the entries from it on are free, `total` of them or all up to the
-- table's end.
pub heap_get_start_block-Sound :
    (h : Heap) (total s : ℕ)
    → 0 < total
    → heap_get_start_block h total ≡ some s
    → (s < length (table_entries h))
      × FreeRun (table_entries h) s (min (s + total) (length (table_entries h)))
unfolding heap_get_start_block
heap_get_start_block-Sound h total s pos e =
    scan-Sound (table_entries h) total pos (table_entries h) 0 0 none s
      (Suffix-whole (table_entries h)) refl e

-- If `total` free entries follow one another from `p` on, `heap_get_start_block` returns a block that
-- is not behind `p` and from which `total` entries of the table, all free, follow one another.
pub heap_get_start_block_lem :
    (h : Heap) (total p : ℕ)
    → 0 < total
    → FreeRun (table_entries h) p (p + total)
    → p + total ≤ length (table_entries h)
    → (s : ℕ) × (heap_get_start_block h total ≡ some s)
      × (s ≤ p)
      × (s + total ≤ length (table_entries h))
      × FreeRun (table_entries h) s (s + total)
unfolding heap_get_start_block
heap_get_start_block_lem h total p pos run inside =
    let all = table_entries h in
    let (s, e, early, fits) =
      scan_finds all total pos p run inside all 0 0 none (Suffix-whole all) refl (omega arith) in
    let sound = heap_get_start_block-Sound h total s pos e in
    (s, e, early, fits, FreeRun-shrink all s _ (s + total) (omega arith) sound.1)
