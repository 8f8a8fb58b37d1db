-- ===== src/Heap/Blocks.antt =====
-- Allocations of one block and the blocks that are in use.
use bimble_os.Common.{
  ℕ, zero, suc, ◌+◌, ◌*◌, ◌≤◌, ◌<◌, ◌≡◌, ◌≢◌, refl, sym, ap, ◌∙◌, List, [], ◌∷◌, ◌++◌, arith,
  length, get_or, if◌then◌else◌,
}
use bimble_os.Heap.{Heap, heap_free, block_size}
use bimble_os.Heap.Chunks.{taken, frees, encode, encode-append}
use bimble_os.Heap.Kernel.{Kernel, kzalloc, kzalloc_lem, Allocated-end}
use bimble_os.Heap.Malloc.{IsHeap}
use bimble_os.Heap.Small.{HasRoom, free_blocks, find_free, free_blocks-taken}
use bimble_os.Memory.Laws.{within}

-- The entry of a block.
abbrev pub entry_of : Heap → ℕ → ℕ
entry_of h b = get_or h.table.entries b 0

-- What an allocation of at most a block gives: a block that was free and is in use now, with its
-- bytes 0, and all other blocks and bytes as they were.
pub record NewBlock (s : Kernel) (size n : ℕ) (out : ℕ × Kernel) : Type 0 where
  pub block : ℕ
  pub address : out.0 ≡ s.heap.saddr + block * block_size
  pub unused : entry_of (s.heap) block ≡ 0
  pub used : entry_of (out.1.heap) block ≢ 0
  pub others : (j : ℕ) → j ≢ block → entry_of (out.1.heap) j ≡ entry_of (s.heap) j
  pub saddr : out.1.heap.saddr ≡ s.heap.saddr
  pub room : HasRoom (out.1.heap) n
  pub positive : 0 < out.0
  pub below : out.0 + block_size ≤ 0x8000_0000
  pub memory : (a : ℕ) → out.1.mem a ≡ (if within (out.0) size a then 0 else s.mem a)

get_or-at : (xs ys : List ℕ) (v : ℕ) → get_or (xs ++ (v ∷ ys)) (length xs) 0 ≡ v
get_or-at [] ys v = refl
get_or-at (x ∷ xs) ys v = get_or-at xs ys v

get_or-else :
    (xs ys : List ℕ) (u v j : ℕ)
    → j ≢ length xs
    → get_or (xs ++ (u ∷ ys)) j 0 ≡ get_or (xs ++ (v ∷ ys)) j 0
get_or-else [] ys u v zero ne = absurd (ne refl)
get_or-else [] ys u v (suc j) ne = refl
get_or-else (x ∷ xs) ys u v zero ne = refl
get_or-else (x ∷ xs) ys u v (suc j) ne = get_or-else xs ys u v j (λ e. ne (omega (arith, e)))

pub kzalloc-NewBlock :
    (s : Kernel) (size n : ℕ)
    → 0 < size
    → size ≤ block_size
    → HasRoom (s.heap) (suc n)
    → NewBlock s size n (kzalloc size s)
unfolding HasRoom heap_free
kzalloc-NewBlock s size n pos small (cs, v, le) =
    let (pre, post, split) = find_free cs n le in
    let v' : IsHeap (s.heap) (pre ++ (frees 1 ++ post)) = rw split at v in
    let got = (kzalloc_lem s pre post 0 size 0 v' (omega arith) (omega arith)).0 in
    let place = Allocated-end v' got in
    let fewer = free_blocks-taken (got.pre) (got.post) in
    let same = ap free_blocks (split ∙ got.before) in
    let before : s.heap.table.entries ≡ encode (got.pre) ++ (0 ∷ encode (got.post)) =
      v'.entries ∙ ap encode got.before ∙ encode-append (got.pre) (frees 1 ++ got.post) in
    let after : (kzalloc size s).1.heap.table.entries
        ≡ encode (got.pre) ++ (0x41 ∷ encode (got.post)) =
      got.after.entries ∙ encode-append (got.pre) (taken 0 ∷ got.post) in
    let b = length (encode (got.pre)) in
    let marked : entry_of ((kzalloc size s).1.heap) b ≡ 0x41 =
      ap (λ l. get_or l b 0) after ∙ get_or-at (encode (got.pre)) (encode (got.post)) 0x41 in
    record {
      block = b;
      address = got.address;
      unused = ap (λ l. get_or l b 0) before ∙ get_or-at (encode (got.pre)) (encode (got.post)) 0;
      used = λ e. omega (arith, e, marked);
      others = λ j ne.
          ap (λ l. get_or l j 0) after
          ∙ get_or-else (encode (got.pre)) (encode (got.post)) 0x41 0 j ne
          ∙ sym (ap (λ l. get_or l j 0) before);
      saddr = ap (λ (h : Heap). h.saddr) got.undo;
      room = (got.pre ++ (taken 0 ∷ got.post), got.after, omega (arith, fewer, same));
      positive = place.0;
      below = omega (arith, place.1);
      memory = λ a. (kzalloc_lem s pre post 0 size a v' (omega arith) (omega arith)).1;
    }
