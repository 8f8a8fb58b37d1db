-- ===== src/Heap/Small.antt =====
-- Allocations of one block from the kernel's heap, as long as there are free blocks.
use bimble_os.Common.{ℕ, suc, ◌≤◌, ◌<◌, ◌≡◌, ◌≢◌, refl, ap, ◌∙◌, List, [], ◌∷◌, ◌++◌, arith}
use bimble_os.Heap.{Heap, heap_free, block_size}
use bimble_os.Heap.Chunks.{Chunk, free, taken, frees}
use bimble_os.Heap.Kernel.{Kernel, kzalloc, kzalloc_lem, Allocated-end}
use bimble_os.Heap.Malloc.{IsHeap}

unfoldable pub free_blocks : List Chunk → ℕ
free_blocks [] = 0
free_blocks (free ∷ cs) = suc (free_blocks cs)
free_blocks (taken k ∷ cs) = free_blocks cs

-- The heap has at least `n` free blocks.
unfoldable pub HasRoom : Heap → ℕ → Type 0
HasRoom h n = (cs : List Chunk) × IsHeap h cs × (n ≤ free_blocks cs)

-- The first free block.
pub find_free :
    (cs : List Chunk) (n : ℕ)
    → suc n ≤ free_blocks cs
    → (pre : List Chunk) × (post : List Chunk) × (cs ≡ pre ++ (frees 1 ++ post))
unfolding free_blocks
find_free [] n le = absurd (omega arith)
find_free (free ∷ cs) n le = ([], cs, refl)
find_free (taken k ∷ cs) n le =
    let (pre, post, e) = find_free cs n le in (taken k ∷ pre, post, ap (λ l. taken k ∷ l) e)

pub free_blocks-taken :
    (pre post : List Chunk)
    → free_blocks (pre ++ (frees 1 ++ post)) ≡ suc (free_blocks (pre ++ (taken 0 ∷ post)))
unfolding free_blocks
free_blocks-taken [] post = refl
free_blocks-taken (free ∷ pre) post = ap suc (free_blocks-taken pre post)
free_blocks-taken (taken k ∷ pre) post = free_blocks-taken pre post

-- What an allocation of a block gives: an address that is not NULL, a heap with one free block fewer,
-- and the heap as it was once the address is freed.
pub record Fresh (h : Heap) (n : ℕ) (ptr : ℕ) (h' : Heap) : Type 0 where
  pub address : ptr ≢ 0
  pub room : HasRoom h' n
  pub undo : heap_free h' ptr ≡ h

-- `kzalloc` of at most a block succeeds while there is a free block.
pub kzalloc-Fresh :
    (s : Kernel) (size n : ℕ)
    → 0 < size
    → size ≤ block_size
    → HasRoom (s.heap) (suc n)
    → Fresh (s.heap) n (kzalloc size s).0 (kzalloc size s).1.heap
unfolding HasRoom
kzalloc-Fresh s size n pos small (cs, v, le) =
    let (pre, post, split) = find_free cs n le in
    let v' : IsHeap (s.heap) (pre ++ (frees 1 ++ post)) = rw split at v in
    let got = (kzalloc_lem s pre post 0 size 0 v' (omega arith) (omega arith)).0 in
    let place = (Allocated-end v' got).0 in
    let fewer = free_blocks-taken (got.pre) (got.post) in
    let same = ap free_blocks (split ∙ got.before) in
    record {
      address = λ e. omega (arith, place, e);
      room = (got.pre ++ (taken 0 ∷ got.post), got.after, omega (arith, fewer, same));
      undo = got.undo;
    }
