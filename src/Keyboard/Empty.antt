-- ===== src/Keyboard/Empty.antt =====
-- The buffer of a new process, which is an empty queue.
use bimble_os.Common.{
  ℕ, zero, suc, ◌+◌, ◌%◌, ◌≡◌, refl, [], arith, get_or, replicate, length-replicate,
}
use bimble_os.Keyboard.{KeyboardBuffer}
use bimble_os.Keyboard.Queue.{IsQueue}

abbrev pub empty_buffer : KeyboardBuffer
empty_buffer = record { buffer = replicate 1024 0; tail = 0; head = 0 }

pub get_or-replicate : (n i : ℕ) → get_or (replicate {A = ℕ} n 0) i 0 ≡ 0
get_or-replicate zero i = refl
get_or-replicate (suc n) zero = refl
get_or-replicate (suc n) (suc i) = get_or-replicate n i

pub empty-IsQueue : IsQueue empty_buffer []
empty-IsQueue = record {
  size = length-replicate {A = ℕ} 1024 0;
  fits = omega arith;
  ends = refl;
  word = omega arith;
  chars = tt;
  cells = λ i h. get_or-replicate 1024 ((0 + i) % 1024);
}
