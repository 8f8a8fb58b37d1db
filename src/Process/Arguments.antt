-- ===== src/Process/Arguments.antt =====
-- task/process.c: the arguments that a process is given. A list of `struct CommandArgument` is the list
-- of their texts, each the bytes before the 0 in the 512 of `argument`.
use bimble_os.Common.{
  ℕ, zero, suc, Bool, ◌+◌, ◌<◌, ◌≡◌, refl, ◌∙◌, ◌⊎◌, inl, inr, true, false, Bool-cases, List, [],
  ◌∷◌, length, arith, ◌==◌, if◌then◌else◌,
}
use bimble_os.Common.Status.{Status, done, err, eio, enomem}
use bimble_os.Common.Word.{word_size, add32, mul32}
use bimble_os.Elf.Load.{store_bytes}
use bimble_os.Heap.Kernel.{Kernel}
use bimble_os.Memory.{Mem, store32}
use bimble_os.Process.{Process, process_malloc}
use bimble_os.Str.{strncpy}

-- sizeof(current->argument).
abbrev pub argument_size : ℕ
argument_size = 512

pub record ProcessArguments : Type 0 where
  pub argc : ℕ
  pub argv : ℕ

-- A process's `arguments` beside the rest of it.
abbrev pub Argued : Type 0
Argued = ProcessArguments × (Process × Kernel)

-- The loop with the count `i`.
unfoldable count_from : ℕ → List (List ℕ) → ℕ
count_from i [] = i
count_from i (current ∷ rest) = count_from (add32 i 1) rest

unfoldable pub process_count_command_arguments : List (List ℕ) → ℕ
unfolding count_from
process_count_command_arguments root_argument = count_from 0 root_argument

-- The `n` bytes at an address.
abbrev bytes_from : ℕ → ℕ → Mem → List ℕ
bytes_from zero a m = []
bytes_from (suc n) a m = m a ∷ bytes_from n (add32 a 1) m

-- `strncpy` of an argument to its copy, and the copy's address in `argv`.
abbrev put_argument : ℕ → ℕ → ℕ → List ℕ → Kernel → Kernel
put_argument argv i argument_str argument k =
    let copy = strncpy (bytes_from argument_size argument_str (k.mem)) argument argument_size in
    record k {
      mem = store32 (store_bytes argument_str copy (k.mem)) (add32 argv (mul32 4 i)) argument_str;
    }

-- The loop from index `i` on. `false` is the way out with ENOMEM.
unfoldable copy_arguments : ℕ → ℕ → List (List ℕ) → Process × Kernel → Bool × (Process × Kernel)
copy_arguments argv i [] s = (true, s)
copy_arguments argv i (argument ∷ rest) s =
    let (argument_str, (process, k)) = process_malloc argument_size s in
    let copied =
      copy_arguments argv (add32 i 1) rest (process, put_argument argv i argument_str argument k) in
    if argument_str == 0 then (false, (process, k)) else copied

unfoldable pub process_inject_arguments : List (List ℕ) → Argued → Status × Argued
unfolding process_count_command_arguments copy_arguments
process_inject_arguments root_argument (arguments, s) =
    let argc = process_count_command_arguments root_argument in
    let (argv, s') = process_malloc (mul32 4 argc) s in
    let (copied, s'') = copy_arguments argv 0 root_argument s' in
    let injected : Status × Argued =
      if copied
      then (done, (record { argc = argc; argv = argv }, s''))
      else (err enomem, (arguments, s'')) in
    if argc == 0
    then (err eio, (arguments, s))
    else if argv == 0
    then (err enomem, (arguments, s'))
    else injected

-- What `argc` and `argv` of the caller become.
unfoldable pub process_get_arguments : Argued → ℕ × ℕ
process_get_arguments (arguments, s) = (arguments.argc, arguments.argv)

count_from_lem :
    (i : ℕ) (arguments : List (List ℕ))
    → i + length arguments < word_size
    → count_from i arguments ≡ i + length arguments
unfolding count_from
count_from_lem i [] h = omega arith
count_from_lem i (a ∷ arguments) h =
    let next : add32 i 1 ≡ i + 1 = omega (arith, h) in
    rw next (count_from_lem (i + 1) arguments (omega (arith, h)) ∙ omega arith)

-- Of fewer than 2 ^ 32 arguments: where `process_inject_arguments` succeeds, there is at least one and
-- `argc` is their number, and where it fails, the arguments that the process had stay.
process_inject_arguments_lem :
    (arguments : List (List ℕ)) (before : ProcessArguments) (s : Process × Kernel)
    → length arguments < word_size
    → let (status, (after, s')) = process_inject_arguments arguments (before, s) in
      ((status ≡ done) × (0 < length arguments) × (after.argc ≡ length arguments))
      ⊎ (((status ≡ err eio) ⊎ (status ≡ err enomem)) × (after ≡ before))
unfolding process_inject_arguments process_count_command_arguments
process_inject_arguments_lem arguments before s h =
    let count : count_from 0 arguments ≡ length arguments =
      count_from_lem 0 arguments (omega (arith, h)) ∙ omega arith in
    let (argv, s') = process_malloc (mul32 4 (count_from 0 arguments)) s in
    elim (Bool-cases (count_from 0 arguments == 0)) [
      | inl empty ↦ rw empty (inr (inl refl, refl))
      | inr some_argument ↦ elim (Bool-cases (argv == 0)) [
        | inl no_room ↦ rw (some_argument, no_room) (inr (inr refl, refl))
        | inr room ↦ elim (Bool-cases (copy_arguments argv 0 arguments s').0) [
          | inl copied ↦ rw (some_argument, room, copied) (inl (refl, ground (arith, count), count))
          | inr full ↦ rw (some_argument, room, full) (inr (inr refl, refl))
        ]
      ]
    ]
