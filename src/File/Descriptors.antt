-- ===== src/File/Descriptors.antt =====
-- What a file descriptor stands for between its `fopen` and its `fclose`.
use bimble_os.Common.{
  ℕ, zero, suc, ◌+◌, ◌-◌, ◌<◌, inl, inr, ◌≡◌, ◌≢◌, refl, sym, ap, ◌∙◌, false, Option, none, some,
  List, [], ◌∷◌, ◌++◌, arith, length, get_or, replicate, get_or-append, set-append, ◌==◌, ==_ne,
  leb, if◌then◌else◌,
}
use bimble_os.Common.Status.{Result, Status, Result-cases, done, ok, err, eio, enomem}
use bimble_os.Heap.Allocator.{Allocator}
use bimble_os.Disk.{DiskPtr, the_disk, disk_get}
use bimble_os.PathParser.{PathRoot, pathparser_parse}
use bimble_os.File.{
  FileDescriptor, Files, FdTable, Filesystem, FileMode, mode_read, mode_write, mode_append,
  mode_invalid, file_get_mode_by_string, file_new_descriptor, file_get_descriptor, descriptor_size,
  file_free_descriptor, open_file, open_mode, open_root, max_file_descriptors, fopen, fs_init,
  fs_resolve, fclose,
}
use bimble_os.File.Slots.{AllUsed, first_free_lem, first_free-AllUsed}

-- The file system opens the file of the path: the path's first part and those behind it, its mode, the
-- state behind the parse, the private data and the state that the file system returns.
pub record Opens {W P : Type 0} (s : Files W P) (filename mode_str : List ℕ) (fs : Filesystem W P)
    (private : P) (world' : W) : Type 0 where
  pub part : List ℕ
  pub parts : List (List ℕ)
  pub mode : FileMode
  pub behind : W
  pub parsed :
      pathparser_parse s.heap filename s.world
      ≡ (some (record { drive_no = 0; first = part ∷ parts }), behind)
  pub on_disk : s.disk_filesystem ≡ some fs
  pub with_mode : file_get_mode_by_string mode_str ≡ mode
  pub valid : mode ≢ mode_invalid
  pub opened : fs.fs_open the_disk (part ∷ parts) mode behind ≡ (ok private, world')

module _ {W P : Type 0} where
  abbrev pub descriptor : ℕ → ℕ → Filesystem W P → P → FileDescriptor W P
  descriptor address fd fs private = record {
    address = address;
    index = fd;
    filesystem = fs;
    private_data = private;
    disk = the_disk;
  }

  -- The descriptor's place in the table: NULL where it has no memory.
  abbrev pub slot : ℕ → ℕ → Filesystem W P → P → Option (FileDescriptor W P)
  slot address fd fs private =
      if address == 0 then none else some (descriptor address fd fs private)

  -- The state with the table and the file systems' state replaced.
  abbrev pub with_table : Files W P → FdTable W P → W → Files W P
  with_table s t w = record s { file_descriptors = t; world = w }

  abbrev pub with_systems : Files W P → List (Option (Filesystem W P)) → Files W P
  with_systems s systems = record s {
    filesystems = systems;
    file_descriptors = replicate max_file_descriptors none;
  }

  open_mode-valid :
      (fs : Filesystem W P) (path : List (List ℕ)) (mode : FileMode) (s : Files W P)
      → mode ≢ mode_invalid
      → open_mode fs the_disk path mode s ≡ open_file fs the_disk path mode s
  unfolding open_mode
  open_mode-valid fs path mode_read s h = refl
  open_mode-valid fs path mode_write s h = refl
  open_mode-valid fs path mode_append s h = refl
  open_mode-valid fs path mode_invalid s h = absurd (h refl)

  open_root-valid :
      (s : Files W P) (fs : Filesystem W P) (part : List ℕ) (parts : List (List ℕ))
      (mode_str : List ℕ) (mode : FileMode)
      → s.disk_filesystem ≡ some fs
      → file_get_mode_by_string mode_str ≡ mode
      → mode ≢ mode_invalid
      → open_root (record { drive_no = 0; first = part ∷ parts }) mode_str s
        ≡ open_file fs the_disk (part ∷ parts) mode s
  unfolding open_root disk_get
  open_root-valid s fs part parts mode_str mode on_disk with_mode valid =
      simp (on_disk, with_mode) (open_mode-valid fs (part ∷ parts) mode s valid)

  open_root_lem :
      {s : Files W P} {filename mode_str : List ℕ} {fs : Filesystem W P} {private : P} {w : W}
      → (o : Opens s filename mode_str fs private w)
      → open_root
          (record { drive_no = 0; first = o.part ∷ o.parts })
          mode_str
          (record s { world = o.behind })
        ≡ open_file fs the_disk (o.part ∷ o.parts) o.mode (record s { world = o.behind })
  open_root_lem {s = s} {mode_str = mode_str} {fs = fs} o =
      open_root-valid (record s { world = o.behind }) fs (o.part) (o.parts) mode_str (o.mode)
        o.on_disk o.with_mode o.valid

  -- What `fopen` makes of the result for the parsed path.
  abbrev returned_fd : Result ℕ × Files W P → ℕ × Files W P
  returned_fd r = let (res, s') = r in elim res [ ok fd ↦ (fd, s') | err e ↦ (0, s') ]

  abbrev behind_parse : Files W P → List ℕ → Option PathRoot × W → ℕ × Files W P
  behind_parse s mode_str r =
      let (root_path, w) = r in
      elim root_path [
        | none ↦ (0, record s { world = w })
        | some root ↦ returned_fd (open_root root mode_str (record s { world = w }))
      ]

  fopen_parsed :
      {s : Files W P} {filename mode_str : List ℕ} {fs : Filesystem W P} {private : P} {w : W}
      → (o : Opens s filename mode_str fs private w)
      → fopen filename mode_str s
        ≡ returned_fd (
            open_root
              (record { drive_no = 0; first = o.part ∷ o.parts })
              mode_str
              (record s { world = o.behind }))
  unfolding fopen
  fopen_parsed {s = s} {mode_str = mode_str} o = ap (behind_parse s mode_str) o.parsed

  -- The state behind the allocation of a descriptor.
  abbrev pub with_slot : Files W P → Filesystem W P → P → W → FdTable W P → FdTable W P → Files W P
  with_slot s fs private w pre post =
      let (address, w') = s.heap.allocate descriptor_size w in
      with_table s (pre ++ (slot address (length pre + 1) fs private ∷ post)) w'

  new_descriptor :
      (heap : Allocator W) (fs : Filesystem W P) (private : P) (w : W)
      (table pre post : FdTable W P)
      → table ≡ pre ++ (none ∷ post)
      → AllUsed pre
      → file_new_descriptor heap fs private the_disk table w ≡ (
        ok (
          length pre + 1,
          pre ++ (slot (heap.allocate descriptor_size w).0 (length pre + 1) fs private ∷ post),
        ),
        (heap.allocate descriptor_size w).1,
      )
  unfolding file_new_descriptor
  new_descriptor heap fs private w table pre post split used =
      let start : 0 + length pre ≡ length pre = omega arith in
      let (address, w') = heap.allocate descriptor_size w in
      let put =
        set-append pre none post (length pre) (slot address (length pre + 1) fs private) refl in
      rw (split, file_new_descriptor, first_free_lem pre post 0 used, start, split)
        (ap (λ t. (ok (length pre + 1, t), w')) put)

  -- What `open_file` makes of the result of the file system's `open`, and of a descriptor.
  abbrev in_table : Files W P → Result (ℕ × FdTable W P) × W → Result ℕ × Files W P
  in_table s r =
      let (made, w) = r in
      elim made [
        | err e ↦ (err e, record s { world = w })
        | ok (index, descriptors) ↦
            (ok index, record s { file_descriptors = descriptors; world = w })
      ]

  abbrev behind_open : Files W P → Filesystem W P → Result P × W → Result ℕ × Files W P
  behind_open s fs r =
      let (opened, w) = r in
      elim opened [
        | err e ↦ (err e, record s { world = w })
        | ok private ↦
            in_table s (file_new_descriptor s.heap fs private the_disk s.file_descriptors w)
      ]

  opened_file :
      {s : Files W P} {filename mode_str : List ℕ} {fs : Filesystem W P} {private : P} {w : W}
      (pre post : FdTable W P)
      → (o : Opens s filename mode_str fs private w) → s.file_descriptors ≡ pre ++ (none ∷ post)
      → AllUsed pre
      → open_file fs the_disk (o.part ∷ o.parts) o.mode (record s { world = o.behind })
        ≡ (ok (length pre + 1), with_slot s fs private w pre post)
  unfolding open_file
  opened_file {s = s} {fs = fs} {private = private} {w = w} pre post o table used =
      ap (behind_open s fs) o.opened
      ∙ ap (in_table s) (new_descriptor s.heap fs private w s.file_descriptors pre post table used)

  pub fopen_eq :
      {s : Files W P} {filename mode_str : List ℕ} {fs : Filesystem W P} {private : P} {w : W}
      (pre post : FdTable W P)
      → Opens s filename mode_str fs private w
      → s.file_descriptors ≡ pre ++ (none ∷ post)
      → AllUsed pre
      → fopen filename mode_str s ≡ (length pre + 1, with_slot s fs private w pre post)
  unfolding fopen
  fopen_eq pre post o table used =
      fopen_parsed o
      ∙ ap returned_fd (open_root_lem o)
      ∙ ap returned_fd (opened_file pre post o table used)

  pub got :
      (address : ℕ) (pre post : FdTable W P) (fs : Filesystem W P) (private : P)
      → length pre < 511
      → file_get_descriptor
          (length pre + 1)
          (pre ++ (some (descriptor address (length pre + 1) fs private) ∷ post))
        ≡ some (descriptor address (length pre + 1) fs private)
  unfolding file_get_descriptor
  got address pre post fs private room =
      let low : (length pre + 1 == 0) ≡ false = ground arith in
      let high : leb 512 (length pre + 1) ≡ false = ground arith in
      rw (low, high)
        (get_or-append pre (some (descriptor address (length pre + 1) fs private)) post
          (length pre + 1 - 1) none (omega arith))

  pub closed :
      (address : ℕ) (s : Files W P) (fs : Filesystem W P) {private : P} {w w' : W}
      (pre post : FdTable W P)
      → length pre < 511
      → fs.close private w ≡ (done, w')
      → fclose
          (length pre + 1)
          (with_table s (pre ++ (some (descriptor address (length pre + 1) fs private) ∷ post)) w)
        ≡ (done, with_table s (pre ++ (none ∷ post)) (s.heap.release address w'))
  unfolding fclose file_free_descriptor
  closed address s fs {private = private} {w = w} {w' = w'} pre post room closes =
      let cleared =
        set-append pre (some (descriptor address (length pre + 1) fs private)) post
          (length pre + 1 - 1) none (omega arith) in
      rw
        (
          fclose,
          got address pre post fs private room,
          closes,
          file_free_descriptor,
          cleared,
          closes,
        )
        refl

  -- The place of a descriptor that has memory.
  with_slot-some :
      (s : Files W P) (fs : Filesystem W P) (private : P) (w : W) (pre post : FdTable W P)
      → (s.heap.allocate descriptor_size w).0 ≢ 0
      → with_slot s fs private w pre post
        ≡ with_table s
            (pre
              ++ (some
                    (descriptor (s.heap.allocate descriptor_size w).0 (length pre + 1) fs private)
                  ∷ post))
            (s.heap.allocate descriptor_size w).1
  with_slot-some s fs private w pre post live =
      rw (==_ne (s.heap.allocate descriptor_size w).0 0 live) refl

  pub fopen_live :
      {s : Files W P} {filename mode_str : List ℕ} {fs : Filesystem W P} {private : P} {w : W}
      (pre post : FdTable W P)
      → Opens s filename mode_str fs private w
      → s.file_descriptors ≡ pre ++ (none ∷ post)
      → AllUsed pre
      → (s.heap.allocate descriptor_size w).0 ≢ 0
      → fopen filename mode_str s ≡ (
        length pre + 1,
        with_table s
            (pre
              ++ (some
                    (descriptor (s.heap.allocate descriptor_size w).0 (length pre + 1) fs private)
                  ∷ post))
            (s.heap.allocate descriptor_size w).1,
      )
  fopen_live {s = s} {fs = fs} {private = private} {w = w} pre post o table used live =
      fopen_eq pre post o table used
      ∙ ap (λ t. (length pre + 1, t)) (with_slot-some s fs private w pre post live)

  -- Where the path is parsed to a file of drive 0, the disk has a file system that opens the file, a
  -- place of the table is free, and the descriptor's memory can be allocated, `fopen` returns the
  -- number of the first such place, counted from 1. A descriptor below 512 stands for the file from
  -- then on; and if the file system can close the file, `fclose` of it succeeds, gives back the
  -- table as it was, and frees the descriptor's memory.
  pub fopen_lem :
      {s : Files W P} {filename mode_str : List ℕ} {fs : Filesystem W P} {private : P} {w w' : W}
      (pre post : FdTable W P)
      → Opens s filename mode_str fs private w
      → s.file_descriptors ≡ pre ++ (none ∷ post)
      → AllUsed pre
      → length pre < 511
      → (s.heap.allocate descriptor_size w).0 ≢ 0
      → fs.close private (s.heap.allocate descriptor_size w).1 ≡ (done, w')
      → ((fopen filename mode_str s).0 ≡ length pre + 1)
        × (file_get_descriptor (length pre + 1) (fopen filename mode_str s).1.file_descriptors
            ≡ some (descriptor (s.heap.allocate descriptor_size w).0 (length pre + 1) fs private))
        × (fclose (length pre + 1) (fopen filename mode_str s).1
            ≡ (done, record s { world = s.heap.release (s.heap.allocate descriptor_size w).0 w' }))
  fopen_lem {s = s} {fs = fs} {private = private} {w = w} {w' = w'} pre post o table used room live
        closes =
      let address = (s.heap.allocate descriptor_size w).0 in
      rw (fopen_live pre post o table used live) (
        refl,
        got address pre post fs private room,
        closed address s fs pre post room closes
            ∙ ap (λ t. (done, with_table s t (s.heap.release address w'))) (sym table),
      )

  -- Where every place of the table but the last is in use, `fopen` returns the descriptor 512, which
  -- stands for no file: `fclose` of it fails with EIO and changes nothing, so that the place stays
  -- in use.
  pub fopen_last :
      {s : Files W P} {filename mode_str : List ℕ} {fs : Filesystem W P} {private : P} {w : W}
      (pre : FdTable W P)
      → Opens s filename mode_str fs private w
      → s.file_descriptors ≡ pre ++ (none ∷ [])
      → AllUsed pre
      → length pre ≡ 511
      → ((fopen filename mode_str s).0 ≡ 512)
        × (fclose 512 (fopen filename mode_str s).1 ≡ (err eio, (fopen filename mode_str s).1))
  unfolding fclose file_get_descriptor
  fopen_last {s = s} {fs = fs} pre o table used full =
      rw (fopen_eq pre [] o table used) (omega (arith, full), refl)

  -- Where the file system opens the file but every place of the table is in use, `fopen` returns 0
  -- and keeps the table, and what the file system has opened stays open.
  pub fopen_full :
      {s : Files W P} {filename mode_str : List ℕ} {fs : Filesystem W P} {private : P} {w : W}
      → Opens s filename mode_str fs private w
      → AllUsed (s.file_descriptors)
      → fopen filename mode_str s ≡ (0, record s { world = w })
  unfolding fopen open_file file_new_descriptor
  fopen_full {s = s} {fs = fs} {private = private} {w = w} o used =
      let full : file_new_descriptor s.heap fs private the_disk s.file_descriptors w
          ≡ (err enomem, w) =
        rw (file_new_descriptor, first_free-AllUsed (s.file_descriptors) 0 used) refl in
      rw (fopen_parsed o, open_root_lem o)
        (ap (λ r. returned_fd (behind_open s fs r)) o.opened
          ∙ ap (λ r. returned_fd (in_table s r)) full)

  fs_resolve-none :
      (disk : DiskPtr) (n : ℕ) (w : W)
      → fs_resolve {W = W} {P = P} disk (replicate n none) w ≡ (none, w)
  unfolding fs_resolve
  fs_resolve-none disk zero w = refl
  fs_resolve-none disk (suc n) w = fs_resolve-none disk n w

  get_or-none :
      (n i : ℕ) → get_or {A = Option (FileDescriptor W P)} (replicate n none) i none ≡ none
  get_or-none zero i = refl
  get_or-none (suc n) zero = refl
  get_or-none (suc n) (suc i) = get_or-none n i

  no_file : (n fd : ℕ) → file_get_descriptor {W = W} {P = P} fd (replicate n none) ≡ none
  unfolding file_get_descriptor
  no_file n fd = rw (get_or-none n (fd - 1)) (ground arith)

  -- What `fs_resolve` gives where `fat16` is the only file system.
  abbrev pub only : Filesystem W P → Status × W → Option (Filesystem W P) × W
  only fat16 (ok _, w) = (some fat16, w)
  only fat16 (err e, w) = (none, w)

  resolve_only :
      (fat16 : Filesystem W P) (disk : DiskPtr) (w : W) (n : ℕ)
      → fs_resolve disk (some fat16 ∷ replicate n none) w ≡ only fat16 (fat16.resolve disk w)
  unfolding fs_resolve
  resolve_only fat16 disk w n = elim (Result-cases (fat16.resolve disk w).0) [
    | inl (u, e) ↦ rw e refl
    | inr (c, e) ↦ rw (e, fs_resolve-none disk n (fat16.resolve disk w).1) refl
  ]

  -- `fs_init` empties both tables and puts the file system in: `fs_resolve` then finds it exactly for
  -- the disks that it takes for its own, after asking it once, and no descriptor stands for a file.
  pub fs_init_lem :
      (fat16 : Filesystem W P) (s : Files W P) (disk : DiskPtr) (w : W) (fd : ℕ)
      → (s' : Files W P) × (fs_init fat16 s ≡ some s')
        × (fs_resolve disk s'.filesystems w ≡ only fat16 (fat16.resolve disk w))
        × (file_get_descriptor fd s'.file_descriptors ≡ none)
  unfolding fs_init file_get_descriptor
  fs_init_lem fat16 s disk w fd = (
    with_systems s (some fat16 ∷ replicate 11 none),
    refl,
    resolve_only fat16 disk w 11,
    no_file max_file_descriptors fd,
  )
