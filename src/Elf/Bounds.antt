-- ===== src/Elf/Bounds.antt =====
-- The bounds that elf_process_loaded computes hold every segment that is loaded.
use bimble_os.Common.{
  ℕ, zero, suc, ◌+◌, ◌≤◌, ◌<◌, ◌≡◌, refl, sym, ◌∙◌, true, inl, inr, arith, ◌==◌, Bool-cases,
}
use mathlib.Core.Path.{ap₂, subst}
use bimble_os.Common.Status.{done}
use bimble_os.Common.Word.{word_size}
use bimble_os.Memory.{Mem}
use bimble_os.Elf.{
  ElfFile, Elf32Phdr, pt_load, e_phnum, phdr_at, elf_process_phdr_pt_load, elf_process_pheader,
  elf_program_header, process_headers, elf_process_pheaders, elf_process_loaded,
  elf_validate_loaded,
}

-- A segment that starts behind address 0 and does not go past the last.
abbrev pub Fits : Elf32Phdr → Type 0
Fits phdr = (0 < phdr.p_vaddr) × (phdr.p_vaddr + phdr.p_filesz < word_size)

-- The segment lies between the virtual addresses of the file.
abbrev pub Covers : ElfFile → Elf32Phdr → Type 0
Covers file phdr =
    (0 < file.virtual_base_address)
    × (file.virtual_base_address ≤ phdr.p_vaddr)
    × (phdr.p_vaddr + phdr.p_filesz ≤ file.virtual_end_address)

load-Covers :
    (file : ElfFile) (phdr : Elf32Phdr)
    → Fits phdr
    → Covers (elf_process_phdr_pt_load file phdr) phdr
unfolding elf_process_phdr_pt_load
load-Covers file phdr fits = (ground arith, ground arith, ground arith)

load-Covers_old :
    (file : ElfFile) (phdr old : Elf32Phdr)
    → Fits phdr
    → Covers file old
    → Covers (elf_process_phdr_pt_load file phdr) old
unfolding elf_process_phdr_pt_load
load-Covers_old file phdr old fits covers = (ground arith, ground arith, ground arith)

-- The program header of an index, and a header of a segment that is loaded.
abbrev pub header_at : Mem → ℕ → ℕ → Elf32Phdr
header_at m image i = phdr_at m (elf_program_header m image i)

header-Covers :
    (file : ElfFile) (phdr : Elf32Phdr)
    → phdr.p_type ≡ pt_load
    → Fits phdr
    → Covers (elf_process_pheader file phdr) phdr
unfolding elf_process_pheader
header-Covers file phdr loads fits =
    let e : (phdr.p_type == pt_load) ≡ true = ground arith in rw e (load-Covers file phdr fits)

header-Covers_old :
    (file : ElfFile) (phdr old : Elf32Phdr)
    → (phdr.p_type ≡ pt_load → Fits phdr)
    → Covers file old
    → Covers (elf_process_pheader file phdr) old
unfolding elf_process_pheader
header-Covers_old file phdr old fits covers = elim (Bool-cases (phdr.p_type == pt_load)) [
  | inl e ↦ rw e (load-Covers_old file phdr old (fits (ground arith)) covers)
  | inr e ↦ rw e covers
]

-- The image stays where it is.
header_image :
    (file : ElfFile) (phdr : Elf32Phdr)
    → (elf_process_pheader file phdr).elf_memory ≡ file.elf_memory
unfolding elf_process_pheader elf_process_phdr_pt_load
header_image file phdr = ground arith

module _ (m : Mem) (image : ℕ) where
  AllFit : ℕ → ℕ → Type 0
  AllFit i n =
      (j : ℕ)
      → i ≤ j
      → j < i + n
      → (header_at m image j).p_type ≡ pt_load
      → Fits (header_at m image j)

  loop-Covers_old :
      (n i : ℕ) (file : ElfFile) (old : Elf32Phdr)
      → file.elf_memory ≡ image
      → AllFit i n
      → Covers file old
      → Covers (process_headers n i m file) old
  unfolding process_headers AllFit
  loop-Covers_old zero i file old same fits covers = covers
  loop-Covers_old (suc n) i file old same fits covers =
      loop-Covers_old n (i + 1) (elf_process_pheader file (header_at m file.elf_memory i)) old
        (header_image file (header_at m file.elf_memory i) ∙ same)
        (λ j lo hi. fits j (omega arith) (omega arith))
        (header-Covers_old file (header_at m file.elf_memory i) old
          (rw same (fits i (omega arith) (omega arith))) covers)

  loop-Covers :
      (n i j : ℕ) (file : ElfFile)
      → file.elf_memory ≡ image
      → AllFit i n
      → i ≤ j
      → j < i + n
      → (header_at m image j).p_type ≡ pt_load
      → Covers (process_headers n i m file) (header_at m image j)
  unfolding process_headers AllFit
  loop-Covers zero i j file same fits lo hi loads = absurd (omega arith)
  loop-Covers (suc n) i j file same fits lo hi loads =
      let next = header_image file (header_at m file.elf_memory i) ∙ same in
      let later : AllFit (i + 1) n = λ k l u. fits k (omega arith) (omega arith) in
      elim (Bool-cases (i == j)) [
        | inl e ↦
            let here : i ≡ j = ground arith in
            loop-Covers_old n (i + 1) (elf_process_pheader file (header_at m file.elf_memory i))
              (header_at m image j) next later
              (subst (λ h. Covers (elf_process_pheader file h) (header_at m image j))
                (sym (ap₂ (header_at m) same here))
                (header-Covers file (header_at m image j) loads (fits j lo hi loads)))
        | inr e ↦
            loop-Covers n (i + 1) j (elf_process_pheader file (header_at m file.elf_memory i)) next
              later (ground arith) (omega arith) loads
      ]

validated :
    (m : Mem) (file : ElfFile)
    → elf_validate_loaded m file.elf_memory ≡ done
    → elf_process_loaded m file ≡ (done, elf_process_pheaders m file)
unfolding elf_process_loaded
validated m file valid = rw (elf_process_loaded, valid) refl

-- Of an image that passes the checks of `elf_validate_loaded`, and of which every segment to be loaded
-- starts behind address 0 and ends before 2 ^ 32, `elf_process_loaded` succeeds, and each of these
-- segments lies from the virtual base address on and before the virtual end address that it leaves.
pub elf_process_loaded_lem :
    (m : Mem) (file : ElfFile) (j : ℕ)
    → elf_validate_loaded m file.elf_memory ≡ done
    → ((i : ℕ)
        → i < e_phnum m file.elf_memory
        → (header_at m file.elf_memory i).p_type ≡ pt_load
        → Fits (header_at m file.elf_memory i))
    → j < e_phnum m file.elf_memory
    → (header_at m file.elf_memory j).p_type ≡ pt_load
    → ((elf_process_loaded m file).0 ≡ done)
      × Covers (elf_process_loaded m file).1 (header_at m file.elf_memory j)
unfolding elf_process_pheaders AllFit
elf_process_loaded_lem m file j valid fits lt loads = rw (validated m file valid) (
  refl,
  loop-Covers m file.elf_memory (e_phnum m file.elf_memory) 0 j file refl
      (λ i lo hi. fits i (omega arith)) (omega arith) (omega arith) loads,
)
