-- ===== src/Idt/Descriptors.antt =====
-- What the descriptors and the callbacks are after idt_init.
use bimble_os.Common.{
  ℕ, zero, suc, ◌+◌, ◌*◌, ◌/◌, ◌%◌, ◌≤◌, ◌<◌, ◌≡◌, ◌≢◌, refl, ◌∙◌, true, Bool-cases, inl, inr, List,
  arith, length, get_or, replicate, length-set, length-replicate, get_or-set_self, get_or-set_ne,
  ◌==◌, leb, ltb, ◌&&◌, if◌then◌else◌, bit_and,
}
use bimble_os.Common.Bits.{bit_and-ones}
use bimble_os.Idt.{IdtDesc, cleared, desc_for, idt_set, set_all, init_descriptors, total_interrupts}

-- The address that the processor reads from a descriptor.
abbrev pub handler_address : IdtDesc → ℕ
handler_address d = d.offset_1 + 0x1_0000 * d.offset_2

-- The address in the descriptor of an interrupt.
abbrev pub handler : List IdtDesc → ℕ → ℕ
handler descriptors i = handler_address (get_or descriptors i cleared)

length-idt_set : (i address : ℕ) (ds : List IdtDesc) → length (idt_set i address ds) ≡ length ds
unfolding idt_set
length-idt_set i address ds = length-set ds i (desc_for address)

address_parts : (address : ℕ) → bit_and address 0xffff + 0x1_0000 * (address / 0x1_0000) ≡ address
address_parts address =
    rw
      (bit_and-ones 16 address (address / 0x1_0000) (address % 0x1_0000) (omega arith)
        (omega arith))
      (omega arith)

handler-idt_set :
    (i address j : ℕ) (ds : List IdtDesc)
    → i < length ds
    → handler (idt_set i address ds) j ≡ (if j == i then address else handler ds j)
unfolding idt_set
handler-idt_set i address j ds h = elim (Bool-cases (j == i)) [
  | inl same ↦
      let e : j ≡ i = ground arith in
      rw (same, e, get_or-set_self ds i (desc_for address) cleared h) (address_parts address)
  | inr other ↦
      let ne : i ≢ j = ground arith in
      rw (other, get_or-set_ne ds i j (desc_for address) cleared ne) refl
]

length-set_all :
    (table : ℕ → ℕ) (n i : ℕ) (ds : List IdtDesc) → length (set_all table n i ds) ≡ length ds
unfolding set_all
length-set_all table zero i ds = refl
length-set_all table (suc n) i ds =
    length-set_all table n (i + 1) (idt_set i (table i) ds) ∙ length-idt_set i (table i) ds

handler-set_all :
    (table : ℕ → ℕ) (n i j : ℕ) (ds : List IdtDesc)
    → i + n ≤ length ds
    → handler (set_all table n i ds) j
      ≡ (if leb i j && ltb j (i + n) then table j else handler ds j)
unfolding set_all
handler-set_all table zero i j ds h = ground arith
handler-set_all table (suc n) i j ds h =
    let ds' = idt_set i (table i) ds in
    handler-set_all table n (i + 1) j ds' (omega (arith, length-idt_set i (table i) ds))
    ∙ rw (handler-idt_set i (table i) j ds (omega arith)) (elim (Bool-cases (j == i)) [
      | inl same ↦ let e : j ≡ i = ground arith in rw e (ground arith)
      | inr other ↦ ground arith
    ])

all_interrupts : (i : ℕ) → i < 256 → (leb 0 i && ltb i (0 + 256)) ≡ true
all_interrupts i h = ground arith

-- After `idt_init` the descriptor of interrupt 0 has the address of `divide_by_zero`, that of interrupt 0x80 the
-- address of `isr80h_wrapper`, and that of every other interrupt its address of the pointer table.
pub init_descriptors_lem :
    (table : ℕ → ℕ) (divide_by_zero isr80h_wrapper i : ℕ)
    → i < total_interrupts
    → handler (init_descriptors table divide_by_zero isr80h_wrapper) i
      ≡ (if i == 0x80 then isr80h_wrapper else if i == 0 then divide_by_zero else table i)
unfolding init_descriptors
init_descriptors_lem table divide_by_zero isr80h_wrapper i h =
    let ds = replicate total_interrupts cleared in
    let all = set_all table total_interrupts 0 ds in
    let size : length all ≡ 256 = length-set_all table 256 0 ds ∙ length-replicate 256 cleared in
    let size0 : 0 + 256 ≤ length ds = omega (arith, length-replicate 256 cleared) in
    handler-idt_set 0x80 isr80h_wrapper i (idt_set 0 divide_by_zero all)
      (omega (arith, size, length-idt_set 0 divide_by_zero all))
    ∙ rw
        (
          handler-idt_set 0 divide_by_zero i all (omega (arith, size)),
          handler-set_all table 256 0 i ds size0,
          all_interrupts i h,
        )
        refl
