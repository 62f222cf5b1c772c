-- ===== src/Interrupts/Gates.antt =====
-- The descriptors of the interrupts.
use os_dev_mtk.Base.{
  ℕ, zero, suc, ◌+◌, ◌*◌, ◌^◌, ◌<◌, ◌≤◌, ◌≡◌, refl, ◌∙◌, sym, ap, some, List, arith, ◌==◌,
  if◌then◌else◌, length, get_elem?, set, replicate, length-replicate, length-set,
  get_elem?-set_self, get_elem?-set_ne, Bool-cases, inl, inr,
}
use os_dev_mtk.Base.Bits.{bit_and-low}
use os_dev_mtk.Interrupts.{
  IdtDescriptor, descriptor, cleared_descriptor, idt_set, set_loop, idt_init_descriptors,
}

-- How the processor reads a descriptor: the address, the segment, and the type of the gate with its
-- privilege.
pub record IsGate (d : IdtDescriptor) (addr selector type_attr : ℕ) : Type 0 where
  pub offset : d.low_offset + d.high_offset * 2 ^ 16 ≡ addr
  pub selector_eq : d.selector ≡ selector
  pub type_eq : d.type_attr ≡ type_attr
  pub reserved_eq : d.reserved ≡ 0

descriptor-IsGate :
    (addr selector type_attr : ℕ)
    → addr < 2 ^ 32
    → IsGate (descriptor addr selector type_attr) addr selector type_attr
descriptor-IsGate addr selector type_attr h = record {
  offset = omega (arith, bit_and-low 16 addr, h);
  selector_eq = refl;
  type_eq = refl;
  reserved_eq = refl;
}

-- The loop leaves what is before its first interrupt, and sets each from there on.
module _ (table : ℕ → ℕ) where
  length-set_loop : (n i : ℕ) (ds : List IdtDescriptor) → length (set_loop n i table ds) ≡ length ds
  unfolding set_loop idt_set
  length-set_loop zero i ds = refl
  length-set_loop (suc n) i ds =
      length-set_loop n (i + 1) (set ds i (descriptor (table i) 8 0x8e))
      ∙ length-set ds i (descriptor (table i) 8 0x8e)

  set_loop-before :
      (n i j : ℕ) (ds : List IdtDescriptor)
      → j < i
      → get_elem? (set_loop n i table ds) j ≡ get_elem? ds j
  unfolding set_loop idt_set
  set_loop-before zero i j ds h = refl
  set_loop-before (suc n) i j ds h =
      set_loop-before n (i + 1) j (set ds i (descriptor (table i) 8 0x8e)) (omega (arith, h))
      ∙ get_elem?-set_ne ds i j (descriptor (table i) 8 0x8e) (λ e. omega (arith, e, h))

  set_loop-at :
      (n i k : ℕ) (ds : List IdtDescriptor)
      → k < n
      → i + n ≤ length ds
      → get_elem? (set_loop n i table ds) (i + k) ≡ some (descriptor (table (i + k)) 8 0x8e)
  unfolding set_loop idt_set
  set_loop-at zero i k ds h l = absurd (omega (arith, h))
  set_loop-at (suc n) i zero ds h l =
      let here : i + 0 ≡ i = omega arith in
      rw here (
        set_loop-before n (i + 1) i (set ds i (descriptor (table i) 8 0x8e)) (omega arith)
        ∙ get_elem?-set_self ds i (descriptor (table i) 8 0x8e) (omega (arith, l)))
  set_loop-at (suc n) i (suc k) ds h l =
      let there : i + suc k ≡ i + 1 + k = omega arith in
      let size = length-set ds i (descriptor (table i) 8 0x8e) in
      rw there (
        set_loop-at n (i + 1) k (set ds i (descriptor (table i) 8 0x8e)) (omega (arith, h))
          (omega (arith, l, size)))

-- Which wrapper an interrupt goes to, and who may raise it by an instruction.
abbrev pub wrapper_of : (table : ℕ → ℕ) → (isr80h_wrapper i : ℕ) → ℕ
wrapper_of table isr80h_wrapper i = if i == 0x80 then isr80h_wrapper else table i

abbrev pub gate_of : (i : ℕ) → ℕ
gate_of i = if i == 0x80 then 0xee else 0x8e

gates_lem :
    (table : ℕ → ℕ) (isr80h_wrapper i : ℕ) (ds : List IdtDescriptor)
    → length ds ≡ 256
    → ((j : ℕ) → table j < 2 ^ 32)
    → isr80h_wrapper < 2 ^ 32
    → i < 256
    → (d : IdtDescriptor) × (get_elem?
          (set (set_loop 256 0 table ds) 0x80 (descriptor isr80h_wrapper 8 0xee))
          i
        ≡ some d)
      × IsGate d (wrapper_of table isr80h_wrapper i) 8 (gate_of i)
gates_lem table isr80h_wrapper i ds len small small' h =
    let all : List IdtDescriptor = set_loop 256 0 table ds in
    let size = length-set_loop table 256 0 ds in
    let fits : 0x80 < length all = omega (arith, size, len) in
    elim (Bool-cases (i == 0x80)) [
      | inl call ↦
          let same : i ≡ 0x80 = ground (arith, call) in
          (
            descriptor isr80h_wrapper 8 0xee,
            ap (get_elem? (set all 0x80 (descriptor isr80h_wrapper 8 0xee))) same
                ∙ get_elem?-set_self all 0x80 (descriptor isr80h_wrapper 8 0xee) fits,
            rw call (descriptor-IsGate isr80h_wrapper 8 0xee small'),
          )
      | inr other ↦
          let start : i ≡ 0 + i = omega arith in
          (
            descriptor (table i) 8 0x8e,
            get_elem?-set_ne all 0x80 i (descriptor isr80h_wrapper 8 0xee)
                  (λ e. ground (arith, other, e))
                ∙ ap (get_elem? all) start
                ∙ set_loop-at table 256 0 i ds h (omega (arith, len))
                ∙ ap (λ (k : ℕ). some (descriptor (table k) 8 0x8e)) (sym start),
            rw other (descriptor-IsGate (table i) 8 0x8e (small i)),
          )
    ]

-- After `idt_init`, with 32-bit addresses of the wrappers, each of the 256 descriptors is an interrupt
-- gate to its wrapper in the kernel's code segment; a program may raise interrupt 0x80 alone.
pub idt_init-IsGate :
    (table : ℕ → ℕ) (isr80h_wrapper i : ℕ)
    → ((j : ℕ) → table j < 2 ^ 32)
    → isr80h_wrapper < 2 ^ 32
    → i < 256
    → (d : IdtDescriptor) × (get_elem? (idt_init_descriptors table isr80h_wrapper) i ≡ some d)
      × IsGate d (wrapper_of table isr80h_wrapper i) 8 (gate_of i)
unfolding idt_init_descriptors idt_set
idt_init-IsGate table isr80h_wrapper i small small' h =
    gates_lem table isr80h_wrapper i (replicate 256 cleared_descriptor)
      (length-replicate 256 cleared_descriptor) small small' h
