-- ===== src/Interrupts/Fatal.antt =====
-- The exceptions that idt.c does not resume.
use ga_os.Base.{
  ℕ, ◌≤◌, ◌<◌, ◌≡◌, ◌≢◌, ◌⊎◌, inl, inr, refl, arith, ◌==◌, ◌||◌, ltb, true, false, Bool-cases,
  ==→eq, ◌∙◌,
}
use ga_os.Elf.{Image}
use ga_os.Interrupts.{
  Interrupt, StackOwner, Ending, halted, null_dereference, page_fault, exception, in_stack,
  handle_page_fault, isr_handler,
}
use ga_os.Interrupts.Stack.{IsStackFault}

in_stack-IsStackFault :
    (task : StackOwner) (i : Interrupt)
    → i.interrupt_number ≡ 0xE
    → in_stack task i ≡ true
    → IsStackFault task i
unfolding in_stack
in_stack-IsStackFault task i vector e = record {
  vector = vector;
  user = λ kernel. ground (arith, e, kernel);
  above = ground (arith, e);
  below = ground (arith, e);
}

handle_page_fault_other :
    (hhdm_offset : ℕ) (task : StackOwner) (i : Interrupt) (s : Image)
    → in_stack task i ≡ false
    → ((i.cr2 < 0x1000) × (handle_page_fault hhdm_offset task i s ≡ null_dereference i.rip))
      ⊎ ((0x1000 ≤ i.cr2)
          × (handle_page_fault hhdm_offset task i s ≡ page_fault i.error i.cr2 i.rip))
unfolding handle_page_fault
handle_page_fault_other hhdm_offset task i s e = elim (Bool-cases (ltb i.cr2 0x1000)) [
  | inl low ↦ inl (ground (arith, low), rw (e, low) refl)
  | inr high ↦ inr (ground (arith, high), rw (e, high) refl)
]

-- How an exception ends that is no fault of a stack.
pub data Fatal (i : Interrupt) : Ending → Type 0 where
  machine : (i.interrupt_number ≡ 2) ⊎ (i.interrupt_number ≡ 8) → Fatal i halted
  null : i.interrupt_number ≡ 0xE → i.cr2 < 0x1000 → Fatal i (null_dereference i.rip)
  fault : i.interrupt_number ≡ 0xE → 0x1000 ≤ i.cr2 → Fatal i (page_fault i.error i.cr2 i.rip)
  other :
      i.interrupt_number ≢ 0xE
      → i.interrupt_number ≢ 2
      → i.interrupt_number ≢ 8
      → Fatal i (exception i.interrupt_number i.rip)

isr_handler-halted :
    (hhdm_offset : ℕ) (task : StackOwner) (i : Interrupt) (s : Image)
    → ((i.interrupt_number == 2) || (i.interrupt_number == 8)) ≡ true
    → isr_handler hhdm_offset task i s ≡ halted
unfolding isr_handler
isr_handler-halted hhdm_offset task i s e = rw e refl

isr_handler-handle_page_fault :
    (hhdm_offset : ℕ) (task : StackOwner) (i : Interrupt) (s : Image)
    → i.interrupt_number ≡ 0xE
    → isr_handler hhdm_offset task i s ≡ handle_page_fault hhdm_offset task i s
unfolding isr_handler
isr_handler-handle_page_fault hhdm_offset task i s e = ground (arith, e)

isr_handler-exception :
    (hhdm_offset : ℕ) (task : StackOwner) (i : Interrupt) (s : Image)
    → i.interrupt_number < 0x20
    → ((i.interrupt_number == 2) || (i.interrupt_number == 8)) ≡ false
    → (i.interrupt_number == 0xE) ≡ false
    → isr_handler hhdm_offset task i s ≡ exception i.interrupt_number i.rip
unfolding isr_handler
isr_handler-exception hhdm_offset task i s lt machine_free no_fault =
    ground (arith, machine_free, no_fault)

-- No other exception is resumed: below vector 0x20, all but a fault of a stack halt the machine or panic, and which
-- panic it is follows from the vector and from the address of a page fault.
pub isr_handler-Fatal :
    (hhdm_offset : ℕ) (task : StackOwner) (i : Interrupt) (s : Image)
    → i.interrupt_number < 0x20
    → (IsStackFault task i → ⊥)
    → Fatal i (isr_handler hhdm_offset task i s)
isr_handler-Fatal hhdm_offset task i s lt no_stack =
    elim (Bool-cases ((i.interrupt_number == 2) || (i.interrupt_number == 8))) [
      | inl stop ↦
          rw (isr_handler-halted hhdm_offset task i s stop)
            (machine (one_of i.interrupt_number stop))
      | inr go ↦ elim (Bool-cases (i.interrupt_number == 0xE)) [
        | inr no_fault ↦
            rw (isr_handler-exception hhdm_offset task i s lt go no_fault)
              (other (ground (arith, no_fault)) (ground (arith, go)) (ground (arith, go)))
        | inl is_fault ↦
            let vector = ==→eq i.interrupt_number 0xE is_fault in
            let outside : in_stack task i ≡ false = elim (Bool-cases (in_stack task i)) [
              | inl inside ↦ absurd (no_stack (in_stack-IsStackFault task i vector inside))
              | inr outside ↦ outside
            ] in
            elim (handle_page_fault_other hhdm_offset task i s outside) [
              | inl (low, e) ↦
                  rw (isr_handler-handle_page_fault hhdm_offset task i s vector ∙ e)
                    (null vector low)
              | inr (high, e) ↦
                  rw (isr_handler-handle_page_fault hhdm_offset task i s vector ∙ e)
                    (fault vector high)
            ]
      ]
    ]
  where
    one_of : (n : ℕ) → ((n == 2) || (n == 8)) ≡ true → (n ≡ 2) ⊎ (n ≡ 8)
    one_of n e = elim (Bool-cases (n == 2)) [
      | inl two ↦ inl (==→eq n 2 two)
      | inr other_one ↦ inr (ground (arith, other_one, e))
    ]
