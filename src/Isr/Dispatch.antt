-- ===== src/Isr/Dispatch.antt =====
-- The registration and the dispatch of kernel/src/cpu/isr.c.
use learning_os.Base.{
  ℕ, ◌+◌, ◌-◌, ◌%◌, ◌<◌, ◌≤◌, ◌≡◌, ◌≢◌, refl, inl, inr, some, ◌&&◌, Bool-cases, true, false, [],
  ◌∷◌, ltb, leb, ◌==◌, if◌then◌else◌, Mem, store, arith, u8,
}
use learning_os.Pic.{byte_out, pic1_cmd_port, pic_eoi, pic_send_eoi}
use learning_os.Isr.{
  report, call, write, handle_irq, root_isr_handler, register_isr_handler, isr_register_ok,
  isr_already_registered, idt_entries, irq_offset1, irq_offset2,
}

-- A line of the machine, interrupt 32 to 47: the handler is called, or its absence reported, and
-- then the end of the interrupt is written to the first controller and to no other, also for the
-- lines of the second one.
pub irq_lem :
    (handlers : Mem) (int_no : ℕ)
    → irq_offset1 ≤ int_no
    → int_no < irq_offset2 + 8
    → root_isr_handler handlers int_no
      ≡ some (
          (if handlers int_no == 0 then report (int_no % 8) else call (handlers int_no))
          ∷ write (byte_out pic1_cmd_port pic_eoi)
          ∷ [])
unfolding root_isr_handler handle_irq pic_send_eoi
irq_lem handlers int_no lo hi =
    let inside : leb 256 int_no ≡ false = ground arith in
    elim (Bool-cases (ltb int_no 40)) [
      | inl first ↦
          let line : u8 (int_no - 32) ≡ int_no % 8 = ground arith in
          let in_first : (leb 32 int_no && ltb int_no 40) ≡ true = ground arith in
          let low : leb 8 (int_no % 8) ≡ false = ground arith in
          rw (inside, in_first, line, low) refl
      | inr second ↦
          let line : u8 (int_no - 40) ≡ int_no % 8 = ground arith in
          let not_first : (leb 32 int_no && ltb int_no 40) ≡ false = ground arith in
          let in_second : (leb 40 int_no && ltb int_no 48) ≡ true = ground arith in
          let low : leb 8 (int_no % 8) ≡ false = ground arith in
          rw (inside, not_first, in_second, line, low) refl
    ]

-- Registering a handler for one of the 256 interrupts: it succeeds just if the interrupt has none,
-- which it then has; a second registration is refused and changes nothing; and the other
-- interrupts keep theirs.
pub register_lem :
    (handlers : Mem) (isr_number handler : ℕ)
    → isr_number < idt_entries
    → (handlers isr_number ≡ 0
        → ((register_isr_handler handlers isr_number handler).0 ≡ isr_register_ok)
          × ((register_isr_handler handlers isr_number handler).1 isr_number ≡ handler))
      × (handlers isr_number ≢ 0
          → register_isr_handler handlers isr_number handler ≡ (isr_already_registered, handlers))
      × ((i : ℕ)
          → i ≢ isr_number
          → (register_isr_handler handlers isr_number handler).1 i ≡ handlers i)
unfolding register_isr_handler store
register_lem handlers isr_number handler small =
    let inside : leb idt_entries isr_number ≡ false = ground arith in
    rw inside (elim (Bool-cases (handlers isr_number == 0)) [
      | inl free ↦
          rw free ((λ h. (refl, ground arith)), (λ h. ground arith), (λ i ne. ground arith))
      | inr taken ↦ rw taken ((λ h. ground arith), (λ h. refl), (λ i ne. refl))
    ])
