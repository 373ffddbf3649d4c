-- ===== src/Isr/Gates.antt =====
-- The gates that kernel/src/cpu/idt.c writes.
use learning_os.Base.{
  ℕ, zero, suc, ◌+◌, ◌*◌, ◌^◌, ◌<◌, ◌≤◌, ◌≡◌, ◌≢◌, refl, ap, Bool-cases, ==_iff, inl, inr, ◌==◌,
  arith,
}
use learning_os.Isr.{IdtGate, empty_gate, clear_idt, set_idt_gate, set_gates, int_attr}

-- The address that the processor reads from the three parts of a gate.
abbrev pub address_of_gate : IdtGate → ℕ
address_of_gate gate = gate.base_low + gate.base_middle * 2 ^ 16 + gate.base_high * 2 ^ 32

-- `isr_install` sets the gates 0 to 47: each of them is present and leads to the 64-bit address of
-- its stub, and the gates behind them are empty. The number of gates is a parameter here.
pub set_gates_lem :
    (isr : ℕ → ℕ) (n i : ℕ)
    → ((j : ℕ) → isr j < 2 ^ 64)
    → (i < n
        → (address_of_gate (set_gates isr n i) ≡ isr i)
          × ((set_gates isr n i).attributes ≡ int_attr))
      × (n ≤ i → set_gates isr n i ≡ empty_gate)
unfolding set_gates set_idt_gate clear_idt
set_gates_lem isr zero i fits = ((λ lt. absurd (omega arith)), λ le. refl)
set_gates_lem isr (suc n) i fits =
    let (set_before, empty_behind) = set_gates_lem isr n i fits in
    elim (Bool-cases (i == n)) [
      | inl here ↦
          let same : i ≡ n = (==_iff i n).0 here in
          rw here ((λ lt. (omega (arith, fits n, ap isr same), refl)), (λ le. absurd (omega arith)))
      | inr away ↦
          let other : i ≢ n = ground arith in
          rw away ((λ lt. set_before (omega arith)), (λ le. empty_behind (omega arith)))
    ]
