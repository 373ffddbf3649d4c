-- ===== src/Isr.antt =====
-- kernel/src/cpu/isr.c and kernel/src/cpu/idt.c with their headers: the gates of the interrupt
-- descriptor table, the registered handlers and the dispatch of an interrupt. The addresses of
-- the assembly stubs are an argument. Printing is left out but for the fact of a report; loading
-- the table and enabling interrupts are instructions.
pub mod Gates
pub mod Dispatch
use learning_os.Base.{
  ℕ, zero, suc, ◌+◌, ◌-◌, ◌%◌, Bool, true, false, ◌&&◌, List, [], ◌∷◌, ◌++◌, Option, none, some,
  map, ltb, leb, ◌==◌, if◌then◌else◌, Mem, store, u8, u16, u32, ◌>>>◌,
}
use learning_os.Pic.{PortWrite, pic_remap, pic_set_mask, pic_clear_mask, pic_send_eoi}

abbrev pub kernel_cs : ℕ
kernel_cs = 0x08

abbrev pub int_attr : ℕ
int_attr = 0x8E

abbrev pub idt_entries : ℕ
idt_entries = 256

abbrev pub irq_offset1 : ℕ
irq_offset1 = 32

abbrev pub irq_offset2 : ℕ
irq_offset2 = irq_offset1 + 8

-- `idt_gate`
pub record IdtGate : Type 0 where
  pub base_low : ℕ
  pub cs_selector : ℕ
  pub zeros : ℕ
  pub attributes : ℕ
  pub base_middle : ℕ
  pub base_high : ℕ
  pub reserved : ℕ

abbrev pub empty_gate : IdtGate
empty_gate = record {
  base_low = 0;
  cs_selector = 0;
  zeros = 0;
  attributes = 0;
  base_middle = 0;
  base_high = 0;
  reserved = 0;
}

abbrev pub Idt : Type 0
Idt = ℕ → IdtGate

unfoldable pub clear_idt : Idt
clear_idt gate_number = empty_gate

unfoldable pub set_idt_gate : Idt → ℕ → ℕ → Idt
set_idt_gate idt gate_number handler_address i =
    if i == gate_number
    then record {
      base_low = u16 handler_address;
      cs_selector = kernel_cs;
      zeros = 0;
      attributes = int_attr;
      base_middle = u16 (handler_address >>> 16);
      base_high = u32 (handler_address >>> 32);
      reserved = 0;
    }
    else idt i

-- The first `n` gates lead to their stubs.
unfoldable pub set_gates : (ℕ → ℕ) → ℕ → Idt
set_gates isr zero = clear_idt
set_gates isr (suc n) = set_idt_gate (set_gates isr n) n (isr n)

-- `pic_set_mask` of `n` lines from `irq` on. `byte_in t` is what the ports give at step `t`.
unfoldable pub mask_all : (ℕ → ℕ → ℕ) → ℕ → ℕ → List PortWrite
mask_all byte_in irq zero = []
mask_all byte_in irq (suc n) = pic_set_mask (byte_in (irq + 1)) irq ∷ mask_all byte_in (irq + 1) n

-- The table, the handlers and the port writes. A handler is its address, 0 for none.
unfoldable pub isr_install : (ℕ → ℕ) → (ℕ → ℕ → ℕ) → Idt × Mem × List PortWrite
isr_install isr byte_in = (
  set_gates isr 48,
  λ i. 0,
  pic_remap (byte_in 0) irq_offset1 irq_offset2 ++ mask_all byte_in 0 16,
)

pub data RegisterResult : Type 0 where
  isr_register_ok isr_already_registered isr_oob : RegisterResult

unfoldable pub register_isr_handler : Mem → ℕ → ℕ → RegisterResult × Mem
register_isr_handler registered_handlers isr_number handler =
    if leb idt_entries isr_number
    then (isr_oob, registered_handlers)
    else if registered_handlers isr_number == 0
    then (isr_register_ok, store registered_handlers isr_number handler)
    else (isr_already_registered, registered_handlers)

-- The number is passed on as a byte.
unfoldable pub register_irq_handler : (ℕ → ℕ) → Mem → ℕ → ℕ → RegisterResult × Mem × List PortWrite
register_irq_handler byte_in registered_handlers irq_number handler =
    let (err_code, handlers) =
      register_isr_handler registered_handlers (u8 (irq_number + irq_offset1)) handler in
    (
      err_code,
      handlers,
      elim err_code [
        | isr_register_ok ↦ pic_clear_mask byte_in irq_number ∷ []
        | isr_already_registered ↦ []
        | isr_oob ↦ []
      ],
    )

-- What an interrupt leads to, in order
pub data Event : Type 0 where
  report : ℕ → Event
  call : ℕ → Event
  write : PortWrite → Event

unfoldable pub handle_irq : ℕ → ℕ → List Event
handle_irq irq_number handler =
    (if handler == 0 then report irq_number else call handler) ∷ map write (pic_send_eoi irq_number)

-- The entries of `exception_messages`
abbrev pub num_exception_messages : ℕ
num_exception_messages = 31

-- The result is `none` where the code reads behind `registered_handlers` or, for the report of an
-- interrupt that is no line, behind `exception_messages`.
unfoldable pub root_isr_handler : Mem → ℕ → Option (List Event)
root_isr_handler registered_handlers int_no =
    let handler = registered_handlers int_no in
    let unhandled = if leb num_exception_messages int_no then none else some (report int_no ∷ []) in
    if leb idt_entries int_no
    then none
    else if leb irq_offset1 int_no && ltb int_no (irq_offset1 + 8)
    then some (handle_irq (u8 (int_no - irq_offset1)) handler)
    else if leb irq_offset2 int_no && ltb int_no (irq_offset2 + 8)
    then some (handle_irq (u8 (int_no - irq_offset2)) handler)
    else if handler == 0
    then unhandled
    else some []
