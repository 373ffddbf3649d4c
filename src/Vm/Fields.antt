-- ===== src/Vm/Fields.antt =====
-- What the entries of kernel/src/mm/vm.c say: the page that an entry maps, and what it allows.
use learning_os.Base.{
  ℕ, zero, suc, ◌-◌, ◌*◌, ◌/◌, ◌%◌, ◌^◌, ◌≤◌, ◌<◌, bit_and, bit_or, Bool, true, false, not, ◌&&◌,
  ◌||◌, ltb, ◌==◌, if◌then◌else◌, ◌≡◌, refl, arith, ◌∙◌, ap,
}
use Prim.Native.Nat.{bit_or-bitwise}
use native.Mathlib.Nat.{one-le-pow, mod-mod}
use learning_os.Base.Bits.{bit_or-zero, bit_and-zero, bit_and_mask, bit_and_high}
use learning_os.Base.Bits.Parts.{bit_or-div, bit_or-mod, bit_and-div, bit_and-mod, bit_and-bit}
use learning_os.Vm.Entry.{
  has, or_if, vm_pt_entry_create, mapped_entry, phys_addr_for_entry, vm_check_status, pt_present,
  pt_writable, pt_user_accessible, pt_no_execute, pt_hugepage, vm_allow_write, vm_allow_user,
  vm_allow_exec, vm_hugepage, err_vm_privilege, page_address_mask, mask_unreserved_bits,
}

bit_or-zero_left : (b : ℕ) → bit_or 0 b ≡ b
bit_or-zero_left b = omega (arith, bit_or-bitwise 0 b)

-- Bits 12 to 51 of a number, in their place.
abbrev pub address_field : ℕ → ℕ
address_field a = a / 2 ^ 12 % 2 ^ 40 * 2 ^ 12

pub address_mask_lem : (a : ℕ) → bit_and a (2 ^ 52 - 2 ^ 12) ≡ address_field a
address_mask_lem a =
    let above = bit_and-div 52 a (2 ^ 52 - 2 ^ 12) in
    let below = bit_and-mod 52 a (2 ^ 52 - 2 ^ 12) in
    let high = bit_and_high 52 12 (a % 2 ^ 52) (omega arith) (omega arith) in
    omega (arith, above, below, high, bit_and-zero (a / 2 ^ 52))

pub phys_addr_for_entry_lem : (entry : ℕ) → phys_addr_for_entry entry ≡ address_field entry
unfolding phys_addr_for_entry
phys_addr_for_entry_lem entry = address_mask_lem entry

nonzero_bit : (t p : ℕ) → t < 2 → 1 ≤ p → ltb 0 (t * p) ≡ (t == 1)
nonzero_bit zero p h k = ground arith
nonzero_bit (suc zero) p h k = ground arith
nonzero_bit (suc (suc t)) p h k = absurd (omega arith)

-- A test of one bit.
pub has_bit : (k value : ℕ) → has value (2 ^ k) ≡ (value / 2 ^ k % 2 == 1)
has_bit k value =
    rw (bit_and-bit k value)
      (nonzero_bit (value / 2 ^ k % 2) (2 ^ k) (omega arith) (one-le-pow k 2 (omega arith)))

-- The flags of an entry in front of its address.
abbrev pub entry_flags : ℕ → ℕ
entry_flags flags =
    let writable = or_if (has flags vm_allow_write) pt_writable pt_present in
    let user = or_if (has flags vm_allow_user) pt_user_accessible writable in
    let protected = or_if (not (has flags vm_allow_exec)) pt_no_execute user in
    or_if (has flags vm_hugepage) pt_hugepage protected

abbrev bit : Bool → ℕ
bit true = 1
bit false = 0

-- The bits of the flags that the theorems ask for.
record AllowBits (e : ℕ) (write user : Bool) : Type 0 where
  below : e % 2 ^ 12 < 2 ^ 9
  address : e / 2 ^ 12 % 2 ^ 40 ≡ 0
  present : e % 2 ≡ 1
  writable : e / 2 % 2 ≡ bit write
  user_bit : e / 4 % 2 ≡ bit user

or_if-AllowBits :
    (write user execute huge : Bool)
    → let writable = or_if write pt_writable pt_present in
      let user_too = or_if user pt_user_accessible writable in
      let protected = or_if (not execute) pt_no_execute user_too in
      AllowBits (or_if huge pt_hugepage protected) write user
or_if-AllowBits w u x h = record {
  below = ground arith;
  address = ground arith;
  present = ground arith;
  writable = ground arith;
  user_bit = ground arith;
}

-- The `w` bits of a number from bit `k` on.
abbrev pub field : ℕ → ℕ → ℕ → ℕ
field k w a = a / 2 ^ k % 2 ^ w

pub field-bit_or : (k w a b : ℕ) → field k w (bit_or a b) ≡ bit_or (field k w a) (field k w b)
field-bit_or k w a b =
    ap (λ (x : ℕ). x % 2 ^ w) (bit_or-div k a b) ∙ bit_or-mod w (a / 2 ^ k) (b / 2 ^ k)

pub field-bit_and : (k w a b : ℕ) → field k w (bit_and a b) ≡ bit_and (field k w a) (field k w b)
field-bit_and k w a b =
    ap (λ (x : ℕ). x % 2 ^ w) (bit_and-div k a b) ∙ bit_and-mod w (a / 2 ^ k) (b / 2 ^ k)

-- A field in which the mask has no bit.
pub field-masked : (k w a mask : ℕ) → field k w mask ≡ 0 → field k w (bit_and a mask) ≡ 0
field-masked k w a mask h =
    field-bit_and k w a mask ∙ ap (bit_and (field k w a)) h ∙ bit_and-zero (field k w a)

-- A field of a new entry that both the old bits and one other part leave alone.
pub field-both : (k w a b : ℕ) → field k w a ≡ 0 → field k w (bit_or a b) ≡ field k w b
field-both k w a b h =
    field-bit_or k w a b ∙ ap (λ (x : ℕ). bit_or x (field k w b)) h ∙ bit_or-zero_left (field k w b)

pub field-other : (k w a b : ℕ) → field k w b ≡ 0 → field k w (bit_or a b) ≡ field k w a
field-other k w a b h =
    field-bit_or k w a b ∙ ap (bit_or (field k w a)) h ∙ bit_or-zero (field k w a)

-- A field of which the mask has every bit.
pub field-kept :
    (k w a mask : ℕ) → field k w mask ≡ 2 ^ w - 1 → field k w (bit_and a mask) ≡ field k w a
field-kept k w a mask h =
    field-bit_and k w a mask
    ∙ ap (bit_and (field k w a)) h
    ∙ bit_and_mask w (field k w a)
    ∙ mod-mod (a / 2 ^ k) (2 ^ w)

module _ (phys flags : ℕ) where
  created_flags : AllowBits (entry_flags flags) (has flags vm_allow_write) (has flags vm_allow_user)
  created_flags =
      or_if-AllowBits (has flags vm_allow_write) (has flags vm_allow_user) (has flags vm_allow_exec)
        (has flags vm_hugepage)

  -- The three bits and the address of an entry that is created.
  created_address : field 12 40 (vm_pt_entry_create phys flags) ≡ field 12 40 phys
  unfolding vm_pt_entry_create
  created_address =
      field-both 12 40 (entry_flags flags) (bit_and phys page_address_mask) created_flags.address
      ∙ omega (arith, address_mask_lem phys)

  created_bit :
      (k : ℕ)
      → field k 1 page_address_mask ≡ 0
      → field k 1 (vm_pt_entry_create phys flags) ≡ field k 1 (entry_flags flags)
  unfolding vm_pt_entry_create
  created_bit k h =
      field-other k 1 (entry_flags flags) (bit_and phys page_address_mask)
        (field-masked k 1 phys page_address_mask h)

module _ (old phys flags : ℕ) where
  mapped_bit :
      (k : ℕ)
      → field k 1 mask_unreserved_bits ≡ 0
      → field k 1 page_address_mask ≡ 0
      → field k 1 (mapped_entry old phys flags) ≡ field k 1 (entry_flags flags)
  unfolding mapped_entry
  mapped_bit k h a =
      field-both k 1 (bit_and old mask_unreserved_bits) (vm_pt_entry_create phys flags)
        (field-masked k 1 old mask_unreserved_bits h)
      ∙ created_bit phys flags k a

  -- The entry that `__map_phys_page` writes maps the page of the physical address, whatever stood
  -- there before: its address is bits 12 to 51 of that one.
  pub mapped_address : phys_addr_for_entry (mapped_entry old phys flags) ≡ address_field phys
  unfolding mapped_entry
  mapped_address =
      phys_addr_for_entry_lem (mapped_entry old phys flags)
      ∙ ap (λ (x : ℕ). x * 2 ^ 12)
          (field-both 12 40 (bit_and old mask_unreserved_bits) (vm_pt_entry_create phys flags)
              (field-masked 12 40 old mask_unreserved_bits refl)
            ∙ created_address phys flags)

  -- The status of the entry that `__map_phys_page` writes, for every request: it is refused for
  -- lack of a privilege if it asks to write or for the access of the user where the flags of the
  -- mapping do not, and otherwise granted.
  pub mapped_status :
      (request : ℕ)
      → vm_check_status (mapped_entry old phys flags) request ≡ (
          if (has request vm_allow_write && not (has flags vm_allow_write))
            || (has request vm_allow_user && not (has flags vm_allow_user))
          then err_vm_privilege
          else 0)
  unfolding vm_check_status
  mapped_status request =
      let shown = created_flags phys flags in
      ground (
        arith,
        has_bit 0 (mapped_entry old phys flags),
        has_bit 1 (mapped_entry old phys flags),
        has_bit 2 (mapped_entry old phys flags),
        mapped_bit 0 refl refl,
        mapped_bit 1 refl refl,
        mapped_bit 2 refl refl,
        shown.present,
        shown.writable,
        shown.user_bit,
      )
